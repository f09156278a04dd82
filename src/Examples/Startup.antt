-- ===== src/Examples/Startup.antt =====
-- The theorems on the start of a daemon and on its socket at concrete inputs.
use fw16_ledmatrix.Base.{
  ℕ, ◌*◌, ◌∷◌, refl, ◌≡◌, arith, true, false, some, [], ok, err, In, nat_beq, if◌then◌else◌,
}
use fw16_ledmatrix.Client.Failure.{failure, unavailable, connection_refused}
use fw16_ledmatrix.Client.Messages.{Hello}
use fw16_ledmatrix.Client.Startup.{Process, Started, start, start-Started}
use fw16_ledmatrix.Client.Local.{
  Calls, Metadata, FileType, directory, regular, socket, is_socket, opens_lock, locks, connects,
  permits, removes, binds, bind, identity,
}
use fw16_ledmatrix.Client.Local.Checks.{Private, Owned, Stale, Free}
use fw16_ledmatrix.Client.Local.Safety.{bind-safe}

abbrev hello : Hello
hello = record { version = 2; daemon_version = []; simulated = true; capabilities = [] }

-- Nobody listens; the daemon that is started answers at the second attempt.
abbrev process : Process
process = record {
  first = err (failure unavailable);
  spawned = some (some 77);
  connects = λ n. some (if nat_beq n 0 then err (failure unavailable) else ok hello);
  try_wait = λ n. some false;
  clock = λ n. n * 50;
  sleeps = λ n. omega arith;
}

start-Started_example : Started process (start process)
start-Started_example = start-Started process (omega arith)

abbrev file_entry : FileType → ℕ → Metadata
file_entry kind mode = record {
  kind = kind;
  uid = 1000;
  mode = mode;
  links = 1;
  device = 5;
  inode = 42;
}

-- A socket is left over from a daemon that has gone.
abbrev os_calls : Calls
os_calls = record {
  user = 1000;
  parent = some [];
  file_name = some [];
  parent_exists = true;
  create_parent = ok tt;
  parent_metadata = ok (file_entry directory 448);
  open_lock = ok tt;
  lock_metadata = ok (file_entry regular 384);
  try_lock = some (ok tt);
  socket_before = ok (file_entry socket 384);
  probe = some (err connection_refused);
  remove = ok tt;
  bind_socket = ok tt;
  set_permissions = ok tt;
  socket_after = ok (file_entry socket 384);
}

bind-safe_example :
    (In removes (bind os_calls).1 → Owned os_calls × Stale os_calls)
    × (In binds (bind os_calls).1 → Owned os_calls × Free os_calls)
    × ((i : ℕ × ℕ)
        → (bind os_calls).0 ≡ ok i
        → Owned os_calls
          × Free os_calls
          × ((m : Metadata) × (os_calls.socket_after ≡ ok m)
              × Private is_socket os_calls.user m
              × (i ≡ identity m)))
bind-safe_example = bind-safe os_calls

-- The process is started, and answers.
process_started : start process ≡ (true, some (ok (some 77)))
unfolding start fw16_ledmatrix.Client.Startup.begun fw16_ledmatrix.Client.Startup.attempt_of
    fw16_ledmatrix.Client.Startup.launch fw16_ledmatrix.Client.Startup.wait_ready
    fw16_ledmatrix.Client.Startup.round fw16_ledmatrix.Client.Startup.waited failure
process_started = refl

-- The stale socket makes room for a new one.
socket_replaced :
    bind os_calls ≡ (ok (5, 42), opens_lock ∷ locks ∷ connects ∷ removes ∷ binds ∷ permits ∷ [])
unfolding bind fw16_ledmatrix.Client.Local.prepare fw16_ledmatrix.Client.Local.make_room
    fw16_ledmatrix.Client.Local.open_socket fw16_ledmatrix.Client.Local.ensure_parent
    fw16_ledmatrix.Client.Local.take_lock fw16_ledmatrix.Client.Local.check_private
    fw16_ledmatrix.Client.Local.private_directory fw16_ledmatrix.Client.Local.private_socket
    fw16_ledmatrix.Client.Local.check_lock fw16_ledmatrix.Client.Local.locked
    fw16_ledmatrix.Client.Local.after_probe fw16_ledmatrix.Client.Local.◌then_do◌
    fw16_ledmatrix.Client.Local.identity fw16_ledmatrix.Client.Local.shared_rights
socket_replaced = refl
