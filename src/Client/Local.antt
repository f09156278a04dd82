-- ===== src/Client/Local.antt =====
-- crates/matrix-client/src/local/unix.rs: the private socket of a daemon. What each call of the operating
-- system comes to is a parameter; what is asked of it, in order, is a list of effects.
pub mod Acts
pub mod Checks
pub mod Safety
use fw16_ledmatrix.Base.{
  ℕ, ◌%◌, Bool, true, false, not, ◌&&◌, ◌||◌, Option, none, some, List, [], ◌∷◌, ◌++◌, Text, nat_eq,
  ◌==◌, if◌then◌else◌, Result, ok, err,
}
use fw16_ledmatrix.Client.Failure.{
  IoKind, permission_denied, addr_in_use, not_found, connection_refused, already_exists,
}
use fw16_ledmatrix.Client.Conversation.{Done}

pub data FileType : Type 0 where
  directory regular socket other : FileType

pub record Metadata : Type 0 where
  pub kind : FileType
  pub uid : ℕ
  pub mode : ℕ
  pub links : ℕ
  pub device : ℕ
  pub inode : ℕ

abbrev pub is_dir : FileType → Bool
is_dir directory = true
is_dir _ = false

abbrev pub is_file : FileType → Bool
is_file regular = true
is_file _ = false

abbrev pub is_socket : FileType → Bool
is_socket socket = true
is_socket _ = false

-- `mode & 0o077`: the six low bits, the rights of the group and of others.
unfoldable pub shared_rights : ℕ → ℕ
shared_rights mode = mode % 64

unfoldable pub check_private : (FileType → Bool) → ℕ → Metadata → Result Metadata IoKind
unfolding shared_rights
check_private is_kind user m =
    if not (is_kind m.kind) || (not (m.uid == user) || not (shared_rights m.mode == 0))
    then err permission_denied
    else ok m

unfoldable pub private_directory : ℕ → Result Metadata IoKind → Result Metadata IoKind
private_directory user (ok m) = check_private is_dir user m
private_directory user (err e) = err e

unfoldable pub private_socket : ℕ → Result Metadata IoKind → Result Metadata IoKind
private_socket user (ok m) = check_private is_socket user m
private_socket user (err e) = err e

-- The user at the other end of a stream.
unfoldable pub same_user : ℕ → Result ℕ IoKind → Result Done IoKind
same_user user (ok peer) = if not (peer == user) then err permission_denied else ok tt
same_user user (err e) = err e

pub data Effect : Type 0 where
  creates_directory opens_lock locks connects removes binds permits : Effect

-- A result, and the effects before it.
abbrev pub Act : Type 0 → Type 0
Act A = Result A IoKind × List Effect

abbrev pub pure_result : {A : Type 0} → Result A IoKind → Act A
pure_result r = (r, [])

abbrev pub asks_for : {A : Type 0} → Effect → Result A IoKind → Act A
asks_for e r = (r, e ∷ [])

-- `?`.
infixl 5 ◌then_do◌
unfoldable pub ◌then_do◌ : {A B : Type 0} → Act A → (A → Act B) → Act B
(ok a, es) then_do f = ((f a).0, es ++ (f a).1)
(err e, es) then_do f = (err e, es)

abbrev pub or_denied : Option Text → Result Text IoKind
or_denied (some t) = ok t
or_denied none = err permission_denied

-- The calls of `bind` in the order of the code: `probe` is the attempt to connect to a socket that is
-- there (`none` after 250 milliseconds), `try_lock` is `none` where another process has the lock.
pub record Calls : Type 0 where
  pub user : ℕ
  pub parent : Option Text
  pub file_name : Option Text
  pub parent_exists : Bool
  pub create_parent : Result Done IoKind
  pub parent_metadata : Result Metadata IoKind
  pub open_lock : Result Done IoKind
  pub lock_metadata : Result Metadata IoKind
  pub try_lock : Option (Result Done IoKind)
  pub socket_before : Result Metadata IoKind
  pub probe : Option (Result Done IoKind)
  pub remove : Result Done IoKind
  pub bind_socket : Result Done IoKind
  pub set_permissions : Result Done IoKind
  pub socket_after : Result Metadata IoKind

unfoldable pub created : Result Done IoKind → Result Done IoKind
created (ok d) = ok d
created (err already_exists) = ok tt
created (err e) = err e

unfoldable pub ensure_parent : Calls → Act Done
unfolding created
ensure_parent c =
    if c.parent_exists
    then pure_result (ok tt)
    else asks_for creates_directory (created c.create_parent)

unfoldable pub check_lock : ℕ → Result Metadata IoKind → Result Metadata IoKind
check_lock user (ok m) =
    if not (m.links == 1) then err permission_denied else check_private is_file user m
check_lock user (err e) = err e

unfoldable pub locked : Option (Result Done IoKind) → Result Done IoKind
locked none = err addr_in_use
locked (some r) = r

unfoldable pub after_probe : Calls → Option (Result Done IoKind) → Act Done
after_probe c (some (err connection_refused)) = asks_for removes c.remove
after_probe c (some (err e)) = pure_result (err e)
after_probe c (some (ok d)) = pure_result (err addr_in_use)
after_probe c none = pure_result (err addr_in_use)

-- A socket that nobody serves makes room; a live one is never replaced.
unfoldable pub make_room : Calls → Result Metadata IoKind → Act Done
unfolding after_probe
make_room c (ok m) = asks_for connects (ok tt) then_do λ d. after_probe c c.probe
make_room c (err not_found) = pure_result (ok tt)
make_room c (err e) = pure_result (err e)

unfoldable pub take_lock : Calls → Act Done
unfolding check_lock locked
take_lock c = asks_for opens_lock c.open_lock then_do λ d.
    pure_result (check_lock c.user c.lock_metadata) then_do λ m. asks_for locks (locked c.try_lock)

unfoldable pub identity : Metadata → ℕ × ℕ
identity m = (m.device, m.inode)

unfoldable pub open_socket : Calls → Act (ℕ × ℕ)
unfolding private_socket identity
open_socket c = asks_for binds c.bind_socket then_do λ d.
    asks_for permits c.set_permissions then_do λ d.
    pure_result (private_socket c.user c.socket_after) then_do λ m. pure_result (ok (identity m))

-- `bind` up to the lock.
unfoldable pub prepare : Calls → Act Done
prepare c = pure_result (or_denied c.parent) then_do λ parent. ensure_parent c then_do λ d.
    pure_result (private_directory c.user c.parent_metadata) then_do λ m.
    pure_result (or_denied c.file_name) then_do λ name. take_lock c

unfoldable pub bind : Calls → Act (ℕ × ℕ)
bind c = prepare c then_do λ d.
    make_room c (private_socket c.user c.socket_before) then_do λ d. open_socket c

-- `connect`: the endpoint's parent, the two checks, the connection and the user at its other end.
unfoldable pub connect :
    ℕ
    → Option Text
    → Result Metadata IoKind
    → Result Metadata IoKind
    → Result Done IoKind
    → Result ℕ IoKind
    → Act Done
connect user parent parent_metadata socket_metadata stream peer =
    pure_result (or_denied parent) then_do λ p.
    pure_result (private_directory user parent_metadata) then_do λ m.
    pure_result (private_socket user socket_metadata) then_do λ m.
    asks_for connects stream then_do λ d. pure_result (same_user user peer)

unfoldable pub accept_stream : ℕ → Result Done IoKind → Result ℕ IoKind → Act Done
accept_stream user stream peer = pure_result stream then_do λ d. pure_result (same_user user peer)

-- `Drop`: what stands at the endpoint is removed only if it is this listener's socket.
unfoldable pub drop_listener : ℕ × ℕ → Result Metadata IoKind → List Effect
unfolding identity
drop_listener mine (err e) = []
drop_listener mine (ok m) =
    if is_socket m.kind && ((identity m).0 == mine.0 && (identity m).1 == mine.1)
    then removes ∷ []
    else []
