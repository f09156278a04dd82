-- ===== src/Daemon/Session/Steps.antt =====
-- `serve_configured` of crates/matrix-daemon/src/lib.rs: the sessions of all clients over one store, one
-- registry and one disk. A step is a stretch of one task between two waits; the lock of the store is
-- taken and given back within it. Which task goes next, and what a client sends, is free.
use fw16_ledmatrix.Base.{
  ℕ, ◌+◌, ◌<◌, ◌≡◌, Bool, true, false, some, List, [], ◌∷◌, Text, get_elem?, set,
}
use fw16_ledmatrix.Core.Layout.Float.{Float}
use fw16_ledmatrix.Client.Messages.{Request}
use fw16_ledmatrix.Daemon.Store.{output_at, cancel_preview}
use fw16_ledmatrix.Daemon.Store.Files.{Files}
use fw16_ledmatrix.Daemon.Devices.Registry.{clear}
use fw16_ledmatrix.Daemon.Session.{
  Shared, Phase, Answer, Surroundings, greeting, waiting, previewing, identifying, streaming,
  closed, reply, holding, hang_up, respond, greet, max_clients,
}

pub record System (W : Type 0) : Type 0 where
  pub shared : Shared W
  pub sessions : List Phase

-- A session that has not ended holds one of the permits.
abbrev pub is_open : Phase → ℕ
is_open closed = 0
is_open greeting = 1
is_open waiting = 1
is_open (previewing owner generation) = 1
is_open (identifying flag) = 1
is_open streaming = 1

abbrev pub count_open : List Phase → ℕ
count_open [] = 0
count_open (p ∷ ps) = is_open p + count_open ps

unfoldable pub phase_after : Answer → Phase
phase_after (reply event) = closed
phase_after (holding phase) = phase
phase_after hang_up = closed

unfoldable pub greeted : Bool → Phase
greeted true = waiting
greeted false = closed

-- `PreviewGuard::drop` and `CancelOnDrop::drop`, however the session ends.
unfoldable pub dropped : {W : Type 0} → Phase → Shared W → Shared W
dropped (previewing owner generation) sh = record sh {
  store = (cancel_preview sh.store owner (some generation)).1;
}
dropped (identifying flag) sh = record sh { registry = clear sh.registry flag }
dropped greeting sh = sh
dropped waiting sh = sh
dropped streaming sh = sh
dropped closed sh = sh

module _ (F : Type 0) ⦃fl : Float F⦄ {W : Type 0} (fs : Files W) (daemon_version : Text) where
  pub data Step (s : System W) (t : System W) : Type 0 where
    -- A client connects while a permit is free; with none left its stream is dropped at once.
    accept :
        count_open s.sessions < max_clients
        → t ≡ record s { sessions = greeting ∷ s.sessions }
        → Step s t
    -- The first message.
    hear :
        (i : ℕ) (r : Request)
        → get_elem? s.sessions i ≡ some greeting
        → t ≡ record s { sessions = set s.sessions i (greeted (greet daemon_version r).0) }
        → Step s t
    -- The request.
    ask :
        (i : ℕ) (r : Request) (e : Surroundings) (a : Answer) (shared : Shared W)
        → get_elem? s.sessions i ≡ some waiting
        → respond F fs r e s.shared ≡ some (a, shared)
        → t ≡ record { shared = shared; sessions = set s.sessions i (phase_after a) }
        → Step s t
    -- The end of a session that waits: its preview is over, its identification is done, its client has
    -- sent something or has gone, a time-out or an error.
    leave :
        (i : ℕ) (p : Phase)
        → get_elem? s.sessions i ≡ some p
        → t ≡ record { shared = dropped p s.shared; sessions = set s.sessions i closed }
        → Step s t
    -- The render loop and the route loop ask for the configuration to show.
    show :
        (now : ℕ)
        → t ≡ record s { shared = record s.shared { store = (output_at s.shared.store now).1 } }
        → Step s t

  -- What is reached from a daemon that has just started.
  pub data Reach (start : System W) : System W → Type 0 where
    here : Reach start start
    later : {s t : System W} → Reach start s → Step s t → Reach start t
