-- ===== src/Client/Local/Safety.antt =====
-- What `Listener::bind` of crates/matrix-client/src/local/unix.rs makes sure of before it takes an
-- endpoint over.
use fw16_ledmatrix.Base.{
  ℕ, ◌≡◌, ◌≢◌, refl, ap, arith, Bool, true, false, Option, none, some, Result, ok, err, In, ◌⊎◌,
  inl, inr, All, In-All,
}
use fw16_ledmatrix.Client.Failure.{IoKind, not_found, connection_refused}
use fw16_ledmatrix.Client.Conversation.{Done}
use fw16_ledmatrix.Client.Local.{
  is_socket, Metadata, private_directory, private_socket, check_lock, locked, Effect,
  creates_directory, opens_lock, locks, connects, removes, binds, permits, pure_result, asks_for,
  ◌then_do◌, Calls, ensure_parent, after_probe, make_room, take_lock, identity, open_socket,
  prepare, bind, or_denied,
}
use fw16_ledmatrix.Client.Local.Acts.{then_do-In, then_do-ok, then_do-All}
use fw16_ledmatrix.Client.Local.Checks.{
  Private, Owned, Stale, Free, private_directory-Private, private_socket-Private,
  private_socket-not_found, check_lock-Private,
}

abbrev is_preparing : Effect → Bool
is_preparing creates_directory = true
is_preparing opens_lock = true
is_preparing locks = true
is_preparing _ = false

abbrev Preparing : Effect → Type 0
Preparing e = is_preparing e ≡ true

ensure_parent-Preparing : (c : Calls) → All Preparing (ensure_parent c).1
unfolding ensure_parent
ensure_parent-Preparing c = ground arith

take_lock-Preparing : (c : Calls) → All Preparing (take_lock c).1
unfolding take_lock
take_lock-Preparing c =
    then_do-All Preparing _ _ (refl, tt) (λ d. then_do-All Preparing _ _ tt (λ m. (refl, tt)))

prepare-Preparing : (c : Calls) → All Preparing (prepare c).1
unfolding prepare
prepare-Preparing c = then_do-All Preparing _ _ tt (λ p.
    then_do-All Preparing _ _ (ensure_parent-Preparing c) (λ d.
      then_do-All Preparing _ _ tt
        (λ m. then_do-All Preparing _ _ tt (λ n. take_lock-Preparing c))))

locked-ok : (o : Option (Result Done IoKind)) (d : Done) → locked o ≡ ok d → o ≡ some (ok d)
unfolding locked
locked-ok none d h = absurd (cc h)
locked-ok (some r) d h = ap some h

prepare-Owned : (c : Calls) (d : Done) → (prepare c).0 ≡ ok d → Owned c
unfolding prepare take_lock
prepare-Owned c d h =
    let (p, _, h1) = then_do-ok (pure_result (or_denied c.parent)) _ d h in
    let (_, _, h2) = then_do-ok (ensure_parent c) _ d h1 in
    let (m, em, h3) =
      then_do-ok (pure_result (private_directory c.user c.parent_metadata)) _ d h2 in
    let (_, _, h4) = then_do-ok (pure_result (or_denied c.file_name)) _ d h3 in
    let (_, _, h5) = then_do-ok (asks_for opens_lock c.open_lock) _ d h4 in
    let (l, el, h6) = then_do-ok (pure_result (check_lock c.user c.lock_metadata)) _ d h5 in
    (
      private_directory-Private c.user c.parent_metadata m em,
      check_lock-Private c.user c.lock_metadata l el,
      (d, locked-ok c.try_lock d h6),
    )

-- What `make_room` does to a socket that stands there.
after_probe-In :
    (c : Calls) (o : Option (Result Done IoKind)) (e : Effect)
    → In e (after_probe c o).1
    → (e ≡ removes) × (o ≡ some (err connection_refused))
unfolding after_probe
after_probe-In c o e h = ground arith

after_probe-ok :
    (c : Calls) (o : Option (Result Done IoKind)) (d : Done)
    → (after_probe c o).0 ≡ ok d
    → (o ≡ some (err connection_refused)) × (c.remove ≡ ok d)
unfolding after_probe
after_probe-ok c o d h = ground arith

-- A socket that stands there, of which nothing more is known.
make_room-In :
    (c : Calls) (r : Result Metadata IoKind) (e : Effect)
    → In e (make_room c r).1
    → (e ≡ connects)
      ⊎ ((e ≡ removes) × ((m : Metadata) × (r ≡ ok m)) × (c.probe ≡ some (err connection_refused)))
unfolding make_room ◌then_do◌
make_room-In c (ok m) e (inl h) = inl h
make_room-In c (ok m) e (inr h) = let (q, p) = after_probe-In c c.probe e h in inr (q, (m, refl), p)
make_room-In c (err z) e h = absurd (ground arith)

make_room-ok :
    (c : Calls) (r : Result Metadata IoKind) (d : Done)
    → (make_room c r).0 ≡ ok d
    → (r ≡ err not_found)
      ⊎ (((m : Metadata) × (r ≡ ok m))
          × (c.probe ≡ some (err connection_refused))
          × (c.remove ≡ ok d))
unfolding make_room ◌then_do◌
make_room-ok c (ok m) d h = let (p, q) = after_probe-ok c c.probe d h in inr ((m, refl), p, q)
make_room-ok c (err z) d h = ground arith

abbrev NotRemoving : Effect → Type 0
NotRemoving e = e ≢ removes

open_socket-NotRemoving : (c : Calls) → All NotRemoving (open_socket c).1
unfolding open_socket
open_socket-NotRemoving c =
    then_do-All NotRemoving _ _ ((λ e. cc e), tt)
      (λ d.
        then_do-All NotRemoving _ _ ((λ e. cc e), tt)
          (λ d. then_do-All NotRemoving _ _ tt (λ m. tt)))

open_socket-ok :
    (c : Calls) (i : ℕ × ℕ)
    → (open_socket c).0 ≡ ok i
    → (m : Metadata) × (c.socket_after ≡ ok m) × Private is_socket c.user m × (i ≡ identity m)
unfolding open_socket
open_socket-ok c i h =
    let (_, _, h1) = then_do-ok (asks_for binds c.bind_socket) _ i h in
    let (_, _, h2) = then_do-ok (asks_for permits c.set_permissions) _ i h1 in
    let (m, e, h3) = then_do-ok (pure_result (private_socket c.user c.socket_after)) _ i h2 in
    let (q, p) = private_socket-Private c.user c.socket_after m e in (m, q, p, cc h3)

-- The steps that are not preparations come when the endpoint is owned.
bind-In :
    (c : Calls) (e : Effect)
    → is_preparing e ≡ false
    → In e (bind c).1
    → Owned c
      × (In e (make_room c (private_socket c.user c.socket_before)).1
          ⊎ (((d : Done) × ((make_room c (private_socket c.user c.socket_before)).0 ≡ ok d))
              × In e (open_socket c).1))
unfolding bind
bind-In c e n h = elim (then_do-In e (prepare c) _ h) [
  | inl k ↦ absurd (cc (n, In-All Preparing (prepare c).1 e (prepare-Preparing c) k))
  | inr (d, o, k) ↦ (
    prepare-Owned c d o,
    elim (then_do-In e (make_room c (private_socket c.user c.socket_before)) _ k) [
      | inl k ↦ inl k
      | inr (d, o, k) ↦ inr ((d, o), k)
    ],
  )
]

stale :
    (c : Calls)
    → (m : Metadata) × (private_socket c.user c.socket_before ≡ ok m)
    → c.probe ≡ some (err connection_refused)
    → Stale c
stale c (m, e) p = let (q, k) = private_socket-Private c.user c.socket_before m e in ((m, q, k), p)

free :
    (c : Calls) (d : Done) → (make_room c (private_socket c.user c.socket_before)).0 ≡ ok d → Free c
free c d h = elim (make_room-ok c (private_socket c.user c.socket_before) d h) [
  | inl e ↦ inl (private_socket-not_found c.user c.socket_before e)
  | inr (s, p, r) ↦ inr (stale c s p, (d, r))
]

bind-removes : (c : Calls) → In removes (bind c).1 → Owned c × Stale c
bind-removes c h =
    let (o, k) = bind-In c removes refl h in
    (
      o,
      elim k [
        | inl k ↦ elim (make_room-In c _ removes k) [
          | inl e ↦ absurd (cc e)
          | inr (_, s, p) ↦ stale c s p
        ]
        | inr (_, k) ↦
            absurd (In-All NotRemoving (open_socket c).1 removes (open_socket-NotRemoving c) k refl)
      ],
    )

bind-binds : (c : Calls) → In binds (bind c).1 → Owned c × Free c
bind-binds c h =
    let (o, k) = bind-In c binds refl h in
    (
      o,
      elim k [
        | inl k ↦ elim (make_room-In c _ binds k) [
          | inl e ↦ absurd (cc e)
          | inr (e, _, _) ↦ absurd (cc e)
        ]
        | inr ((d, r), k) ↦ free c d r
      ],
    )

bind-ok :
    (c : Calls) (i : ℕ × ℕ)
    → (bind c).0 ≡ ok i
    → Owned c
      × Free c
      × ((m : Metadata) × (c.socket_after ≡ ok m) × Private is_socket c.user m × (i ≡ identity m))
unfolding bind
bind-ok c i h =
    let (d, o, h1) = then_do-ok (prepare c) _ i h in
    let (d, r, h2) = then_do-ok (make_room c (private_socket c.user c.socket_before)) _ i h1 in
    (prepare-Owned c d o, free c d r, open_socket-ok c i h2)

-- Whatever the operating system answers: `bind` removes what stands at the endpoint only if its directory
-- is private, it holds the lock, whose file is private and has one link, and what stands there is a
-- private socket whose connection was refused. It binds a new socket only under the same conditions,
-- when nothing stood there or such a stale socket was removed. And where it succeeds, all that holds
-- and the listener's identity is that of a private socket.
pub bind-safe :
    (c : Calls)
    → (In removes (bind c).1 → Owned c × Stale c)
      × (In binds (bind c).1 → Owned c × Free c)
      × ((i : ℕ × ℕ)
          → (bind c).0 ≡ ok i
          → Owned c
            × Free c
            × ((m : Metadata) × (c.socket_after ≡ ok m)
                × Private is_socket c.user m
                × (i ≡ identity m)))
bind-safe c = (bind-removes c, bind-binds c, bind-ok c)
