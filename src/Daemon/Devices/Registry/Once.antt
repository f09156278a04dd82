-- ===== src/Daemon/Devices/Registry/Once.antt =====
-- A port is identified once at a time (`begin` and `cancel` of crates/matrix-daemon/src/devices.rs),
-- whatever calls come between.
use fw16_ledmatrix.Base.{
  ℕ, ◌<◌, ◌≡◌, refl, ap, subst, arith, true, false, Option, none, some, List, [], ◌∷◌, Text,
  text_eq, text_beq_iff, length, All, All-keep, Bool-cases, inl, inr,
}
use fw16_ledmatrix.Client.Messages.{Device}
use fw16_ledmatrix.Daemon.Devices.Route.{plugged}
use fw16_ledmatrix.Daemon.Devices.Registry.{
  Registry, flag, entry, clear, cancel, lasting, identifying, grant, begin,
}
use fw16_ledmatrix.Daemon.Devices.Registry.Holds.{
  Act, after_all, LeavesUp, HasFlags, Holds, get_elem?-append_last, set_lowers, lasting-entry,
  plugged_lasts, Holds-identifying, after_all-Holds,
}

own_flags :
    (port : Text) (n : ℕ) (l : List (Text × ℕ))
    → All (λ (e : Text × ℕ). e.1 < n) l
    → All (λ (e : Text × ℕ). e.1 ≡ n → e.0 ≡ port) l
own_flags port n [] h = tt
own_flags port n (e ∷ l) h = (λ s. absurd (omega (arith, h.0, s)), own_flags port n l h.1)

granted-Holds :
    (port : Text) (r : Registry) (devices : List Device)
    → HasFlags r
    → Holds port (length r.flags) (grant r (lasting r devices) port).1
unfolding grant lasting entry flag
granted-Holds port r devices h = record {
  up = rw (get_elem?-append_last r.flags true) refl;
  entered = ground (arith, text_beq_iff port port);
  own = (λ _. refl, own_flags port (length r.flags) _ (All-keep _ _ _ (All-keep _ _ r.active h)));
}

of_grant :
    (r s : Registry) (port : Text) (devices : List Device) (i : ℕ)
    → HasFlags r
    → grant r (lasting r devices) port ≡ (some i, s)
    → Holds port i s
unfolding grant
of_grant r s port devices i f k =
    let g = grant r (lasting r devices) port in
    let same : length r.flags ≡ i = ground (arith, k) in
    subst (λ (z : Registry). Holds port i z) {x = g.1} (ap (λ z. z.1) k)
      (subst (λ (j : ℕ). Holds port j g.1) same (granted-Holds port r devices f))

begin-granted :
    (r s : Registry) (port : Text) (present : Option (List Device)) (i : ℕ)
    → HasFlags r
    → begin r port present ≡ (some i, s)
    → Holds port i s
unfolding begin
begin-granted r s port none i f h = absurd (ground arith)
begin-granted r s port (some devices) i f h = elim (Bool-cases (plugged devices port)) [
  | inr e ↦ absurd (ground (arith, e))
  | inl e ↦ elim (Bool-cases (identifying r (lasting r devices) port)) [
    | inl t ↦ absurd (ground (arith, e, t))
    | inr t ↦ of_grant r s port devices i f (ground (arith, e, t))
  ]
]

begin-busy :
    (s : Registry) (port : Text) (later : List Device) (i : ℕ)
    → Holds port i s
    → (begin s port (some later)).0 ≡ none
unfolding begin
begin-busy s port later i h = ground (arith, Holds-identifying port i s later h)

clear-flag : (s : Registry) (i : ℕ) → flag (clear s i) i ≡ false
unfolding flag clear
clear-flag s i = set_lowers s.flags i

cleared_idle :
    (s : Registry) (port : Text) (later : List Device) (i : ℕ)
    → Holds port i s
    → plugged later port ≡ true
    → identifying (clear s i) (lasting (clear s i) later) port ≡ false
unfolding identifying clear
cleared_idle s port later i h p =
    rw (lasting-entry port i (clear s i) later h.entered (plugged_lasts _ _ p)) (clear-flag s i)

begin-free :
    (s : Registry) (port : Text) (later : List Device) (i : ℕ)
    → Holds port i s
    → plugged later port ≡ true
    → (begin (clear s i) port (some later)).0 ≡ some (length (clear s i).flags)
unfolding begin grant
begin-free s port later i h p = rw (p, cleared_idle s port later i h p) refl

cancel-Holds : (s : Registry) (port : Text) (i : ℕ) → Holds port i s → cancel s port ≡ clear s i
unfolding cancel
cancel-Holds s port i h = rw (h.entered, cancel) refl

-- A port is identified once at a time: from the call that begins it, through any calls for this and
-- other ports with any lists of devices, its flag is up and nobody else can begin, until it is cancelled
-- or its own flag is cleared. When it is cancelled, its flag goes down, and then a plugged port can be
-- identified again. Every entry of the registry has a flag at the start.
pub begin-once :
    (r s : Registry) (port : Text) (present : Option (List Device)) (acts : List Act)
    (later : List Device) (i : ℕ)
    → HasFlags r
    → begin r port present ≡ (some i, s)
    → All (LeavesUp port i) acts
    → let t = after_all s acts in
      (flag t i ≡ true)
      × ((begin t port (some later)).0 ≡ none)
      × (flag (cancel t port) i ≡ false)
      × (plugged later port ≡ true
          → (begin (cancel t port) port (some later)).0 ≡ some (length (cancel t port).flags))
begin-once r s port present acts later i f h others =
    let t = after_all s acts in
    let holds = after_all-Holds port i s acts others (begin-granted r s port present i f h) in
    let c = cancel-Holds t port i holds in
    (
      holds.up,
      begin-busy t port later i holds,
      rw c (clear-flag t i),
      λ p. rw c (begin-free t port later i holds p),
    )
