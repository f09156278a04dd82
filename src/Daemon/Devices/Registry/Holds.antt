-- ===== src/Daemon/Devices/Registry/Holds.antt =====
-- What calls of `begin` and `cancel` (crates/matrix-daemon/src/devices.rs) leave of the entry and the flag of a
-- port that is being identified.
use fw16_ledmatrix.Base.{
  ℕ, zero, suc, ◌<◌, ◌≡◌, ◌≢◌, refl, sym, ◌∙◌, ap, arith, Bool, true, false, not, ◌||◌, Option,
  none, some, List, [], ◌∷◌, ◌++◌, Text, text_eq, text_beq_iff, ◌==◌, get_elem?, set, length,
  unwrap_or, keep, All, All-keep, Bool-cases, Option-cases, inl, inr,
}
use fw16_ledmatrix.Client.Messages.{Device}
use fw16_ledmatrix.Daemon.Devices.Route.{plugged}
use fw16_ledmatrix.Daemon.Devices.Registry.{
  Registry, flag, entry, clear, cancel, lasting, identifying, grant, begin,
}

-- What sessions do to the registry. `clears` is the end of an identification, or of its session.
pub data Act : Type 0 where
  begins : Text → Option (List Device) → Act
  cancels : Text → Act
  clears : ℕ → Act

unfoldable pub after : Registry → Act → Registry
after r (begins port present) = (begin r port present).1
after r (cancels port) = cancel r port
after r (clears i) = clear r i

unfoldable pub after_all : Registry → List Act → Registry
after_all r [] = r
after_all r (a ∷ acts) = after_all (after r a) acts

-- An act that does not end the identification of this port: it may be a `begin` of any port.
abbrev pub LeavesUp : Text → ℕ → Act → Type 0
LeavesUp port i (begins q present) = Unit
LeavesUp port i (cancels q) = q ≢ port
LeavesUp port i (clears j) = j ≢ i

-- Every entry has a flag.
abbrev pub HasFlags : Registry → Type 0
HasFlags r = All (λ (e : Text × ℕ). e.1 < length r.flags) r.active

-- The port's entry has the flag, which is up, and no other port's entry has it.
pub record Holds (port : Text) (i : ℕ) (r : Registry) : Type 0 where
  pub up : flag r i ≡ true
  pub entered : entry port r.active ≡ some i
  pub own : All (λ (e : Text × ℕ). e.1 ≡ i → e.0 ≡ port) r.active

get_elem?-append :
    (fs : List Bool) (b : Bool) (i : ℕ)
    → unwrap_or (get_elem? fs i) false ≡ true
    → unwrap_or (get_elem? (fs ++ b ∷ []) i) false ≡ true
get_elem?-append [] b i h = absurd (cc h)
get_elem?-append (f ∷ fs) b zero h = h
get_elem?-append (f ∷ fs) b (suc i) h = get_elem?-append fs b i h

pub get_elem?-append_last :
    (fs : List Bool) (b : Bool) → get_elem? (fs ++ b ∷ []) (length fs) ≡ some b
get_elem?-append_last [] b = refl
get_elem?-append_last (f ∷ fs) b = get_elem?-append_last fs b

up-below : (fs : List Bool) (i : ℕ) → unwrap_or (get_elem? fs i) false ≡ true → i < length fs
up-below [] i h = absurd (cc h)
up-below (f ∷ fs) zero h = omega arith
up-below (f ∷ fs) (suc i) h = omega (arith, up-below fs i h)

pub set_lowers : (fs : List Bool) (i : ℕ) → unwrap_or (get_elem? (set fs i false) i) false ≡ false
set_lowers [] i = refl
set_lowers (f ∷ fs) zero = refl
set_lowers (f ∷ fs) (suc i) = set_lowers fs i

set_keeps :
    (fs : List Bool) (i j : ℕ)
    → j ≢ i
    → unwrap_or (get_elem? (set fs j false) i) false ≡ unwrap_or (get_elem? fs i) false
set_keeps [] i j n = refl
set_keeps (f ∷ fs) zero zero n = absurd (n refl)
set_keeps (f ∷ fs) zero (suc j) n = refl
set_keeps (f ∷ fs) (suc i) zero n = refl
set_keeps (f ∷ fs) (suc i) (suc j) n = set_keeps fs i j (λ e. n (ap suc e))

entry-keep :
    (p : Text × ℕ → Bool) (port : Text) (i : ℕ) (l : List (Text × ℕ))
    → entry port l ≡ some i
    → p (port, i) ≡ true
    → entry port (keep p l) ≡ some i
unfolding entry
entry-keep p port i [] e h = e
entry-keep p port i ((name, j) ∷ l) e h = elim (Bool-cases (name == port)) [
  | inl same ↦
      let n : name ≡ port = (text_beq_iff name port).0 same in
      let k : j ≡ i = ground (arith, same, e) in
      let kept : p (name, j) ≡ true = ap (λ x. p (x, j)) n ∙ ap (λ x. p (port, x)) k ∙ h in
      rw (kept, same) (ap some k)
  | inr other ↦
      let rest = entry-keep p port i l (ground (arith, other, e)) h in
      elim (Bool-cases (p (name, j))) [
        | inl kept ↦ rw (kept, other) rest
        | inr dropped ↦ rw dropped rest
      ]
]

entry-own :
    (port q : Text) (i j : ℕ) (l : List (Text × ℕ))
    → All (λ (e : Text × ℕ). e.1 ≡ i → e.0 ≡ port) l
    → entry q l ≡ some j
    → j ≡ i
    → q ≡ port
unfolding entry
entry-own port q i j [] h e s = absurd (cc e)
entry-own port q i j ((name, k) ∷ l) h e s = elim (Bool-cases (name == q)) [
  | inl same ↦
      let k' : k ≡ j = ground (arith, same, e) in sym ((text_beq_iff name q).0 same) ∙ h.0 (k' ∙ s)
  | inr other ↦ entry-own port q i j l h.1 (ground (arith, other, e)) s
]

pub lasting-entry :
    (port : Text) (i : ℕ) (r : Registry) (devices : List Device)
    → entry port r.active ≡ some i
    → (flag r i || plugged devices port) ≡ true
    → entry port (lasting r devices) ≡ some i
unfolding lasting
lasting-entry port i r devices e h =
    entry-keep (λ (x : Text × ℕ). flag r x.1 || plugged devices x.0) port i r.active e h

up_lasts : (b c : Bool) → b ≡ true → (b || c) ≡ true
up_lasts b c h = ground (arith, h)

pub plugged_lasts : (b c : Bool) → c ≡ true → (b || c) ≡ true
plugged_lasts b c h = ground (arith, h)

pub Holds-identifying :
    (port : Text) (i : ℕ) (r : Registry) (devices : List Device)
    → Holds port i r
    → identifying r (lasting r devices) port ≡ true
unfolding identifying
Holds-identifying port i r devices h =
    rw (lasting-entry port i r devices h.entered (up_lasts _ _ h.up)) h.up

lasting-Holds :
    (port : Text) (i : ℕ) (r : Registry) (devices : List Device)
    → Holds port i r
    → Holds port i (record r { active = lasting r devices })
unfolding lasting flag
lasting-Holds port i r devices h = record {
  up = h.up;
  entered = lasting-entry port i r devices h.entered (up_lasts _ _ h.up);
  own = All-keep _ _ r.active h.own;
}

grant-Holds :
    (port q : Text) (i : ℕ) (r : Registry) (devices : List Device)
    → q ≢ port
    → Holds port i r
    → Holds port i (grant r (lasting r devices) q).1
unfolding grant entry flag
grant-Holds port q i r devices n h =
    let l = lasting-Holds port i r devices h in
    record {
      up = get_elem?-append r.flags true i h.up;
      entered = ground (
        arith,
        n,
        text_beq_iff q port,
        entry-keep (λ (e : Text × ℕ). not (e.0 == q)) port i (lasting r devices) l.entered
            (ground (arith, n, text_beq_iff port q)),
      );
      own = (
        λ e. absurd (omega (arith, e, up-below r.flags i h.up)),
        All-keep _ (λ (e : Text × ℕ). not (e.0 == q)) (lasting r devices) l.own,
      );
    }

begin-Holds :
    (port q : Text) (i : ℕ) (r : Registry) (present : Option (List Device))
    → Holds port i r
    → Holds port i (begin r q present).1
unfolding begin
begin-Holds port q i r none h = h
begin-Holds port q i r (some devices) h = elim (Bool-cases (plugged devices q)) [
  | inr e ↦ rw e h
  | inl e ↦ elim (Bool-cases (identifying r (lasting r devices) q)) [
    | inl t ↦ rw (e, t) (lasting-Holds port i r devices h)
    | inr t ↦
        let other : q ≢ port = λ same.
          cc (
            t,
            Holds-identifying port i r devices h,
            ap (identifying r (lasting r devices)) same,
          ) in
        rw (e, t) (grant-Holds port q i r devices other h)
  ]
]

clear-Holds :
    (port : Text) (i j : ℕ) (r : Registry) → j ≢ i → Holds port i r → Holds port i (clear r j)
unfolding clear flag
clear-Holds port i j r n h = record {
  up = set_keeps r.flags i j n ∙ h.up;
  entered = h.entered;
  own = h.own;
}

after-Holds :
    (port : Text) (i : ℕ) (r : Registry) (a : Act)
    → LeavesUp port i a
    → Holds port i r
    → Holds port i (after r a)
unfolding after cancel
after-Holds port i r (begins q present) n h = begin-Holds port q i r present h
after-Holds port i r (clears j) n h = clear-Holds port i j r n h
after-Holds port i r (cancels q) n h = elim (Option-cases (entry q r.active)) [
  | inl e ↦ rw (e, after, cancel) h
  | inr (j, e) ↦
      rw (e, after, cancel)
        (clear-Holds port i j r (λ s. n (entry-own port q i j r.active h.own e s)) h)
]

pub after_all-Holds :
    (port : Text) (i : ℕ) (r : Registry) (acts : List Act)
    → All (LeavesUp port i) acts
    → Holds port i r
    → Holds port i (after_all r acts)
unfolding after_all
after_all-Holds port i r [] n h = h
after_all-Holds port i r (a ∷ acts) n h =
    after_all-Holds port i (after r a) acts n.1 (after-Holds port i r a n.0 h)
