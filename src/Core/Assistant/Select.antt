-- ===== src/Core/Assistant/Select.antt =====
-- `selected` of crates/matrix-core/src/assistant.rs: the session that a widget shows.
use fw16_ledmatrix.Base.{
  ℕ, ◌≤◌, ◌≡◌, ◌↔◌, ◌⊎◌, inl, inr, refl, ap, arith, Bool, true, Option, none, some, List, [], ◌∷◌,
  Text, All, In, In-keep, map, option_map, text_compare, ◌∙◌, keep, text_beq_iff, Bool-cases,
  text_eq,
}
use Prim.Native.Nat.{Ordering}
use fw16_ledmatrix.Core.Assistant.{
  Session, Provider, provider_beq_iff, max_from, max_session, later, compare_sessions, then_with,
  compare, eligible, selected,
}

-- What a widget with this provider and pin may show.
abbrev pub MayShow : Provider → Option Text → Session → Type 0
MayShow provider none s = s.provider ≡ provider
MayShow provider (some id) s = (s.provider ≡ provider) × (s.session_id ≡ id)

eligible-MayShow :
    (provider : Provider) (pin : Option Text) (s : Session)
    → (eligible provider pin s ≡ true) ↔ MayShow provider pin s
unfolding eligible
eligible-MayShow provider none s = ground (arith, provider_beq_iff s.provider provider)
eligible-MayShow provider (some id) s =
    ground (arith, provider_beq_iff s.provider provider, text_beq_iff s.session_id id)

later_lem :
    (a b : Session)
    → (a.last_activity_ms ≤ (later a b).last_activity_ms)
      × (b.last_activity_ms ≤ (later a b).last_activity_ms)
      × ((later a b ≡ a) ⊎ (later a b ≡ b))
unfolding later
later_lem a b = ground arith

abbrev NoLater : ℕ → List Session → Type 0
NoLater t = All (λ (s : Session). s.last_activity_ms ≤ t)

max_from-max :
    (best : Session) (ss : List Session)
    → (best.last_activity_ms ≤ (max_from best ss).last_activity_ms)
      × NoLater (max_from best ss).last_activity_ms ss
      × ((max_from best ss ≡ best) ⊎ In (max_from best ss) ss)
unfolding max_from
max_from-max best [] = (omega arith, tt, inl refl)
max_from-max best (s ∷ ss) = ground (arith, later_lem best s, max_from-max (later best s) ss)

max_session-max :
    (ss : List Session) (m : Session)
    → max_session ss ≡ some m
    → In m ss × NoLater m.last_activity_ms ss
unfolding max_session
max_session-max [] m e = cc
max_session-max (s ∷ ss) m e = ground (arith, max_from-max s ss)

keep-NoLater :
    (p : Session → Bool) (t : ℕ) (ss : List Session) (s : Session)
    → NoLater t (keep p ss)
    → In s ss
    → p s ≡ true
    → s.last_activity_ms ≤ t
keep-NoLater p t [] s h m e = absurd m
keep-NoLater p t (x ∷ ss) s h (inl same) e = elim (Bool-cases (p x)) [
  | inl kept ↦ let h' = rw kept at h in rw same h'.0
  | inr dropped ↦ cc (e, dropped, ap p same)
]
keep-NoLater p t (x ∷ ss) s h (inr m) e = elim (Bool-cases (p x)) [
  | inl kept ↦ let h' = rw kept at h in keep-NoLater p t ss s h'.1 m e
  | inr dropped ↦ let h' = rw dropped at h in keep-NoLater p t ss s h' m e
]

-- The session that is shown is one of the list, belongs to the widget's provider and pin, and no
-- other that the widget may show was active later.
selected-some :
    (ss : List Session) (provider : Provider) (pin : Option Text) (m : Session)
    → selected ss provider pin ≡ some m
    → In m ss
      × MayShow provider pin m
      × ((s : Session) → In s ss → MayShow provider pin s → s.last_activity_ms ≤ m.last_activity_ms)
unfolding selected
selected-some ss provider pin m e =
    let (at, top) = max_session-max (keep (eligible provider pin) ss) m e in
    let (there, fits) = In-keep (eligible provider pin) ss m at in
    (
      there,
      (eligible-MayShow provider pin m).0 fits,
      λ s ms may.
          keep-NoLater (eligible provider pin) m.last_activity_ms ss s top ms
            ((eligible-MayShow provider pin s).1 may),
    )

keep-nil :
    (p : Session → Bool) (ss : List Session)
    → max_session (keep p ss) ≡ none
    → (s : Session) → In s ss
    → p s ≡ true
    → ⊥
unfolding max_session
keep-nil p [] h s m e = m
keep-nil p (x ∷ ss) h s (inl same) e = elim (Bool-cases (p x)) [
  | inl kept ↦ let h' = rw kept at h in cc h'
  | inr dropped ↦ cc (e, dropped, ap p same)
]
keep-nil p (x ∷ ss) h s (inr m) e = elim (Bool-cases (p x)) [
  | inl kept ↦ let h' = rw kept at h in cc h'
  | inr dropped ↦ let h' = rw dropped at h in keep-nil p ss h' s m e
]

-- Nothing is shown only if the list has no session for the provider and pin: a pin that has expired
-- never falls back to another session.
selected-none :
    (ss : List Session) (provider : Provider) (pin : Option Text)
    → selected ss provider pin ≡ none
    → (s : Session) → In s ss
    → ¬ MayShow provider pin s
unfolding selected
selected-none ss provider pin h s m may =
    keep-nil (eligible provider pin) ss h s m ((eligible-MayShow provider pin s).1 may)

-- What the selection may come to: a session of the list for the provider and pin that no other of
-- them is later than, or nothing where the list has none of them.
abbrev pub Chosen : List Session → Provider → Option Text → Option Session → Type 0
Chosen ss provider pin (some m) =
    In m ss
    × MayShow provider pin m
    × ((s : Session) → In s ss → MayShow provider pin s → s.last_activity_ms ≤ m.last_activity_ms)
Chosen ss provider pin none = (s : Session) → In s ss → ¬ MayShow provider pin s

-- The same session with another heartbeat.
abbrev pub beating : (Session → ℕ) → Session → Session
beating beat s = record s { heartbeat_ms = beat s }

later-beating :
    (beat : Session → ℕ) (a b : Session)
    → later (beating beat a) (beating beat b) ≡ beating beat (later a b)
unfolding later compare_sessions
later-beating beat a b = go (
    then_with (compare a.last_activity_ms b.last_activity_ms) (
      then_with (text_compare a.session_id b.session_id)
        (text_compare a.instance_id b.instance_id)))
  where
    go :
        (o : Ordering)
        → ◌≡◌ {A = Session}
            (elim o [ Ordering.gt ↦ beating beat a | _ ↦ beating beat b ])
            (beating beat (elim o [ Ordering.gt ↦ a | _ ↦ b ]))
    go Ordering.gt = refl
    go Ordering.eq = refl
    go Ordering.lt = refl

max_from-beating :
    (beat : Session → ℕ) (best : Session) (ss : List Session)
    → max_from (beating beat best) (map (beating beat) ss) ≡ beating beat (max_from best ss)
unfolding max_from
max_from-beating beat best [] = refl
max_from-beating beat best (s ∷ ss) =
    ap (λ b. max_from b (map (beating beat) ss)) (later-beating beat best s)
    ∙ max_from-beating beat (later best s) ss

max_session-beating :
    (beat : Session → ℕ) (ss : List Session)
    → max_session (map (beating beat) ss) ≡ option_map (beating beat) (max_session ss)
unfolding max_session
max_session-beating beat [] = refl
max_session-beating beat (s ∷ ss) = ap some (max_from-beating beat s ss)

keep-beating :
    (beat : Session → ℕ) (provider : Provider) (pin : Option Text) (ss : List Session)
    → keep (eligible provider pin) (map (beating beat) ss)
      ≡ map (beating beat) (keep (eligible provider pin) ss)
unfolding eligible
keep-beating beat provider pin [] = refl
keep-beating beat provider pin (s ∷ ss) = elim (Bool-cases (eligible provider pin s)) [
  | inl e ↦ rw e (ap (◌∷◌ (beating beat s)) (keep-beating beat provider pin ss))
  | inr e ↦ rw e (keep-beating beat provider pin ss)
]

-- The session that is shown is one of the list, belongs to the widget's provider and pin, and no
-- other that the widget may show was active later. Nothing is shown only if the list has no session
-- for the provider and pin: a pin that has expired never falls back to another session. A heartbeat
-- plays no part in it: whatever other heartbeats the sessions have, the same one is chosen.
pub selected-Chosen :
    (ss : List Session) (provider : Provider) (pin : Option Text) (beat : Session → ℕ)
    → Chosen ss provider pin (selected ss provider pin)
      × (selected (map (beating beat) ss) provider pin
          ≡ option_map (beating beat) (selected ss provider pin))
unfolding selected
selected-Chosen ss provider pin beat = (
  go (selected ss provider pin) refl,
  ap max_session (keep-beating beat provider pin ss)
      ∙ max_session-beating beat (keep (eligible provider pin) ss),
)
  where
    go : (o : Option Session) → selected ss provider pin ≡ o → Chosen ss provider pin o
    go none e = selected-none ss provider pin e
    go (some m) e = selected-some ss provider pin m e
