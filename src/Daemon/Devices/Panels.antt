-- ===== src/Daemon/Devices/Panels.antt =====
-- crates/matrix-daemon/src/devices.rs: `panel`, which finds or registers the panel of a port. The map is
-- a list in the order of the names; `in_use` says which panels somebody else holds.
use fw16_ledmatrix.Base.{
  ℕ, suc, ◌≤◌, ◌≡◌, ◌⊎◌, inl, inr, refl, arith, Bool, true, false, ◌||◌, List, [], ◌∷◌, Text,
  text_eq, text_beq_iff, text_compare, ◌==◌, if◌then◌else◌, leb, length, any, keep, In,
  length-keep-le, Bool-cases,
}
use Prim.Native.Nat.{Ordering}
use fw16_ledmatrix.Client.Messages.{Device}
use fw16_ledmatrix.Daemon.Feeds.{insert_sorted}
use fw16_ledmatrix.Daemon.Devices.Panel.{new_panel}
use fw16_ledmatrix.Daemon.Devices.Route.{Handle, plugged}

module _ {P : Type 0} where
  unfoldable pub name_before : Handle P → Handle P → Bool
  name_before a b = elim (text_compare a.name b.name) [ Ordering.gt ↦ false | _ ↦ true ]

  unfoldable pub registered : Text → List (Handle P) → Bool
  registered port hs = any (λ (h : Handle P). h.name == port) hs

  -- `panels.retain(..)`: what is plugged in or in use.
  unfoldable pub retained : List Device → (Text → Bool) → List (Handle P) → List (Handle P)
  retained devices in_use hs = keep (λ (h : Handle P). plugged devices h.name || in_use h.name) hs

  -- Whether the port has a panel then, and the map.
  unfoldable pub find_panel : Text → ℕ → List (Handle P) → Bool × List (Handle P)
  find_panel port now hs =
      if registered port hs then (true, hs) else if leb 2 (length hs) then (false, hs) else (
        true,
        insert_sorted name_before (record { name = port; panel = new_panel now; locked = false })
            hs,
      )

  unfoldable pub panel :
      List Device → (Text → Bool) → Text → ℕ → List (Handle P) → Bool × List (Handle P)
  panel devices in_use port now hs = find_panel port now (retained devices in_use hs)

  length-insert_sorted :
      (before : Handle P → Handle P → Bool) (h : Handle P) (hs : List (Handle P))
      → length (insert_sorted before h hs) ≡ suc (length hs)
  unfolding insert_sorted
  length-insert_sorted before h [] = refl
  length-insert_sorted before h (x ∷ hs) = ground (arith, length-insert_sorted before h hs)

  In-insert_sorted :
      (before : Handle P → Handle P → Bool) (h x : Handle P) (hs : List (Handle P))
      → (x ≡ h) ⊎ In x hs
      → In x (insert_sorted before h hs)
  unfolding insert_sorted
  In-insert_sorted before h x [] m = m
  In-insert_sorted before h x (y ∷ hs) m = ground (arith, m, In-insert_sorted before h x hs)

  registered-In : (h : Handle P) (hs : List (Handle P)) → In h hs → registered h.name hs ≡ true
  unfolding registered
  registered-In h [] m = absurd m
  registered-In h (x ∷ hs) m = ground (arith, m, registered-In h hs, text_beq_iff x.name h.name)

  In-retained :
      (devices : List Device) (in_use : Text → Bool) (h : Handle P) (hs : List (Handle P))
      → In h hs
      → in_use h.name ≡ true
      → In h (retained devices in_use hs)
  unfolding retained
  In-retained devices in_use h [] m u = m
  In-retained devices in_use h (x ∷ hs) m u = ground (arith, m, u, In-retained devices in_use h hs)

  retained-le :
      (devices : List Device) (in_use : Text → Bool) (hs : List (Handle P))
      → length hs ≤ 2
      → length (retained devices in_use hs) ≤ 2
  unfolding retained
  retained-le devices in_use hs l =
      omega (arith, length-keep-le (λ (h : Handle P). plugged devices h.name || in_use h.name) hs)

  find_panel-bounded :
      (port : Text) (now : ℕ) (hs : List (Handle P))
      → length hs ≤ 2
      → let r = find_panel port now hs in
        (length r.1 ≤ 2)
        × (r.0 ≡ true → registered port r.1 ≡ true)
        × ((h : Handle P) → In h hs → In h r.1)
  unfolding find_panel
  find_panel-bounded port now hs l = elim (Bool-cases (registered port hs)) [
    | inl e ↦ rw e (l, (λ _. e), λ h i. i)
    | inr e ↦ elim (Bool-cases (leb 2 (length hs))) [
      | inl t ↦ rw (e, t) (l, (λ f. absurd (ground (arith, f))), λ h i. i)
      | inr t ↦
          let n : Handle P = record { name = port; panel = new_panel now; locked = false } in
          rw (e, t)
            (
              ground (arith, length-insert_sorted name_before n hs),
              (λ _.
                  registered-In n (insert_sorted name_before n hs)
                    (In-insert_sorted name_before n n hs (inl refl))),
              λ h i. In-insert_sorted name_before n h hs (inr i),
            )
    ]
  ]

  -- At most two panels are ever registered. A call that succeeds leaves its port registered, and no call
  -- forgets a panel that somebody uses.
  pub panel-bounded :
      (devices : List Device) (in_use : Text → Bool) (port : Text) (now : ℕ) (hs : List (Handle P))
      → length hs ≤ 2
      → let r = panel devices in_use port now hs in
        (length r.1 ≤ 2)
        × (r.0 ≡ true → registered port r.1 ≡ true)
        × ((h : Handle P) → In h hs → in_use h.name ≡ true → In h r.1)
  unfolding panel
  panel-bounded devices in_use port now hs l =
      let f =
        find_panel-bounded port now (retained devices in_use hs)
          (retained-le devices in_use hs l) in
      (f.0, f.1, λ h i u. f.2 h (In-retained devices in_use h hs i u))
