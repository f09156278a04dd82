-- ===== src/Daemon/Session/Safety.antt =====
-- What holds of the daemon of crates/matrix-daemon/src/lib.rs in whatever order its tasks run.
use fw16_ledmatrix.Base.{
  ℕ, ◌≤◌, ◌≡◌, ◌≢◌, ◌⊎◌, inl, inr, refl, sym, subst, arith, Bool, Option, none, some, List, [],
  Text, text_beq_iff, nat_beq_iff, get_elem?, set, In, Option-cases,
}
use fw16_ledmatrix.Core.Layout.Float.{Float}
use fw16_ledmatrix.Client.Messages.{Request}
use fw16_ledmatrix.Daemon.Store.{Store, Lease, output_at, cancel_preview}
use fw16_ledmatrix.Daemon.Store.Files.{Files}
use fw16_ledmatrix.Daemon.Store.History.{IsStore, outputs-IsStore, cancels-IsStore}
use fw16_ledmatrix.Daemon.Session.{
  Shared, Phase, Answer, Surroundings, greeting, waiting, previewing, identifying, streaming,
  closed, hang_up, respond, greet, max_clients,
}
use fw16_ledmatrix.Daemon.Session.Steps.{
  System, count_open, phase_after, greeted, dropped, Step, accept, hear, ask, leave, show, Reach,
  here, later,
}
use fw16_ledmatrix.Daemon.Session.Slots.{In-set, In-set_self, count_open-set, set-few}
use fw16_ledmatrix.Daemon.Session.Requests.{output_at-Keeps, respond-Fine}

-- A preview in the store is that of a session which still holds it.
abbrev pub Held : Option Lease → List Phase → Type 0
Held preview ps = (l : Lease) → preview ≡ some l → In (previewing l.owner l.generation) ps

pub record IsSystem {W : Type 0} (s : System W) : Type 0 where
  pub held : Held s.shared.store.preview s.sessions
  pub well_formed : IsStore s.shared.store
  pub few : count_open s.sessions ≤ max_clients

cancel_preview-stays :
    (s : Store) (owner : Text) (generation : ℕ) (l : Lease)
    → (cancel_preview s owner (some generation)).1.preview ≡ some l
    → (s.preview ≡ some l) × (owner ≡ l.owner → generation ≢ l.generation)
unfolding cancel_preview
cancel_preview-stays s owner generation l h = (
  ground arith,
  λ o g. ground (arith, text_beq_iff l.owner owner, nat_beq_iff generation l.generation),
)

-- Dropping a session's guard leaves no preview of that session behind.
dropped-Held :
    {W : Type 0} (p : Phase) (sh : Shared W) (l : Lease)
    → (dropped p sh).store.preview ≡ some l
    → (sh.store.preview ≡ some l) × (p ≢ previewing l.owner l.generation)
unfolding dropped
dropped-Held (previewing owner generation) sh l h =
    let k = cancel_preview-stays sh.store owner generation l h in (k.0, λ e. k.1 (cc e) (cc e))
dropped-Held greeting sh l h = (h, λ e. cc)
dropped-Held waiting sh l h = (h, λ e. cc)
dropped-Held (identifying flag) sh l h = (h, λ e. cc)
dropped-Held streaming sh l h = (h, λ e. cc)
dropped-Held closed sh l h = (h, λ e. cc)

dropped-IsStore :
    {W : Type 0} (fs : Files W) (p : Phase) (sh : Shared W)
    → IsStore sh.store
    → IsStore (dropped p sh).store
unfolding dropped
dropped-IsStore fs (previewing owner generation) sh v =
    cancels-IsStore fs sh.store owner (some generation) v
dropped-IsStore fs greeting sh v = v
dropped-IsStore fs waiting sh v = v
dropped-IsStore fs (identifying flag) sh v = v
dropped-IsStore fs streaming sh v = v
dropped-IsStore fs closed sh v = v

kept :
    {o : Option Lease} (l : Lease)
    → (o ≡ some l) ⊎ (phase_after hang_up ≡ previewing l.owner l.generation)
    → o ≡ some l
unfolding phase_after
kept l (inl q) = q
kept l (inr q) = absurd (cc q)

module _ {W : Type 0} (fs : Files W) (F : Type 0) ⦃fl : Float F⦄ (version : Text) where
  ask-IsSystem :
      (s : System W) (i : ℕ) (r : Request) (e : Surroundings) (a : Answer) (shared : Shared W)
      → get_elem? s.sessions i ≡ some waiting
      → respond F fs r e s.shared ≡ some (a, shared)
      → IsSystem s
      → IsSystem (record { shared = shared; sessions = set s.sessions i (phase_after a) })
  ask-IsSystem s i r e a shared g h v =
      let f = respond-Fine fs F r e s.shared shared a h v.well_formed in
      record {
        held = λ l q. still (f.0 l q);
        well_formed = f.1;
        few = set-few s.sessions i waiting (phase_after a) g refl v.few;
      }
    where
      still :
          {l : Lease}
          → (s.shared.store.preview ≡ some l) ⊎ (phase_after a ≡ previewing l.owner l.generation)
          → In (previewing l.owner l.generation) (set s.sessions i (phase_after a))
      still (inl q) = In-set s.sessions i waiting (phase_after a) _ g (v.held _ q) (λ e. cc e)
      still (inr q) =
          subst (λ (x : Phase). In x (set s.sessions i (phase_after a))) q
            (In-set_self s.sessions i waiting (phase_after a) g)

  leave-IsSystem :
      (s : System W) (i : ℕ) (p : Phase)
      → get_elem? s.sessions i ≡ some p
      → IsSystem s
      → IsSystem (record { shared = dropped p s.shared; sessions = set s.sessions i closed })
  leave-IsSystem s i p g v = record {
    held = λ l q.
        let k = dropped-Held p s.shared l q in In-set s.sessions i p closed _ g (v.held l k.0) k.1;
    well_formed = dropped-IsStore fs p s.shared v.well_formed;
    few = omega (arith, v.few, count_open-set s.sessions i p closed g);
  }

  hear-IsSystem :
      (s : System W) (i : ℕ) (b : Bool)
      → get_elem? s.sessions i ≡ some greeting
      → IsSystem s
      → IsSystem (record s { sessions = set s.sessions i (greeted b) })
  hear-IsSystem s i b g v = record {
    held = λ l q. In-set s.sessions i greeting (greeted b) _ g (v.held l q) (λ e. cc e);
    well_formed = v.well_formed;
    few = set-few s.sessions i greeting (greeted b) g refl v.few;
  }

  show-IsSystem :
      (s : System W) (now : ℕ)
      → IsSystem s
      → IsSystem
          (record s { shared = record s.shared { store = (output_at s.shared.store now).1 } })
  show-IsSystem s now v = record {
    held = λ l q. v.held l (kept l (output_at-Keeps s.shared.store now hang_up l q));
    well_formed = outputs-IsStore fs s.shared.store now v.well_formed;
    few = v.few;
  }

  Step-IsSystem : {s t : System W} → Step F fs version s t → IsSystem s → IsSystem t
  Step-IsSystem {s} (accept few e) v = subst IsSystem (sym e) (record {
    held = λ l q. inr (v.held l q);
    well_formed = v.well_formed;
    few = omega (arith, few);
  })
  Step-IsSystem {s} (hear i r g e) v =
      subst IsSystem (sym e) (hear-IsSystem s i (greet version r).0 g v)
  Step-IsSystem {s} (ask i r e a shared g h q) v =
      subst IsSystem (sym q) (ask-IsSystem s i r e a shared g h v)
  Step-IsSystem {s} (leave i p g e) v = subst IsSystem (sym e) (leave-IsSystem s i p g v)
  Step-IsSystem {s} (show now e) v = subst IsSystem (sym e) (show-IsSystem s now v)

  Reach-IsSystem : {s t : System W} → Reach F fs version s t → IsSystem s → IsSystem t
  Reach-IsSystem here v = v
  Reach-IsSystem (later r st) v = Step-IsSystem st (Reach-IsSystem r v)

saved_shown :
    (s : Store) (now : ℕ)
    → ((l : Lease) → s.preview ≢ some l)
    → (output_at s now).0 ≡ s.saved.config
unfolding output_at
saved_shown s now h = elim (Option-cases s.preview) [
  | inl e ↦ ground (arith, e)
  | inr (l, e) ↦ absurd (h l e)
]

-- A daemon starts with a well-formed store that has no preview. Whatever the clients send, in whatever
-- order the sessions, the render loop and the route loop run, and at whatever point a session ends:
-- the store stays well formed; at most 32 sessions have not ended; a preview in the store is one that
-- a session still holds, under the same owner and generation; so without such a session the
-- configuration that is shown is the saved one.
pub reached-system :
    {W F : Type 0} ⦃fl : Float F⦄ (fs : Files W) (version : Text) (start : Shared W) (t : System W)
    → IsStore start.store
    → start.store.preview ≡ none
    → Reach F fs version (record { shared = start; sessions = [] }) t
    → IsStore t.shared.store
      × (count_open t.sessions ≤ max_clients)
      × Held t.shared.store.preview t.sessions
      × (((owner : Text) (generation : ℕ) → ¬ In (previewing owner generation) t.sessions)
          → (now : ℕ) → (output_at t.shared.store now).0 ≡ t.shared.store.saved.config)
reached-system {W} {F} fs version start t v n r =
    let s =
      Reach-IsSystem fs F version r
        (record { held = λ l q. absurd (cc (n, q)); well_formed = v; few = omega arith }) in
    (
      s.well_formed,
      s.few,
      s.held,
      λ none_held now. saved_shown t.shared.store now (λ l q. none_held _ _ (s.held l q)),
    )
