-- ===== src/Daemon/Session/Requests.antt =====
-- What each request to `configured_session` of crates/matrix-daemon/src/lib.rs makes of the preview
-- and of the store.
use fw16_ledmatrix.Base.{
  ℕ, ◌≡◌, ◌⊎◌, inl, ap, subst, arith, Option, none, some, Text, option_map, unwrap_or,
}
use fw16_ledmatrix.Core.Config.{Config}
use fw16_ledmatrix.Core.Layout.Float.{Float}
use fw16_ledmatrix.Client.Messages.{Request}
use fw16_ledmatrix.Daemon.Store.{Store, Lease, output_at, begin_preview, cancel_preview, apply}
use fw16_ledmatrix.Daemon.Store.Files.{Files}
use fw16_ledmatrix.Daemon.Store.History.{IsStore, begins-IsStore, cancels-IsStore, applies-IsStore}
use fw16_ledmatrix.Daemon.Session.{
  Shared, Answer, Surroundings, previewing, respond, preview_answer, render_answer,
}
use fw16_ledmatrix.Daemon.Session.Steps.{phase_after}

-- What a request makes of the preview: it leaves it, drops it, or begins one that its session holds.
abbrev pub Keeps : Store → Answer → Store → Type 0
Keeps s a t =
    (l : Lease)
    → t.preview ≡ some l
    → (s.preview ≡ some l) ⊎ (phase_after a ≡ previewing l.owner l.generation)

begin_preview-Keeps :
    (s : Store) (owner : Text) (config : Config) (seconds now : ℕ)
    → let r = begin_preview s owner config seconds now in Keeps s (preview_answer owner r.0) r.1
unfolding begin_preview preview_answer phase_after
begin_preview-Keeps s owner config seconds now l h = ground arith

cancel_preview-Keeps :
    (s : Store) (owner : Text) (generation : Option ℕ) (a : Answer)
    → Keeps s a (cancel_preview s owner generation).1
unfolding cancel_preview
cancel_preview-Keeps s owner generation a l h = ground arith

pub output_at-Keeps : (s : Store) (now : ℕ) (a : Answer) → Keeps s a (output_at s now).1
unfolding output_at
output_at-Keeps s now a l h = ground arith

module _ {W : Type 0} (fs : Files W) where
  apply-Keeps :
      (s : Store) (expected : ℕ) (config : Config) (w : W) (a : Answer)
      → Keeps s a (apply fs s expected config w).1
  unfolding apply
  apply-Keeps s expected config w a l h = ground arith

  abbrev pub Fine : Shared W → Answer → Shared W → Type 0
  Fine sh a sh' = Keeps sh.store a sh'.store × IsStore sh'.store

  unchanged : (sh : Shared W) (a : Answer) → IsStore sh.store → Fine sh a sh
  unchanged sh a v = ((λ l h. inl h), v)

  Fine-some :
      (sh sh0 sh' : Shared W) (a0 a : Answer)
      → ◌≡◌ {A = Option (Answer × Shared W)} (some (a0, sh0)) (some (a, sh'))
      → Fine sh a0 sh0
      → Fine sh a sh'
  Fine-some sh sh0 sh' a0 a h f =
      subst (λ (r : Answer × Shared W). Fine sh r.0 r.1) (ap (λ o. unwrap_or o (a0, sh0)) h) f

  module _ (F : Type 0) ⦃fl : Float F⦄ where
    rendered-Fine :
        (o : Option Answer) (sh sh' : Shared W) (a : Answer)
        → option_map {B = Answer × Shared W} (λ (b : Answer). (b, sh)) o ≡ some (a, sh')
        → IsStore sh.store
        → Fine sh a sh'
    rendered-Fine none sh sh' a h v = absurd (ground arith)
    rendered-Fine (some b) sh sh' a h v = Fine-some sh sh sh' b a h (unchanged sh b v)

    pub respond-Fine :
        (r : Request) (e : Surroundings) (sh sh' : Shared W) (a : Answer)
        → respond F fs r e sh ≡ some (a, sh')
        → IsStore sh.store
        → Fine sh a sh'
    unfolding respond
    respond-Fine Request.probe e sh sh' a h v = Fine-some sh sh sh' _ a h (unchanged sh _ v)
    respond-Fine (Request.cancel_preview owner) e sh sh' a h v =
        Fine-some sh _ sh' _ a h
          (cancel_preview-Keeps sh.store owner none _, cancels-IsStore fs sh.store owner none v)
    respond-Fine (Request.begin_preview owner config seconds) e sh sh' a h v =
        Fine-some sh _ sh' _ a h (
          begin_preview-Keeps sh.store owner config seconds e.now,
          begins-IsStore fs sh.store owner config seconds e.now v,
        )
    respond-Fine Request.devices e sh sh' a h v = Fine-some sh sh sh' _ a h (unchanged sh _ v)
    respond-Fine (Request.cancel_identify port) e sh sh' a h v =
        Fine-some sh _ sh' _ a h ((λ l q. inl q), v)
    respond-Fine (Request.identify port) e sh sh' a h v =
        Fine-some sh _ sh' _ a h ((λ l q. inl q), v)
    respond-Fine Request.read_config e sh sh' a h v = Fine-some sh sh sh' _ a h (unchanged sh _ v)
    respond-Fine (Request.validate_config config) e sh sh' a h v =
        Fine-some sh sh sh' _ a h (unchanged sh _ v)
    respond-Fine (Request.apply_config expected config) e sh sh' a h v = Fine-some sh _ sh' _ a h (
      apply-Keeps sh.store expected config sh.disk _,
      applies-IsStore fs sh.store expected config sh.disk v,
    )
    respond-Fine (Request.render_draft config shows_sample) e sh sh' a h v =
        rendered-Fine (render_answer F e config shows_sample) sh sh' a h v
    respond-Fine Request.subscribe e sh sh' a h v = Fine-some sh sh sh' _ a h (unchanged sh _ v)
    respond-Fine (Request.hello version) e sh sh' a h v =
        Fine-some sh sh sh' _ a h (unchanged sh _ v)
