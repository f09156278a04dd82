-- ===== src/Daemon/Session/Answers.antt =====
-- The desktop's commands (apps/desktop/src-tauri/src/main.rs), the client's conversation
-- (crates/matrix-client/src/lib.rs) and the daemon's session (crates/matrix-daemon/src/lib.rs) together.
use fw16_ledmatrix.Base.{
  suc, ◌≡◌, refl, arith, Bool, true, List, [], ◌∷◌, Text, length, All, Returns, Returns-bind,
  is_empty, Bool-cases, inl, inr, ap,
}
use fw16_ledmatrix.Core.Frame.{is_valid}
use fw16_ledmatrix.Core.Brightness.{Brightness}
use fw16_ledmatrix.Core.Config.{Config, validate}
use fw16_ledmatrix.Core.Layout.{PanelLayout}
use fw16_ledmatrix.Core.Layout.Float.{Float}
use fw16_ledmatrix.Core.Layout.Render.{Readings, render_configured}
use fw16_ledmatrix.Core.Layout.Render.Slots.{HasBytes}
use fw16_ledmatrix.Client.Failure.{invalid_message}
use fw16_ledmatrix.Client.Messages.{Request, Event, DeviceReply, rendered_event, protocol_version}
use fw16_ledmatrix.Client.Wire.{Json}
use fw16_ledmatrix.Client.Conversation.{event_result, ◌then_try◌}
use fw16_ledmatrix.Daemon.Store.Files.{Files}
use fw16_ledmatrix.Daemon.Clock.Accepted.{configured-is_valid}
use fw16_ledmatrix.Daemon.Session.{
  Shared, Surroundings, Answer, reply, respond, said, draft_frames, draft_readings, render_answer,
  error_reply, greet,
}
use fw16_ledmatrix.Desktop.Commands.{
  Local, asks, hardware_preview, devices, render_draft, configuration, probe, preview_of,
  devices_of, is_preview_request, is_device_request, is_config_request, configuration_of, report_of,
  frames_of,
}
use fw16_ledmatrix.Daemon.Session.Served.{
  Fits, IsCommand, Served, Replies, Replies-Served, preview-Replies, identify-Replies,
}

module _ (F : Type 0) ⦃fl : Float F⦄ where
  -- The intensities of a draft are bytes, as their type says.
  abbrev pub HasDraftBytes : Surroundings → Request → Type 0
  HasDraftBytes e (Request.render_draft config shows_sample) =
      All (λ (p : PanelLayout). All (HasBytes (draft_readings F e config shows_sample)) p.slots)
        config.panels
  HasDraftBytes e _ = Unit

module _ {F : Type 0} ⦃fl : Float F⦄ where
  draft_frames-valid :
      (ps : List PanelLayout) (r : Readings F) (global : Brightness)
      → All (λ (p : PanelLayout). All (HasBytes r) p.slots) ps
      → Returns
          (λ fs. (length fs ≡ length ps) × All (λ f. is_valid f ≡ true) fs)
          (draft_frames ps r global)
  unfolding draft_frames
  draft_frames-valid [] r global h = ([], refl, (refl, tt))
  draft_frames-valid (p ∷ ps) r global h =
      Returns-bind (render_configured p r global) _ (configured-is_valid p r global h.0) (λ f v.
        Returns-bind (draft_frames ps r global) _ (draft_frames-valid ps r global h.1)
          (λ fs k. (_, refl, (ap suc k.0, (v, k.1)))))

render_draft-read :
    (l : Local) (event : Event) (config : Config) (shows_sample : Bool)
    → asks l (Request.render_draft config shows_sample) ≡ event_result event
    → render_draft l config shows_sample ≡ (event_result event then_try frames_of)
unfolding render_draft
render_draft-read l event config shows_sample q = ap (λ x. x then_try frames_of) q

is_empty-nil : {A : Type 0} (xs : List A) → is_empty xs ≡ true → xs ≡ []
is_empty-nil [] e = refl
is_empty-nil (x ∷ xs) e = absurd (cc e)

module _ (F : Type 0) ⦃fl : Float F⦄ where
  draft-Replies :
      (listing : DeviceReply) (identified : Bool) (e : Surroundings) (config : Config)
      (shows_sample : Bool)
      → HasDraftBytes F e (Request.render_draft config shows_sample)
      → Returns
          (Replies listing identified (Request.render_draft config shows_sample))
          (render_answer F e config shows_sample)
  unfolding render_answer said event_result frames_of error_reply
  draft-Replies listing identified e config shows_sample h =
      elim (Bool-cases (is_empty (validate config))) [
        | inl t ↦
            let (fs, q, k) =
              draft_frames-valid config.panels (draft_readings F e config shows_sample)
                config.brightness h in
            (
              reply (rendered_event fs shows_sample),
              ground (arith, t, q),
              (
                rendered_event fs shows_sample,
                refl,
                λ l q. (
                  (λ _. (
                    fs,
                    render_draft-read l (rendered_event fs shows_sample) config shows_sample q,
                    k.0,
                    k.1,
                  )),
                  λ n. absurd (n (is_empty-nil _ t)),
                ),
              ),
            )
        | inr t ↦ (
          reply (error_reply invalid_message),
          ground (arith, t),
          (
            error_reply invalid_message,
            refl,
            λ l q. (
              (λ z. absurd (ground (arith, z, t))),
              λ _. render_draft-read l (error_reply invalid_message) config shows_sample q,
            ),
          ),
        )
      ]

  module _ {W : Type 0} (fs : Files W) where
    respond-Replies :
        (listing : DeviceReply) (identified : Bool) (r : Request) (e : Surroundings) (sh : Shared W)
        → IsCommand r
        → HasDraftBytes F e r
        → Returns
            (λ (x : Answer × Shared W). Replies listing identified r x.0)
            (respond F fs r e sh)
    unfolding respond said event_result hardware_preview preview_of is_preview_request devices
        devices_of is_device_request configuration configuration_of is_config_request probe
        report_of
    respond-Replies li b Request.probe e sh c h =
        (_, refl, (_, refl, λ l q. (_, ap (λ x. x then_try report_of) q)))
    respond-Replies li b (Request.cancel_preview owner) e sh c h =
        (_, refl, (_, refl, λ l q. (_, ap (λ x. x then_try preview_of) q)))
    respond-Replies li b (Request.begin_preview owner config seconds) e sh c h =
        (_, refl, preview-Replies li b owner owner config seconds _)
    respond-Replies li b Request.devices e sh c h =
        (_, refl, (_, refl, λ l q. (_, ap (λ x. x then_try devices_of) q)))
    respond-Replies li b (Request.cancel_identify port) e sh c h =
        (_, refl, (_, refl, λ l q. (_, ap (λ x. x then_try devices_of) q)))
    respond-Replies li b (Request.identify port) e sh c h =
        (_, refl, identify-Replies li e.listing b port _)
    respond-Replies li b Request.read_config e sh c h =
        (_, refl, (_, refl, λ l q. (_, ap (λ x. x then_try configuration_of) q)))
    respond-Replies li b (Request.validate_config config) e sh c h =
        (_, refl, (_, refl, λ l q. (_, ap (λ x. x then_try configuration_of) q)))
    respond-Replies li b (Request.apply_config expected config) e sh c h =
        (_, refl, (_, refl, λ l q. (_, ap (λ x. x then_try configuration_of) q)))
    respond-Replies li b (Request.render_draft config shows_sample) e sh c h =
        let (a, q, k) = draft-Replies li b e config shows_sample h in ((a, sh), rw q refl, k)
    respond-Replies li b Request.subscribe e sh c h = absurd c
    respond-Replies li b (Request.hello version) e sh c h = absurd c

    -- Each request that a command of the desktop sends is answered: the daemon's session does not panic,
    -- it comes to one event, and the client accepts the greeting before it. Where `write_message` takes the
    -- event, the command reads it back and returns a reply of the kind that it asked for: a valid draft
    -- comes back as one valid frame for each of its panels, an invalid one as the failure
    -- `invalid_message`. `write_message` refuses only an event that has no JSON text within its limit;
    -- then the session is over and the request fails as disconnected. The greeting is within that limit,
    -- the endpoint answers and no time-out runs out; a draft's intensities are bytes.
    pub respond-Served :
        (json : Json Event) (v : Text) (listing : DeviceReply) (identified : Bool) (r : Request)
        (e : Surroundings) (sh : Shared W)
        → Fits json (greet v (Request.hello protocol_version)).1
        → IsCommand r
        → HasDraftBytes F e r
        → Returns
            (λ (x : Answer × Shared W). Served json v listing identified r x.0)
            (respond F fs r e sh)
    respond-Served json v listing identified r e sh fits c h =
        let (x, q, k) = respond-Replies listing identified r e sh c h in
        (x, q, Replies-Served json v listing identified r x.0 fits k)
