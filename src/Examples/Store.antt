-- ===== src/Examples/Store.antt =====
-- The theorems on the daemon's store at concrete inputs, with a disk of two places, for the saved file and
-- for the temporary one: a rename moves the second to the first or, where it does not work, moves nothing.
use fw16_ledmatrix.Base.{
  ℕ, ◌+◌, ◌≡◌, ◌≢◌, refl, sym, subst, ap, inl, inr, Bool-cases, arith, Bool, true, false, not, ◌&&◌,
  Option, none, some, List, [], ◌∷◌, ◌++◌, Text, text_beq, text_beq_iff, nat_beq, is_none, ok,
  unwrap_or, if◌then◌else◌,
}
use fw16_ledmatrix.Core.Brightness.{default_brightness, valid}
use fw16_ledmatrix.Core.Config.{
  Config, SavedConfig, validate, errors_if, count_rejected, panels_errors, panel_errors,
  override_rejected, binding_rejected, name_rejected, slots_rejected, slot_errors,
}
use fw16_ledmatrix.Core.Config.Spec.{IsValidConfig}
use fw16_ledmatrix.Core.Config.Sound.{validate-IsValidConfig}
use fw16_ledmatrix.Core.Layout.{
  PanelLayout, Template, full_gauge, clock_gauge, number_two_gauges, Widget, presentations,
}
use fw16_ledmatrix.Daemon.Store.{
  Store, begin_preview, owns_preview, output_at, cancel_preview, preview_active, persist, load,
  apply,
}
use fw16_ledmatrix.Daemon.Store.Files.{Files, IsFaithful, Content, found, not_found}
use fw16_ledmatrix.Daemon.Store.Preview.{begin_preview-ok, preview_expires, cancel_preview-owner}
use fw16_ledmatrix.Daemon.Store.Apply.{Outcome, apply-Outcome}
use fw16_ledmatrix.Daemon.Store.Durable.{persist-keeps, load-persist}
use fw16_ledmatrix.Daemon.Store.History.{
  Call, begins, cancels, applies, outputs, IsStore, run, run-IsStore,
}

-- One gauge, and no widget in it.
abbrev gauge_panel : PanelLayout
gauge_panel = record {
  name = b'a' ∷ [];
  template = full_gauge;
  slots = none ∷ [];
  binding = none;
  brightness_override = none;
}

abbrev pub gauge_config : Config
gauge_config = record {
  schema_version = 2;
  clock_intensity = 180;
  brightness = default_brightness;
  panels = gauge_panel ∷ [];
}

abbrev seventh : SavedConfig
seventh = record { revision = 7; config = gauge_config }

abbrev is_full : Template → Bool
is_full full_gauge = true
is_full clock_gauge = false
is_full number_two_gauges = false

abbrev one_empty : List (Option Widget) → Bool
one_empty (none ∷ []) = true
one_empty _ = false

abbrev is_gauge : List PanelLayout → Bool
is_gauge (p ∷ []) =
    text_beq p.name (b'a' ∷ [])
    && (is_full p.template
        && (one_empty p.slots && (is_none p.binding && is_none p.brightness_override)))
is_gauge _ = false

-- The only configuration that the example's encoder knows, at any revision.
abbrev is_known : SavedConfig → Bool
is_known s =
    nat_beq s.config.schema_version 2
    && (nat_beq s.config.clock_intensity 180
        && (nat_beq s.config.brightness.minimum 3
            && (nat_beq s.config.brightness.maximum 255
                && (nat_beq s.config.brightness.manual 32
                    && (not s.config.brightness.off && is_gauge s.config.panels)))))

abbrev pub Disk : Type 0
Disk = Option (List ℕ) × Option (List ℕ)

abbrev saved_path : Text
saved_path = b'p' ∷ []

abbrev temporary_path : Text
temporary_path = b't' ∷ []

abbrev content_of : Option (List ℕ) → Content
content_of none = not_found
content_of (some b) = found b

abbrev decode_known : List ℕ → Option SavedConfig
decode_known (r ∷ []) = some (record { revision = r; config = gauge_config })
decode_known _ = none

abbrev read_disk : Text → Disk → Content
read_disk q (file, temporary) =
    if text_beq q temporary_path
    then content_of temporary
    else if text_beq q saved_path
    then content_of file
    else not_found

abbrev create : Disk → Option {0} Unit × Disk
create (file, none) = (some tt, (file, some []))
create (file, some b) = (none, (file, some b))

abbrev append : List ℕ → Disk → Bool × Disk
append b (file, none) = (false, (file, none))
append b (file, some c) = (true, (file, some (c ++ b)))

abbrev move : Bool → Text → Disk → Bool × Disk
move works p (file, none) = (false, (file, none))
move works p (file, some c) =
    if works && text_beq p saved_path then (true, (some c, none)) else (false, (file, some c))

abbrev pub disk : Bool → Files Disk
disk works = record {
  Temporary = Unit;
  read = read_disk;
  parent = λ _. some [];
  create_directory = λ _ w. (true, w);
  new_temporary = λ _ w. create w;
  write_all = λ _ b w. append b w;
  sync_all = λ _ w. (true, w);
  rename = λ _ p w. move works p w;
  encode = λ s. if is_known s then some (s.revision ∷ []) else none;
  decode = decode_known;
}

known_panel : (p : PanelLayout) → is_gauge (p ∷ []) ≡ true → p ≡ gauge_panel
known_panel p h = ground (arith, text_beq_iff p.name (b'a' ∷ []))

known_panels : (ps : List PanelLayout) → is_gauge ps ≡ true → ps ≡ gauge_panel ∷ []
known_panels [] h = absurd (ground arith)
known_panels (p ∷ []) h = ap (λ q. q ∷ []) (known_panel p h)
known_panels (p ∷ q ∷ ps) h = absurd (ground arith)

known :
    (s : SavedConfig)
    → is_known s ≡ true
    → s ≡ record { revision = s.revision; config = gauge_config }
known s h = ground (arith, known_panels s.config.panels)

elsewhere : (q : Text) → q ≢ temporary_path → text_beq q temporary_path ≡ false
elsewhere q other = ground (arith, other, text_beq_iff q temporary_path)

create_new :
    (q : Text) (w : Disk) {b : List ℕ} {t : Unit}
    → (create w).0 ≡ some t
    → read_disk q w ≡ found b
    → q ≢ temporary_path
create_new q (file, none) e h =
    λ at_it. absurd (ground (arith, h, text_beq_iff q temporary_path, at_it))
create_new q (file, some c) e h = absurd (ground (arith, e))

create_keeps :
    (q : Text) (w : Disk) {b : List ℕ}
    → read_disk q w ≡ found b
    → read_disk q (create w).1 ≡ found b
create_keeps q (file, none) h = ground (arith, h)
create_keeps q (file, some c) h = h

create_empty : (w : Disk) {t : Unit} → (create w).0 ≡ some t → unwrap_or (create w).1.1 [] ≡ []
create_empty (file, none) e = refl
create_empty (file, some c) e = absurd (ground (arith, e))

append_keeps :
    (c : List ℕ) (q : Text) (w : Disk) {b : List ℕ}
    → q ≢ temporary_path
    → read_disk q w ≡ found b
    → read_disk q (append c w).1 ≡ found b
append_keeps c q (file, none) other h = h
append_keeps c q (file, some d) other h = ground (arith, h, elsewhere q other)

append_appends :
    (c : List ℕ) (w : Disk)
    → (append c w).0 ≡ true
    → unwrap_or (append c w).1.1 [] ≡ unwrap_or w.1 [] ++ c
append_appends c (file, none) e = absurd (ground (arith, e))
append_appends c (file, some d) e = refl

move_keeps :
    (works : Bool) (p q : Text) (w : Disk) {b : List ℕ}
    → (move works p w).0 ≢ true
    → read_disk q w ≡ found b
    → read_disk q (move works p w).1 ≡ found b
move_keeps works p q (file, none) n h = h
move_keeps works p q (file, some c) n h = elim (Bool-cases (works && text_beq p saved_path)) [
  | inl e ↦ absurd (ground (arith, e, n))
  | inr e ↦ rw e h
]

move_reads :
    (works : Bool) (p : Text) (w : Disk)
    → (move works p w).0 ≡ true
    → read_disk p (move works p w).1 ≡ found (unwrap_or w.1 [])
move_reads works p (file, none) e = absurd (ground (arith, e))
move_reads works p (file, some c) e = elim (Bool-cases (works && text_beq p saved_path)) [
  | inl t ↦
      let at_it : p ≡ saved_path = (text_beq_iff p saved_path).0 (ground (arith, t)) in
      rw (t, at_it) refl
  | inr t ↦ absurd (ground (arith, t, e))
]

decode-encode :
    (s : SavedConfig) {b : List ℕ}
    → (if is_known s then some (s.revision ∷ []) else none) ≡ some b
    → decode_known b ≡ some s
decode-encode s h = elim (Bool-cases (is_known s)) [
  | inl e ↦
      subst (λ (z : List ℕ). decode_known z ≡ some s) {x = s.revision ∷ []} (ground (arith, e, h))
        (ap some (sym (known s e)))
  | inr e ↦ absurd (ground (arith, e, h))
]

disk-IsFaithful : (works : Bool) → IsFaithful (disk works)
disk-IsFaithful works = record {
  contents = λ _ w. unwrap_or w.1 [];
  place = λ _. temporary_path;
  create_directory_keeps = λ p q w h. h;
  new_temporary_new = λ p q w e h. create_new q w e h;
  new_temporary_keeps = λ p q w h. create_keeps q w h;
  write_all_keeps = λ t c q w other h. append_keeps c q w other h;
  sync_all_keeps = λ t q w other h. h;
  rename_keeps = λ t p q w other n h. move_keeps works p q w n h;
  new_temporary_empty = λ p w e. create_empty w e;
  write_all_appends = λ t c w e. append_appends c w e;
  sync_all_contents = λ t w. refl;
  rename_reads = λ t p w e. move_reads works p w e;
  decode-encode = λ s e. decode-encode s e;
}

pub gauge_config_valid : validate gauge_config ≡ []
unfolding validate errors_if valid count_rejected panels_errors panel_errors override_rejected
    binding_rejected name_rejected slots_rejected presentations slot_errors
gauge_config_valid = refl

gauge_config-IsValidConfig : IsValidConfig gauge_config
gauge_config-IsValidConfig = (validate-IsValidConfig gauge_config).0 gauge_config_valid

abbrev empty_disk : Disk
empty_disk = (none, none)

abbrev pub old_disk : Disk
old_disk = (some (6 ∷ []), none)

persist-keeps_example :
    (disk false).read saved_path (persist (disk false) saved_path seventh old_disk).1
    ≡ found (6 ∷ [])
unfolding persist
persist-keeps_example =
    persist-keeps (disk false) (disk-IsFaithful false) saved_path (6 ∷ []) seventh old_disk refl
      (λ e. absurd (ground (arith, e)))

load-persist_example :
    load (disk true) saved_path (persist (disk true) saved_path seventh old_disk).1
    ≡ ok (record { saved = seventh; path = some saved_path; preview = none; next_lease = 0 })
unfolding persist
load-persist_example =
    load-persist (disk true) (disk-IsFaithful true) saved_path seventh (7 ∷ []) old_disk
      gauge_config-IsValidConfig refl (omega arith) refl

abbrev pub started : Store
started = record { saved = seventh; path = none; preview = none; next_lease = 4 }

abbrev durable : Store
durable = record started { path = some saved_path }

abbrev pub owner : Text
owner = b'o' ∷ []

apply-Outcome_example :
    Outcome
      (disk true)
      durable
      7
      gauge_config
      old_disk
      (apply (disk true) durable 7 gauge_config old_disk)
apply-Outcome_example = apply-Outcome (disk true) durable 7 gauge_config old_disk

granted : (begin_preview started owner gauge_config 10 5000).0 ≡ ok 5
unfolding begin_preview validate errors_if valid count_rejected panels_errors panel_errors
    override_rejected binding_rejected name_rejected slots_rejected presentations slot_errors
granted = refl

begin_preview-ok_example :
    let t = (begin_preview started owner gauge_config 10 5000).1 in
    (5 ≡ started.next_lease + 1)
    × (t.next_lease ≡ 5)
    × (owns_preview t owner 5 14999 ≡ true)
    × ((output_at t 14999).0 ≡ gauge_config)
    × (t.saved ≡ started.saved)
begin_preview-ok_example =
    begin_preview-ok started owner gauge_config 10 5000 5 14999 granted (omega arith)

preview_expires_example :
    let t = (begin_preview started owner gauge_config 10 5000).1 in
    ((output_at t 15000).0 ≡ started.saved.config)
    × (owns_preview t owner 5 15000 ≡ false)
    × (preview_active t 15000 ≡ false)
preview_expires_example =
    preview_expires started owner gauge_config 10 5000 5 15000 granted (omega arith)

cancel_preview-owner_example :
    let t = (begin_preview started owner gauge_config 10 5000).1 in
    (owner ≡ owner → cancel_preview t owner none ≡ (true, record t { preview = none }))
    × (cancel_preview t owner (some 5) ≡ (true, record t { preview = none }))
    × ((held : Option ℕ) → owner ≢ owner → cancel_preview t owner held ≡ (false, t))
    × (cancel_preview t owner (some 4) ≡ (false, t))
cancel_preview-owner_example =
    cancel_preview-owner started owner owner gauge_config 10 5000 5 4 granted (omega arith)

pub started-IsStore : IsStore started
started-IsStore = record {
  saved_valid = gauge_config_valid;
  revision_fits = omega arith;
  lease_valid = tt;
  leases_fit = omega arith;
}

abbrev calls : List Call
calls =
    begins owner gauge_config 10 5000
    ∷ applies 7 gauge_config
    ∷ cancels owner none
    ∷ outputs 9000
    ∷ []

run-IsStore_example : IsStore (run (disk true) (started, old_disk) calls).0
run-IsStore_example = run-IsStore (disk true) started old_disk calls started-IsStore
