-- ===== src/Core/Config/Defs.antt =====
-- crates/matrix-core/src/config.rs: the configuration and its validation.
use fw16_ledmatrix.Base.{
  ℕ, suc, Bool, true, false, not, ◌&&◌, ◌||◌, Option, none, some, List, [], ◌∷◌, ◌++◌, Text, utf8,
  decimal, ltb, leb, ◌==◌, text_eq, nat_eq, if◌then◌else◌, get_elem?, length, is_empty, any,
  is_some_and,
}
use fw16_ledmatrix.Core.Assistant.{safe_id}
use fw16_ledmatrix.Core.Brightness.{Brightness, default_brightness, valid}
use fw16_ledmatrix.Core.Layout.{
  Template, Presentation, presentation_eq, Source, source_eq, Widget, PanelLayout, presentations,
  defaults,
}

pub record Config : Type 0 where
  pub schema_version : ℕ
  pub clock_intensity : ℕ
  pub brightness : Brightness
  pub panels : List PanelLayout

abbrev pub default_config : Config
default_config = record {
  schema_version = 2;
  clock_intensity = 180;
  brightness = default_brightness;
  panels = defaults;
}

pub record FieldError : Type 0 where
  pub field : Text
  pub message : Text

-- `if rejected { errors.push(..) }`: the errors that it adds.
unfoldable pub errors_if : Bool → Text → Text → List FieldError
errors_if rejected field message =
    if rejected then record { field = field; message = message } ∷ [] else []

-- A `BTreeSet<String>`: `insert` says whether the text was new.
unfoldable pub seen : Text → List Text → Bool
seen t set = any (λ u. u == t) set

unfoldable pub insert : Text → List Text → List Text
unfolding seen
insert t set = if seen t set then set else t ∷ set

unfoldable pub override_rejected : PanelLayout → Bool
override_rejected p = is_some_and p.brightness_override (λ b. not (valid b))

-- The texts that never reach the set.
unfoldable pub binding_malformed : Text → Bool
binding_malformed b = is_empty b || ltb 1024 (length b)

unfoldable pub binding_rejected : List Text → PanelLayout → Bool
unfolding binding_malformed seen
binding_rejected bindings p = is_some_and p.binding (λ b. binding_malformed b || seen b bindings)

unfoldable pub insert_binding : Option Text → List Text → List Text
unfolding binding_malformed insert
insert_binding none bindings = bindings
insert_binding (some b) bindings = if binding_malformed b then bindings else insert b bindings

unfoldable pub name_malformed : Text → Bool
name_malformed n = is_empty n || ltb 32 (length n)

unfoldable pub name_rejected : List Text → PanelLayout → Bool
unfolding name_malformed seen
name_rejected names p = name_malformed p.name || seen p.name names

unfoldable pub insert_name : Text → List Text → List Text
unfolding name_malformed insert
insert_name n names = if name_malformed n then names else insert n names

unfoldable pub slots_rejected : PanelLayout → Bool
slots_rejected p = not (length p.slots == length (presentations p.template))

-- `a != b` on two tests.
abbrev pub xor : Bool → Bool → Bool
xor true b = not b
xor false b = b

unfoldable pub widget_rejected : Template → ℕ → Widget → Bool
widget_rejected template s w =
    not (is_some_and (get_elem? (presentations template) s) (λ p. p == w.presentation))
    || (is_some_and w.intensity (λ i. i == 0)
        || (is_some_and w.session_id (λ id. not (safe_id id))
            || (is_some_and w.warning_threshold (λ t. ltb 100 t)
                || xor (w.source == Source.clock) (w.presentation == Presentation.clock))))

-- The inner loop, from slot `s` of panel `p` on.
unfoldable pub slot_errors : ℕ → Template → ℕ → List (Option Widget) → List FieldError
slot_errors p template s [] = []
slot_errors p template s (none ∷ slots) = slot_errors p template (suc s) slots
slot_errors p template s (some w ∷ slots) =
    errors_if (widget_rejected template s w)
      (utf8 "panels." ++ (decimal p ++ (utf8 ".slots." ++ decimal s)))
      (utf8 "Incompatible widget/slot, source or intensity.")
    ++ slot_errors p template (suc s) slots

unfoldable pub panel_errors : ℕ → List Text → List Text → PanelLayout → List FieldError
panel_errors p names bindings panel =
    errors_if (override_rejected panel)
      (utf8 "panels." ++ (decimal p ++ utf8 ".brightness_override"))
      (utf8 "Invalid panel brightness limits or manual level.")
    ++ (errors_if (binding_rejected bindings panel)
          (utf8 "panels." ++ (decimal p ++ utf8 ".binding"))
          (utf8 "Each physical location can belong to only one logical panel.")
        ++ (errors_if (name_rejected names panel) (utf8 "panels." ++ (decimal p ++ utf8 ".name"))
              (utf8 "Panel names must be unique and 1–32 bytes.")
            ++ (errors_if (slots_rejected panel) (utf8 "panels." ++ (decimal p ++ utf8 ".slots"))
                  (utf8 "Slot count must match the guided template.")
                ++ slot_errors p panel.template 0 panel.slots)))

-- The outer loop, from panel `p` on, with the sets of what was seen.
unfoldable pub panels_errors : ℕ → List Text → List Text → List PanelLayout → List FieldError
panels_errors p names bindings [] = []
panels_errors p names bindings (panel ∷ panels) =
    panel_errors p names bindings panel
    ++ panels_errors (suc p) (insert_name panel.name names) (insert_binding panel.binding bindings)
        panels

unfoldable pub count_rejected : List PanelLayout → Bool
count_rejected panels = not (leb 1 (length panels) && leb (length panels) 2)

unfoldable pub validate : Config → List FieldError
validate c =
    errors_if (not (valid c.brightness)) (utf8 "brightness") (
      utf8
        "Require 1 <= minimum <= manual <= maximum <= 255. Use explicit off, not zero brightness.")
    ++ (errors_if (not (c.schema_version == 2)) (utf8 "schema_version")
          (utf8 "Unsupported configuration schema; preserve the file and use a matching version.")
        ++ (errors_if (c.clock_intensity == 0) (utf8 "clock_intensity")
              (utf8 "Clock intensity must be between 1 and 255.")
            ++ (errors_if (count_rejected c.panels) (utf8 "panels")
                  (utf8 "Configure one or two panels.")
                ++ panels_errors 0 [] [] c.panels)))

pub record SavedConfig : Type 0 where
  pub revision : ℕ
  pub config : Config

pub data ConfigStatus : Type 0 where
  read valid_config applied invalid conflict save_failed : ConfigStatus

pub record ConfigReply : Type 0 where
  pub status : ConfigStatus
  pub saved : SavedConfig
  pub errors : List FieldError
