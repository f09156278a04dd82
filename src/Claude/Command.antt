-- ===== src/Claude/Command.antt =====
-- crates/matrix-claude/src/main.rs: the command that passes the status line on to another program, and
-- takes a copy of it. The other program, the reads of standard input and the time-outs are parameters.
use fw16_ledmatrix.Base.{
  ℕ, ◌+◌, ◌≤◌, ◌≡◌, refl, arith, Bool, true, false, not, ◌&&◌, ◌||◌, Option, none, some, List, [],
  ◌∷◌, ◌++◌, Text, utf8, text_eq, ◌==◌, if◌then◌else◌, leb, length, length-append, drop, get_elem?,
  is_some_and, is_empty, Bool-cases, inl, inr, unwrap_or, ap, ◌∙◌,
}

abbrev pub max_input : ℕ
max_input = 65536

pub record Capture : Type 0 where
  pub bytes : Text
  pub oversized : Bool

unfoldable pub capture : Capture → Text → Capture
capture c chunk =
    if c.oversized
    then c
    else if leb (length c.bytes + length chunk) max_input
    then record c { bytes = c.bytes ++ chunk }
    else record { bytes = []; oversized = true }

-- The reads of standard input, until one is empty.
unfoldable pub capture_all : Capture → List Text → Capture
capture_all c [] = c
capture_all c (chunk ∷ chunks) = capture_all (capture c chunk) chunks

-- What goes to the other program: chunks, until a write fails (`accepts` is one answer per chunk).
unfoldable pub forward : Bool → List Text → List Bool → List Text
forward false chunks answers = []
forward true [] answers = []
forward true (chunk ∷ chunks) [] = []
forward true (chunk ∷ chunks) (answer ∷ answers) =
    if answer then chunk ∷ forward true chunks answers else []

unfoldable pub is_hook : List Text → Bool
unfolding utf8
is_hook args = is_some_and (get_elem? args 0) (λ a. a == utf8 "hook")

unfoldable pub wants_statusline : List Text → Bool
unfolding utf8
wants_statusline args = is_some_and (get_elem? args 0) (λ a. a == utf8 "statusline")

unfoldable pub downstream : List Text → List Text
unfolding utf8
downstream args =
    if not (is_hook args) && is_some_and (get_elem? args 1) (λ a. a == utf8 "--")
    then drop 2 args
    else []

-- How the other program ends within its two seconds: with a code, by a signal (`some none`), or not.
unfoldable pub exit_status : Option (Option ℕ) → ℕ
exit_status (some code) = unwrap_or code 1
exit_status none = 0

-- `spawned` and `ended` are the other program's; `transferred` is whether the input ended in time and
-- without an error; `has_root` is whether there is a directory for the feeds.
pub record Run : Type 0 where
  pub args : List Text
  pub spawned : Bool
  pub chunks : List Text
  pub answers : List Bool
  pub transferred : Bool
  pub has_root : Bool
  pub ended : Option (Option ℕ)

-- The call of `update`, its flag and input, where there is one.
unfoldable pub call_with : Run → Capture → Option (Bool × Text)
call_with r c = if not c.oversized && r.has_root then some (is_hook r.args, c.bytes) else none

unfoldable pub update_call : Run → Option (Bool × Text)
update_call r = call_with r (capture_all (record { bytes = []; oversized = false }) r.chunks)

pub record RunOutcome : Type 0 where
  pub status : ℕ
  pub updated : Option (Bool × Text)
  pub forwarded : List Text

abbrev nothing : RunOutcome
nothing = record { status = 0; updated = none; forwarded = [] }

unfoldable pub finished : Run → Bool → RunOutcome
finished r has_child =
    let sent = forward has_child r.chunks r.answers in
    if not r.transferred then record { status = 0; updated = none; forwarded = sent } else record {
      status = if has_child then exit_status r.ended else 0;
      updated = update_call r;
      forwarded = sent;
    }

unfoldable pub run : Run → RunOutcome
run r =
    if not (is_hook r.args) && not (wants_statusline r.args)
    then nothing
    else if is_empty (downstream r.args)
    then finished r false
    else if r.spawned
    then finished r true
    else nothing

abbrev pub joined : List Text → Text
joined [] = []
joined (t ∷ ts) = t ++ joined ts

-- What the capture of a text comes to, however it was read.
abbrev pub limited : Text → Capture
limited t =
    if leb (length t) max_input
    then record { bytes = t; oversized = false }
    else record { bytes = []; oversized = true }

append_assoc : (a b c : Text) → (a ++ b) ++ c ≡ a ++ (b ++ c)
append_assoc [] b c = refl
append_assoc (x ∷ a) b c = ap (◌∷◌ x) (append_assoc a b c)

append_nil : (a : Text) → a ++ [] ≡ a
append_nil [] = refl
append_nil (x ∷ a) = ap (◌∷◌ x) (append_nil a)

abbrev too_large : Capture
too_large = record { bytes = []; oversized = true }

capture_all-oversized : (chunks : List Text) → capture_all too_large chunks ≡ too_large
unfolding capture_all capture
capture_all-oversized [] = refl
capture_all-oversized (chunk ∷ chunks) = capture_all-oversized chunks

-- However the input is read: the capture is the whole of it where that is at most 65536 bytes, and
-- otherwise nothing.
capture_all-limited :
    (b : Text) (chunks : List Text)
    → length b ≤ max_input
    → capture_all (record { bytes = b; oversized = false }) chunks ≡ limited (b ++ joined chunks)
unfolding capture_all capture
capture_all-limited b [] h = rw (append_nil b) (ground (arith, h))
capture_all-limited b (chunk ∷ chunks) h =
    elim (Bool-cases (leb (length b + length chunk) max_input)) [
      | inl e ↦ rw e (
          capture_all-limited (b ++ chunk) chunks (ground (arith, e, length-append b chunk))
          ∙ ap limited (append_assoc b chunk (joined chunks)))
      | inr e ↦ rw e (
          capture_all-oversized chunks
          ∙ ground (
            arith,
            e,
            length-append b (chunk ++ joined chunks),
            length-append chunk (joined chunks),
          ))
    ]

abbrev is_command : List Text → Bool
is_command args = is_hook args || wants_statusline args

-- Whether an update is called for.
abbrev pub is_due : Run → Bool
is_due r =
    (is_hook r.args || wants_statusline r.args)
    && ((is_empty (downstream r.args) || r.spawned)
        && (r.transferred && (r.has_root && leb (length (joined r.chunks)) max_input)))

update_call-input : (r : Run) → update_call r ≡ call_with r (limited (joined r.chunks))
unfolding update_call
update_call-input r = ap (call_with r) (capture_all-limited [] r.chunks (omega arith))

finished-updates :
    (r : Run) (has_child : Bool)
    → (finished r has_child).updated ≡ (if r.transferred then update_call r else none)
unfolding finished
finished-updates r has_child = ground arith

run-finished :
    (r : Run)
    → (run r).updated ≡ (
        if (is_hook r.args || wants_statusline r.args)
          && (is_empty (downstream r.args) || r.spawned)
        then (if r.transferred then update_call r else none)
        else none)
unfolding run
run-finished r = ground (arith, finished-updates r true, finished-updates r false)

-- `update` is called at most once: exactly for a command line of the helper whose other program, if it
-- names one, was started, whose input ended in time and without an error and is at most 65536 bytes,
-- and where there is a directory for the feeds. It gets what was read, however it was cut into chunks.
pub run-updates :
    (r : Run)
    → (run r).updated ≡ (if is_due r then some (is_hook r.args, joined r.chunks) else none)
unfolding call_with
run-updates r = run-finished r ∙ ground (arith, update_call-input r)
