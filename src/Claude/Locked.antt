-- ===== src/Claude/Locked.antt =====
-- What crates/matrix-claude/src/lib.rs writes, and when.
use fw16_ledmatrix.Base.{
  ℕ, ◌+◌, ◌≤◌, ◌≡◌, Bool, true, false, Option, none, some, List, Text, nat_eq, length, take, Result,
  ok, err,
}
use fw16_ledmatrix.Core.Assistant.{Feed}
use fw16_ledmatrix.Client.Failure.{IoKind, not_found}
use fw16_ledmatrix.Client.Conversation.{Done}
use fw16_ledmatrix.Claude.{Payload, HookEvent, foreign, update_session, update}
use fw16_ledmatrix.Claude.Command.{max_input}
use fw16_ledmatrix.Claude.Files.{UpdateCalls, open_file, prepared}

-- The previous feed that an update went on from: none where there is no file, or what the file holds.
abbrev pub IsPrevious : UpdateCalls → Text → Option Feed → Type 0
IsPrevious c id none = open_file c.user c.feed_file ≡ err not_found
IsPrevious c id (some f) =
    (contents : List ℕ) × (c.contents ≡ ok contents)
    × (length (take (max_input + 1) contents) ≤ max_input)
    × (c.from_slice (take (max_input + 1) contents) ≡ some f)
    × (foreign id f ≡ false)

-- The feed's JSON text is what was written to the new file, which was then put in its place.
abbrev pub IsStored : UpdateCalls → Feed → Type 0
IsStored c feed =
    (contents : List ℕ) × (c.to_vec feed ≡ some contents)
    × (c.write_all contents ≡ ok tt)
    × (c.sync_all ≡ ok tt)
    × (c.persist ≡ ok tt)

abbrev Updated : HookEvent → Payload → Text → ℕ → UpdateCalls → Feed → Type 0
Updated event p id now c feed =
    (previous : Option Feed) × IsPrevious c id previous
    × (update_session event p id previous now ≡ some feed)
    × IsStored c feed

-- What holds where a feed was written: the payload was accepted, the private directories and the lock
-- file were there, the lock was taken, the feed is `update`'s after the feed that was there, and its JSON
-- text was written.
abbrev pub Written : Bool → Option Payload → ℕ → UpdateCalls → Feed → Type 0
Written hook payload now c feed =
    (p : Payload) × (id : Text) × (previous : Option Feed) × (payload ≡ some p)
    × ((d : Done) × (prepared c ≡ ok d))
    × ((m : ℕ) × (c.try_lock m ≡ true))
    × IsPrevious c id previous
    × (update hook p previous now ≡ some feed)
    × IsStored c feed

abbrev Fine : Bool → Payload → ℕ → UpdateCalls → Result (Option Feed) IoKind → Type 0
Fine hook p now c r = (feed : Feed) → r ≡ ok (some feed) → Written hook (some p) now c feed
