-- ===== src/Client/Wire.antt =====
-- `write_message` and `read_message` of crates/matrix-client/src/lib.rs over a stream of bytes: four
-- bytes of length, the highest first, then the JSON payload. serde_json is a parameter.
use fw16_ledmatrix.Base.{
  ℕ, ◌+◌, ◌*◌, ◌/◌, ◌%◌, ◌≤◌, ◌<◌, ◌≡◌, false, ◌||◌, Option, none, some, List, [], ◌∷◌, ◌++◌,
  length, length-append, take, drop, ◌⊎◌, ltb, nat_beq, if◌then◌else◌, Result, ok, err, refl, ap,
  arith, subst, inl, inr, Option-cases, Bool-cases,
}
use fw16_ledmatrix.Client.Failure.{IoKind, invalid_data, unexpected_eof}
use fw16_ledmatrix.Client.Messages.{max_message}

-- `to_vec` and `from_slice` for one type of message; a JSON text is never empty.
pub record Json (T : Type 0) : Type 0 where
  pub to_vec : T → Option (List ℕ)
  pub from_slice : List ℕ → Option T
  pub from_slice-to_vec : (v : T) {b : List ℕ} → to_vec v ≡ some b → from_slice b ≡ some v
  pub to_vec_nonempty : (v : T) {b : List ℕ} → to_vec v ≡ some b → 0 < length b

unfoldable pub u32_bytes : ℕ → List ℕ
u32_bytes n = (n / 16777216 % 256) ∷ (n / 65536 % 256) ∷ (n / 256 % 256) ∷ (n % 256) ∷ []

-- The first four bytes as a number, and what follows.
unfoldable pub read_u32 : List ℕ → Result (ℕ × List ℕ) IoKind
read_u32 (a ∷ b ∷ c ∷ d ∷ rest) = ok (a * 16777216 + b * 65536 + c * 256 + d, rest)
read_u32 _ = err unexpected_eof

module _ {T : Type 0} (json : Json T) where
  unfoldable pub framed : List ℕ → Result (List ℕ) IoKind
  unfolding u32_bytes
  framed payload =
      if ltb max_message (length payload)
      then err invalid_data
      else ok (u32_bytes (length payload) ++ payload)

  unfoldable pub write_message : T → Result (List ℕ) IoKind
  unfolding framed
  write_message v = elim (json.to_vec v) [ none ↦ err invalid_data | some b ↦ framed b ]

  unfoldable pub parsed : List ℕ → Option T → Result (T × List ℕ) IoKind
  parsed rest none = err invalid_data
  parsed rest (some v) = ok (v, rest)

  unfoldable pub read_payload : Result (ℕ × List ℕ) IoKind → Result (T × List ℕ) IoKind
  unfolding parsed
  read_payload (err e) = err e
  read_payload (ok (size, stream)) =
      if nat_beq size 0 || ltb max_message size
      then err invalid_data
      else if ltb (length stream) size
      then err unexpected_eof
      else parsed (drop size stream) (json.from_slice (take size stream))

  unfoldable pub read_message : List ℕ → Result (T × List ℕ) IoKind
  unfolding read_u32 read_payload
  read_message stream = read_payload (read_u32 stream)

take-append : (xs ys : List ℕ) → take (length xs) (xs ++ ys) ≡ xs
take-append [] ys = refl
take-append (x ∷ xs) ys = ap (◌∷◌ x) (take-append xs ys)

drop-append : (xs ys : List ℕ) → drop (length xs) (xs ++ ys) ≡ ys
drop-append [] ys = refl
drop-append (x ∷ xs) ys = drop-append xs ys

u32_value :
    (n : ℕ)
    → n < 4294967296
    → n / 16777216 % 256 * 16777216 + n / 65536 % 256 * 65536 + n / 256 % 256 * 256 + n % 256 ≡ n
u32_value n h = omega arith

length-append_le : (xs ys : List ℕ) → ltb (length (xs ++ ys)) (length xs) ≡ false
length-append_le xs ys = ground (arith, length-append xs ys)

module _ {T : Type 0} (json : Json T) where
  read_message-payload :
      (v : T) (b rest : List ℕ)
      → json.to_vec v ≡ some b
      → length b ≤ max_message
      → read_message json (u32_bytes (length b) ++ b ++ rest) ≡ ok (v, rest)
  unfolding read_message u32_bytes
  read_message-payload v b rest e l =
      rw
        (
          u32_value (length b) (omega arith),
          take-append b rest,
          drop-append b rest,
          json.from_slice-to_vec v e,
        )
        (ground (arith, l, json.to_vec_nonempty v e, length-append b rest))

  -- What is written is read back, whatever follows it in the stream, and exactly its bytes are
  -- consumed.
  pub read_message-write_message :
      (v : T) (bytes rest : List ℕ)
      → write_message json v ≡ ok bytes
      → read_message json (bytes ++ rest) ≡ ok (v, rest)
  unfolding write_message framed u32_bytes
  read_message-write_message v bytes rest h = elim (Option-cases (json.to_vec v)) [
    | inl e ↦ absurd (ground (arith, e))
    | inr (b, e) ↦ elim (Bool-cases (ltb max_message (length b))) [
      | inl l ↦ absurd (ground (arith, e, l))
      | inr l ↦
          subst (λ (z : List ℕ). read_message json (z ++ rest) ≡ ok (v, rest))
            {x = u32_bytes (length b) ++ b} (ground (arith, e, l))
            (read_message-payload v b rest e (ground arith))
    ]
  ]

  -- No message is longer than the limit, and a stream that announces none or more than the limit is
  -- refused before its payload is read.
  pub read_message_bounds :
      (a b c d : ℕ) (stream : List ℕ)
      → let size = a * 16777216 + b * 65536 + c * 256 + d in
        (size ≡ 0) ⊎ (max_message < size)
        → read_message json (a ∷ b ∷ c ∷ d ∷ stream) ≡ err invalid_data
  unfolding read_message
  read_message_bounds a b c d stream h = ground arith
