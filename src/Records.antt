-- ===== src/Records.antt =====
-- agentmesh/records.py, the wire schemas: texts, embeddings, audiences and records.
use intertexum.Prelude.{
  ℕ, ◌*◌, ◌^◌, ◌/◌, Bool, true, false, not, ◌&&◌, ◌||◌, List, [], ◌∷◌, ltb, leb, ◌==◌, length, all,
  Result, invalid, guard, ◌>>◌, if◌then◌else◌, str_eq, String, sum_by,
}
use intertexum.Crypto.{Env, Reader, everyone, anyone, named, RecordBody, valid_id}

abbrev pub max_text_bytes : ℕ
max_text_bytes = 32 * 1024

abbrev pub max_parents : ℕ
max_parents = 16

abbrev pub max_depth : ℕ
max_depth = 64

-- The bytes of a code point in UTF-8.
unfoldable pub utf8_size : ℕ → ℕ
utf8_size c = if ltb c 0x80 then 1 else if ltb c 0x800 then 2 else if ltb c 0x10000 then 3 else 4

unfoldable pub byte_length : List ℕ → ℕ
byte_length s = sum_by utf8_size s

-- The order of strings on the members of an audience: `*` is below the digits, and `@` between
-- the digits and the letters.
unfoldable pub reader_lt : Reader → Reader → Bool
reader_lt everyone everyone = false
reader_lt everyone _ = true
reader_lt anyone (named n) = ltb 9 (n / 2 ^ 252)
reader_lt anyone _ = false
reader_lt (named n) (named m) = ltb n m
reader_lt (named n) anyone = leb (n / 2 ^ 252) 9
reader_lt (named n) everyone = false

unfoldable pub reader_eq : Reader → Reader → Bool
reader_eq everyone everyone = true
reader_eq anyone anyone = true
reader_eq (named n) (named m) = n == m
reader_eq _ _ = false

-- `x in audience`
unfoldable pub includes : List Reader → Reader → Bool
unfolding reader_eq
includes [] r = false
includes (x ∷ xs) r = reader_eq r x || includes xs r

abbrev pub is_public : List Reader → Bool
is_public (anyone ∷ []) = true
is_public _ = false

abbrev pub is_everyone : List Reader → Bool
is_everyone (everyone ∷ []) = true
is_everyone _ = false

-- `value == sorted(set(value))`
unfoldable pub is_sorted_readers : List Reader → Bool
unfolding reader_lt
is_sorted_readers [] = true
is_sorted_readers (x ∷ []) = true
is_sorted_readers (x ∷ y ∷ rest) = reader_lt x y && is_sorted_readers (y ∷ rest)

unfoldable pub is_sorted_ids : List ℕ → Bool
is_sorted_ids [] = true
is_sorted_ids (x ∷ []) = true
is_sorted_ids (x ∷ y ∷ rest) = ltb x y && is_sorted_ids (y ∷ rest)

unfoldable pub is_reader_id : Reader → Bool
unfolding valid_id
is_reader_id (named n) = valid_id n
is_reader_id _ = true

module _ (env : Env) where
  unfoldable pub check_vector : List ℕ → ℕ → Result (Unit {0})
  check_vector values dimensions = do
    guard (length values == dimensions) invalid
    guard (all env.is_bounded values) invalid
    guard (not (env.is_zero_norm values)) invalid

  unfoldable pub check_text : List ℕ → Result (Unit {0})
  unfolding byte_length
  check_text value =
      guard (not (all env.is_space value) && leb (byte_length value) max_text_bytes) invalid

unfoldable pub check_audience : List Reader → Bool → Result (Unit {0})
unfolding is_sorted_readers includes is_reader_id
check_audience value private = do
  guard (leb (length value) 256) invalid
  guard (ltb 0 (length value) || private) invalid
  guard (is_sorted_readers value) invalid
  guard
      (not (includes value everyone || includes value anyone)
        || (is_everyone value || is_public value))
      invalid
  guard (all is_reader_id value) invalid

module _ (env : Env) where
  unfoldable pub validate_record : RecordBody → String → ℕ → Bool → Result (Unit {0})
  validate_record body model dimensions private = do
    guard (body.version == 1) invalid
    guard (valid_id body.origin) invalid
    guard (str_eq body.model model) invalid
    check_vector env body.vector dimensions
    check_text env body.text
    check_audience body.audience private
    guard (leb (length body.parents) max_parents) invalid
    guard (all valid_id body.parents) invalid
    guard (is_sorted_ids body.parents) invalid
    guard (ltb body.created_ms (2 ^ 63)) invalid
