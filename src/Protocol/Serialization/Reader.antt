-- ===== src/Protocol/Serialization/Reader.antt =====
-- The class Reader of src/protocol/serialization.cpp. A method that returns false leaves `none`
-- and its error text in the reader; one that returns true leaves the value it stored.
-- Positions are size_t: they stay below the input's size, so `pos_ + len` does not wrap.
use pqchat.Prelude.{
  Bool, Bytes, Option, String, bit_or, concat, drop, get_or, if◌then◌else◌, length, ltb, none, not,
  some, suc, take, zero, ℕ, ◌%◌, ◌*◌, ◌+◌, ◌==◌, ◌^◌,
}

pub record Reader : Type 0 where
  pub bytes : Bytes
  pub pos : ℕ
  pub error : String

abbrev pub Read : Type 0 → Type 0
Read A = Reader → Option A × Reader

-- `new_reader bytes` is `Reader reader(bytes)`.
unfoldable pub new_reader : Bytes → Reader
new_reader bytes = record { bytes = bytes; pos = 0; error = "" }

module _ {A : Type 0} where
  abbrev pub pure : A → Read A
  pure a r = (some a, r)

  -- `error_ = text; return false`
  abbrev pub fail : String → Read A
  fail text r = (none, record r { error = text })

module _ {A B : Type 0} where
  abbrev pub continue : Option A → (A → Read B) → Read B
  continue none f r = (none, r)
  continue (some a) f r = f a r

  -- `a && b`: what follows is called only if the call before it returned true.
  infixl 5 ◌>>=◌
  unfoldable pub ◌>>=◌ : Read A → (A → Read B) → Read B
  ◌>>=◌ m f r = let (a, r') = m r in continue a f r'

abbrev pub max_serialized_input_bytes : ℕ
max_serialized_input_bytes = 8 * 1024 * 1024

abbrev pub max_field_bytes : ℕ
max_field_bytes = 1024 * 1024

abbrev pub max_string_bytes : ℕ
max_string_bytes = 64 * 1024

abbrev pub max_one_time_prekeys : ℕ
max_one_time_prekeys = 4096

abbrev pub max_envelope_vector_items : ℕ
max_envelope_vector_items = 4096

-- `bytes_[pos_ + i]`
abbrev pub peek : Reader → ℕ → ℕ
peek r i = get_or r.bytes (r.pos + i) 0

-- `pos_ += n`
abbrev pub advance : Reader → ℕ → Reader
advance r n = record r { pos = r.pos + n }

-- `value << shift`, at 32 and at 64 bits
abbrev shl32 : ℕ → ℕ → ℕ
shl32 value shift = value * 2 ^ shift % 2 ^ 32

abbrev pub shl64 : ℕ → ℕ → ℕ
shl64 value shift = value * 2 ^ shift % 2 ^ 64

unfoldable pub read_u8 : Read ℕ
read_u8 r =
    if ltb (length r.bytes) (r.pos + 1)
    then fail "unexpected EOF while reading u8" r
    else (some (peek r 0), advance r 1)

unfoldable pub load_u32 : ℕ → ℕ → ℕ → ℕ → ℕ
load_u32 a b c d = bit_or (bit_or (bit_or (shl32 a 24) (shl32 b 16)) (shl32 c 8)) d

unfoldable pub read_u32 : Read ℕ
read_u32 r =
    if ltb (length r.bytes) (r.pos + 4)
    then fail "unexpected EOF while reading u32" r
    else (some (load_u32 (peek r 0) (peek r 1) (peek r 2) (peek r 3)), advance r 4)

-- `for (int i = 0; i < 8; ++i) value = (value << 8) | bytes_[pos_ + i]`, by the rounds left.
unfoldable pub load_octets : ℕ → ℕ → ℕ → Reader → ℕ
load_octets zero i value r = value
load_octets (suc n) i value r = load_octets n (i + 1) (bit_or (shl64 value 8) (peek r i)) r

unfoldable pub read_u64 : Read ℕ
read_u64 r =
    if ltb (length r.bytes) (r.pos + 8)
    then fail "unexpected EOF while reading u64" r
    else (some (load_octets 8 0 0 r), advance r 8)

-- `error_ = "decoded "; error_ += label; error_ += " exceeds limit"`
abbrev pub exceeds_limit : String → String
exceeds_limit label = concat (concat "decoded " label) " exceeds limit"

unfoldable pub read_slice : ℕ → Read Bytes
read_slice len r =
    if ltb (length r.bytes) (r.pos + len)
    then fail "unexpected EOF while reading bytes" r
    else (some (take len (drop r.pos r.bytes)), advance r len)

unfoldable pub read_bytes_within : ℕ → String → Read Bytes
read_bytes_within max_len label = do
  len ← read_u32
  if ltb max_len len then fail (exceeds_limit label) else read_slice len

unfoldable pub read_bytes : Read Bytes
read_bytes = read_bytes_within max_field_bytes "bytes"

unfoldable pub read_string : Read Bytes
read_string = read_bytes_within max_string_bytes "string"

unfoldable pub limit_u32 : ℕ → ℕ → String → Read (Unit {0})
limit_u32 value max label = if ltb max value then fail (exceeds_limit label) else pure tt

-- OptionalU32 and OptionalBytes are the same code around another method and another text.
unfoldable pub read_optional : {A : Type 0} → Read A → String → Read (Option A)
read_optional read invalid_tag = do
  present ← read_u8
  if present == 0
      then pure none
      else if not (present == 1)
      then fail invalid_tag
      else (do value ← read; pure (some value))

unfoldable pub read_optional_u32 : Read (Option ℕ)
read_optional_u32 = read_optional read_u32 "invalid optional u32 tag"

unfoldable pub read_optional_bytes : Read (Option Bytes)
read_optional_bytes = read_optional read_bytes "invalid optional bytes tag"

unfoldable pub is_finished : Reader → Bool
is_finished r = r.pos == length r.bytes
