-- ===== src/Protocol/Serialization/Writer.antt =====
-- The class Writer of src/protocol/serialization.cpp. A method is a function on `out_`.
use pqchat.Prelude.{
  Bytes, Option, [], append_assoc, length, none, refl, some, suc, zero, ℕ, ◌%◌, ◌*◌, ◌++◌, ◌/◌, ◌^◌,
  ◌∷◌, ◌≡◌,
}

abbrev pub Write : Type 0
Write = Bytes → Bytes

-- One call after another, in the order of the statements.
infixl 5 ◌>>◌
abbrev pub ◌>>◌ : Write → Write → Write
◌>>◌ first second out = second (first out)

unfoldable pub write_u8 : ℕ → Write
write_u8 value out = out ++ (value ∷ [])

-- `(value >> shift) & 0xFF`
abbrev pub octet : ℕ → ℕ → ℕ
octet value shift = value / 2 ^ shift % 256

unfoldable pub write_u32 : ℕ → Write
write_u32 value = do
  write_u8 (octet value 24)
  write_u8 (octet value 16)
  write_u8 (octet value 8)
  write_u8 (octet value 0)

-- `for (int i = 7; i >= 0; --i)`, by the rounds left.
unfoldable pub write_octets : ℕ → ℕ → Write
write_octets zero value out = out
write_octets (suc i) value out = write_octets i value (write_u8 (octet value (8 * i)) out)

unfoldable pub write_u64 : ℕ → Write
write_u64 value = write_octets 8 value

-- The length is cast to 32 bits.
unfoldable pub write_bytes : Bytes → Write
write_bytes value out = write_u32 (length value % 2 ^ 32) out ++ value

unfoldable pub write_string : Bytes → Write
write_string value = write_bytes value

-- OptionalU32 and OptionalBytes are the same code around another method.
unfoldable pub write_optional : {A : Type 0} → (A → Write) → Option A → Write
write_optional write none = write_u8 0
write_optional write (some value) = do write_u8 1; write value

unfoldable pub write_optional_u32 : Option ℕ → Write
write_optional_u32 = write_optional write_u32

unfoldable pub write_optional_bytes : Option Bytes → Write
write_optional_bytes = write_optional write_bytes

-- `w` appends `text`, whatever stands before.
pub record Writes (w : Write) (text : Bytes) : Type 0 where
  pub appends : (out : Bytes) → w out ≡ out ++ text

pub Writes-seq :
    {first second : Write} (xs ys : Bytes)
    → Writes first xs
    → Writes second ys
    → Writes (first >> second) (xs ++ ys)
Writes-seq {first} {second} xs ys f g = record {
  appends = λ out. rw (f.appends out, g.appends (out ++ xs)) (append_assoc out xs ys);
}

abbrev pub u8_text : ℕ → Bytes
u8_text v = v ∷ []

pub write_u8-Writes : (value : ℕ) → Writes (write_u8 value) (u8_text value)
unfolding write_u8
write_u8-Writes value = record { appends = λ out. refl }

abbrev pub u32_text : ℕ → Bytes
u32_text v = octet v 24 ∷ octet v 16 ∷ octet v 8 ∷ octet v 0 ∷ []

pub write_u32-Writes : (value : ℕ) → Writes (write_u32 value) (u32_text value)
unfolding write_u32 write_u8
write_u32-Writes value = record { appends = λ out. simp append_assoc }

abbrev pub u64_text : ℕ → Bytes
u64_text v =
    octet v 56
    ∷ octet v 48
    ∷ octet v 40
    ∷ octet v 32
    ∷ octet v 24
    ∷ octet v 16
    ∷ octet v 8
    ∷ octet v 0
    ∷ []

pub write_u64-Writes : (value : ℕ) → Writes (write_u64 value) (u64_text value)
unfolding write_u64 write_octets write_u8
write_u64-Writes value = record { appends = λ out. simp append_assoc }

pub write_bytes-Writes :
    (value : Bytes) → Writes (write_bytes value) (u32_text (length value % 2 ^ 32) ++ value)
unfolding write_bytes
write_bytes-Writes value = record {
  appends = λ out.
      rw ((write_u32-Writes (length value % 2 ^ 32)).appends out)
        (append_assoc out (u32_text (length value % 2 ^ 32)) value);
}
