-- ===== src/Protocol/Serialization/Fields.antt =====
-- Bytes, String, OptionalU32 and OptionalBytes of the Writer and the Reader.
use pqchat.Prelude.{
  ==_iff, All, All-append_left, Bool-cases, Bytes, IsByte, IsU32, Option, String, [], ap, arith,
  drop, drop-append, false, inl, inr, length, length-append, length-take, le→ltb-false, ltb,
  ltb-false→le, none, refl, some, subst, sym, take, take-append, take-append-drop, true, ℕ, ◌%◌,
  ◌++◌, ◌<◌, ◌==◌, ◌^◌, ◌∙◌, ◌∷◌, ◌≡◌, ◌≤◌,
}
use pqchat.Protocol.Serialization.Codec.{
  At, Codec, Decodes, Decodes-fail, Decodes-field, Decodes-last, Decodes-pure, Decodes-weaken,
  Reads, Reads-field, Reads-last, Reads-pure, Split, Split-returned, Writes-field, advance-At,
}
use pqchat.Protocol.Serialization.Reader.{
  Read, Reader, advance, exceeds_limit, fail, max_field_bytes, max_string_bytes, read_bytes,
  read_bytes_within, read_optional, read_optional_bytes, read_optional_u32, read_slice, read_string,
}
use pqchat.Protocol.Serialization.Words.{IsU32-codec, enough, u8_codec}
use pqchat.Protocol.Serialization.Writer.{
  Write, Writes, u32_text, write_bytes, write_bytes-Writes, write_optional, write_optional_bytes,
  write_optional_u32, write_string, write_u8-Writes,
}

-- The bounds within which a field is read back.
pub record FitsWithin (max : ℕ) (value : Bytes) : Type 0 where
  pub within : length value ≤ max
  pub octets : All IsByte value

abbrev pub BytesFit : Bytes → Type 0
BytesFit = FitsWithin max_field_bytes

abbrev pub StringFits : Bytes → Type 0
StringFits = FitsWithin max_string_bytes

abbrev pub OptionalFits : {A : Type 0} → (A → Type 0) → Option A → Type 0
OptionalFits Fits none = Unit
OptionalFits Fits (some v) = Fits v

abbrev pub bytes_text : Bytes → Bytes
bytes_text value = u32_text (length value % 2 ^ 32) ++ value

pub remaining-At : {r : Reader} {input : Bytes} → At r input → drop r.pos r.bytes ≡ input
remaining-At {r} {input} at = rw (at.whole, at.place) (drop-append at.front input)

read_slice_short :
    (r : Reader) (input : Bytes) (len : ℕ)
    → At r input
    → ltb (length input) len ≡ true
    → read_slice len r ≡ fail "unexpected EOF while reading bytes" r
unfolding read_slice
read_slice_short r input len at h = rw (enough len at, h)

read_slice_full :
    (r : Reader) (input : Bytes) (len : ℕ)
    → At r input
    → ltb (length input) len ≡ false
    → read_slice len r ≡ (some (take len input), advance r len)
unfolding read_slice
read_slice_full r input len at h = rw (enough len at, h, remaining-At at)

pub read_slice-Reads : (value : Bytes) → Reads (read_slice (length value)) value value
read_slice-Reads value = record {
  accepts = λ r rest at. record {
    after = advance r (length value);
    returns =
        read_slice_full r (value ++ rest) (length value) at
          (le→ltb-false _ _ (omega (arith, length-append value rest)))
        ∙ rw (take-append value rest);
    at = advance-At value rest (length value) refl at;
  };
}

abbrev IsSlice : ℕ → Bytes → Bytes → Type 0
IsSlice len xs v = (xs ≡ v) × (length v ≡ len) × All IsByte v

IsSlice-Split :
    (r : Reader) (input : Bytes) (len : ℕ)
    → At r input
    → All IsByte input
    → len ≤ length input
    → Split (IsSlice len) (take len input) input (advance r len)
IsSlice-Split r input len at bytes h = record {
  text = take len input;
  rest = drop len input;
  parts = sym parts;
  at = advance-At (take len input) (drop len input) len size (subst (At r) (sym parts) at);
  holds = (
    refl,
    size,
    All-append_left IsByte (take len input) (drop len input) (subst (All IsByte) (sym parts) bytes),
  );
}
  where
    parts : take len input ++ drop len input ≡ input
    parts = take-append-drop len input

    size : length (take len input) ≡ len
    size = omega (arith, length-take len input)

read_slice_decodes : (len : ℕ) → Decodes (read_slice len) (IsSlice len)
read_slice_decodes len = record {
  splits = λ r input v r' at bytes e. elim (Bool-cases (ltb (length input) len)) [
    | inl short ↦ cc (read_slice_short r input len at short)
    | inr full ↦
        Split-returned (IsSlice len) (read_slice_full r input len at full) e
          (IsSlice-Split r input len at bytes (ltb-false→le _ _ full))
  ];
}

module _ (max : ℕ) (label : String) (small : max < 2 ^ 32) where
  length_kept : (v : Bytes) → length v ≤ max → length v % 2 ^ 32 ≡ length v
  length_kept v h = omega arith

  bytes-Reads :
      (v : Bytes) → FitsWithin max v → Reads (read_bytes_within max label) (bytes_text v) v
  unfolding read_bytes_within
  bytes-Reads v h =
      Reads-field IsU32-codec _ (length v % 2 ^ 32) v v (omega arith)
        (rw (length_kept v h.within, le→ltb-false max (length v) h.within) (read_slice-Reads v))

  bytes_decodes :
      Decodes (read_bytes_within max label) (λ xs v. (xs ≡ bytes_text v) × FitsWithin max v)
  unfolding read_bytes_within
  bytes_decodes = Decodes-field IsU32-codec _ _ λ len h. elim (Bool-cases (ltb max len)) [
    | inl over ↦ rw over (Decodes-fail (exceeds_limit label) _)
    | inr under ↦ rw under (
        Decodes-weaken _ _ (read_slice_decodes len) λ xs v p.
          let kept : length v % 2 ^ 32 ≡ len = omega (arith, p.1) in
          (
            rw (p.0, kept),
            record { within = omega (arith, p.1, ltb-false→le max len under); octets = p.2 },
          ))
  ]

  pub bytes_within_codec :
      Codec write_bytes (read_bytes_within max label) bytes_text (FitsWithin max)
  bytes_within_codec = record {
    writes = write_bytes-Writes;
    parses = record { reads = bytes-Reads; decodes = bytes_decodes };
  }

pub bytes_codec : Codec write_bytes read_bytes bytes_text BytesFit
unfolding read_bytes
bytes_codec = bytes_within_codec max_field_bytes "bytes" (omega arith)

pub string_codec : Codec write_string read_string bytes_text StringFits
unfolding read_string write_string
string_codec = bytes_within_codec max_string_bytes "string" (omega arith)

abbrev pub optional_text : {A : Type 0} → (A → Bytes) → Option A → Bytes
optional_text text none = 0 ∷ []
optional_text text (some v) = 1 ∷ text v

module _ {A : Type 0} {write : A → Write} {read : Read A} {text : A → Bytes} {Fits : A → Type 0}
    (c : Codec write read text Fits) where
  pub optional-Writes : (v : Option A) → Writes (write_optional write v) (optional_text text v)
  unfolding write_optional
  optional-Writes none = write_u8-Writes 0
  optional-Writes (some v) = Writes-field u8_codec 1 (text v) (c.writes v)

  module _ (invalid_tag : String) where
    optional-Reads :
        (v : Option A)
        → OptionalFits Fits v
        → Reads (read_optional read invalid_tag) (optional_text text v) v
    unfolding read_optional
    optional-Reads none h = Reads-field u8_codec _ 0 [] none (omega arith) (Reads-pure none)
    optional-Reads (some v) h =
        Reads-field u8_codec _ 1 (text v) (some v) (omega arith) (Reads-last c some v h)

    optional_decodes :
        Decodes
          (read_optional read invalid_tag)
          (λ xs v. (xs ≡ optional_text text v) × OptionalFits Fits v)
    unfolding read_optional
    optional_decodes = Decodes-field u8_codec _ _ λ tag h. elim (Bool-cases (tag == 0)) [
      | inl zero_tag ↦
          rw zero_tag (Decodes-pure none _ (ap (λ (t : ℕ). t ∷ []) ((==_iff tag 0).0 zero_tag), tt))
      | inr other ↦ elim (Bool-cases (tag == 1)) [
        | inl one_tag ↦
            rw (other, one_tag)
              (Decodes-last c some _
                λ v hv. (ap (λ (t : ℕ). t ∷ text v) ((==_iff tag 1).0 one_tag), hv))
        | inr bad ↦ rw (other, bad) (Decodes-fail invalid_tag _)
      ]
    ]

    optional_codec :
        Codec
          (write_optional write)
          (read_optional read invalid_tag)
          (optional_text text)
          (OptionalFits Fits)
    optional_codec = record {
      writes = optional-Writes;
      parses = record { reads = optional-Reads; decodes = optional_decodes };
    }

pub optional-IsU32_codec :
    Codec write_optional_u32 read_optional_u32 (optional_text u32_text) (OptionalFits IsU32)
unfolding write_optional_u32 read_optional_u32
optional-IsU32_codec = optional_codec IsU32-codec "invalid optional u32 tag"

pub optional_bytes_codec :
    Codec write_optional_bytes read_optional_bytes
      (optional_text bytes_text)
      (OptionalFits BytesFit)
unfolding write_optional_bytes read_optional_bytes
optional_bytes_codec = optional_codec bytes_codec "invalid optional bytes tag"
