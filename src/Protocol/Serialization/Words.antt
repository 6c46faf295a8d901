-- ===== src/Protocol/Serialization/Words.antt =====
-- Integers and single bytes: U8, U32 and U64 of the Writer and the Reader.
use pqchat.Prelude.{
  All, Bytes, IsByte, IsU32, [], arith, bit_or_disjoint, length, le→ltb-false, ltb, lt→ltb, refl,
  some, sym, ℕ, ◌*◌, ◌+◌, ◌<◌, ◌^◌, ◌∷◌, ◌≡◌,
}
use pqchat.Protocol.Serialization.Codec.{
  At, Codec, Reads, Split, Split-returned, advance-At, length-At, peek-At,
}
use pqchat.Protocol.Serialization.Reader.{Reader, advance, fail, load_u32, read_u32, read_u8}
use pqchat.Protocol.Serialization.Writer.{
  octet, u32_text, u8_text, write_u32, write_u32-Writes, write_u8, write_u8-Writes,
}

-- A shifted byte fits its word, so the shift loses nothing.
load_u32_sum :
    (a b c d : ℕ)
    → a < 256
    → b < 256
    → c < 256
    → d < 256
    → load_u32 a b c d ≡ a * 2 ^ 24 + b * 2 ^ 16 + c * 2 ^ 8 + d
unfolding load_u32
load_u32_sum a b c d ha hb hc hd = ground (
  arith,
  bit_or_disjoint 24 a (b * 2 ^ 16),
  bit_or_disjoint 16 (a * 256 + b) (c * 2 ^ 8),
  bit_or_disjoint 8 ((a * 256 + b) * 256 + c) d,
)

-- The end-of-input test, in terms of what is still to be read.
pub enough :
    {r : Reader} {input : Bytes} (n : ℕ)
    → At r input
    → ltb (length r.bytes) (r.pos + n) ≡ ltb (length input) n
enough {r} {input} n at = ground (arith, length-At at)

u32_octets : (v : ℕ) → v < 2 ^ 32 → load_u32 (octet v 24) (octet v 16) (octet v 8) (octet v 0) ≡ v
u32_octets v h = omega (
  arith,
  load_u32_sum (octet v 24) (octet v 16) (octet v 8) (octet v 0) (omega arith) (omega arith)
      (omega arith) (omega arith),
)

-- The text of a word determines its octets, and any four octets are the text of a word.
octets-IsU32 :
    (a b c d : ℕ)
    → a < 256
    → b < 256
    → c < 256
    → d < 256
    → (u32_text (load_u32 a b c d) ≡ a ∷ b ∷ c ∷ d ∷ []) × IsU32 (load_u32 a b c d)
octets-IsU32 a b c d ha hb hc hd = ground (arith, load_u32_sum a b c d)

u8_short :
    (r : Reader) (input : Bytes)
    → At r input
    → length input < 1
    → read_u8 r ≡ fail "unexpected EOF while reading u8" r
unfolding read_u8
u8_short r input at h = rw (enough 1 at, lt→ltb _ 1 h)

u8_full :
    (r : Reader) (a : ℕ) (rest : Bytes) → At r (a ∷ rest) → read_u8 r ≡ (some (a), advance r 1)
unfolding read_u8
u8_full r a rest at =
    rw (enough 1 at, le→ltb-false (length (a ∷ rest)) 1 (omega arith), peek-At 0 at)

u8-Reads : (v : ℕ) → IsByte v → Reads read_u8 (u8_text v) v
u8-Reads v h = record {
  accepts = λ r rest at. record {
    after = advance r 1;
    returns = u8_full r _ rest at;
    at = advance-At (u8_text v) rest 1 refl at;
  };
}

u8_splits :
    (r : Reader) (input : Bytes) (v : ℕ) (r' : Reader)
    → At r input
    → All IsByte input
    → read_u8 r ≡ (some v, r')
    → Split (λ xs w. (xs ≡ u8_text w) × IsByte w) v input r'
u8_splits r [] v r' at h e = cc (u8_short r _ at (omega arith))
u8_splits r (a ∷ rest) v r' at h e =
    Split-returned (λ xs w. (xs ≡ u8_text w) × IsByte w) (u8_full r a rest at) e here
  where
    back : (u8_text (a) ≡ a ∷ []) × IsByte (a)
    back = (refl, h.0)

    here : Split (λ xs w. (xs ≡ u8_text w) × IsByte w) (a) (a ∷ rest) (advance r 1)
    here = record {
      text = a ∷ [];
      rest = rest;
      parts = refl;
      at = advance-At (a ∷ []) rest 1 refl at;
      holds = (sym back.0, back.1);
    }

pub u8_codec : Codec write_u8 read_u8 u8_text IsByte
u8_codec = record {
  writes = write_u8-Writes;
  parses = record { reads = u8-Reads; decodes = record { splits = u8_splits } };
}

u32_short :
    (r : Reader) (input : Bytes)
    → At r input
    → length input < 4
    → read_u32 r ≡ fail "unexpected EOF while reading u32" r
unfolding read_u32
u32_short r input at h = rw (enough 4 at, lt→ltb _ 4 h)

u32_full :
    (r : Reader) (a b c d : ℕ) (rest : Bytes)
    → At r (a ∷ b ∷ c ∷ d ∷ rest)
    → read_u32 r ≡ (some (load_u32 a b c d), advance r 4)
unfolding read_u32
u32_full r a b c d rest at = rw (
  enough 4 at,
  le→ltb-false (length (a ∷ b ∷ c ∷ d ∷ rest)) 4 (omega arith),
  peek-At 0 at,
  peek-At 1 at,
  peek-At 2 at,
  peek-At 3 at,
)

u32-Reads : (v : ℕ) → IsU32 v → Reads read_u32 (u32_text v) v
u32-Reads v h = record {
  accepts = λ r rest at. record {
    after = advance r 4;
    returns = rw (u32_full r _ _ _ _ rest at, u32_octets v h);
    at = advance-At (u32_text v) rest 4 refl at;
  };
}

IsU32-splits :
    (r : Reader) (input : Bytes) (v : ℕ) (r' : Reader)
    → At r input
    → All IsByte input
    → read_u32 r ≡ (some v, r')
    → Split (λ xs w. (xs ≡ u32_text w) × IsU32 w) v input r'
IsU32-splits r [] v r' at h e = cc (u32_short r _ at (omega arith))
IsU32-splits r (a ∷ []) v r' at h e = cc (u32_short r _ at (omega arith))
IsU32-splits r (a ∷ b ∷ []) v r' at h e = cc (u32_short r _ at (omega arith))
IsU32-splits r (a ∷ b ∷ c ∷ []) v r' at h e = cc (u32_short r _ at (omega arith))
IsU32-splits r (a ∷ b ∷ c ∷ d ∷ rest) v r' at h e =
    Split-returned (λ xs w. (xs ≡ u32_text w) × IsU32 w) (u32_full r a b c d rest at) e here
  where
    back : (u32_text (load_u32 a b c d) ≡ a ∷ b ∷ c ∷ d ∷ []) × IsU32 (load_u32 a b c d)
    back = octets-IsU32 a b c d h.0 h.1.0 h.1.1.0 h.1.1.1.0

    here :
        Split
          (λ xs w. (xs ≡ u32_text w) × IsU32 w)
          (load_u32 a b c d)
          (a ∷ b ∷ c ∷ d ∷ rest)
          (advance r 4)
    here = record {
      text = a ∷ b ∷ c ∷ d ∷ [];
      rest = rest;
      parts = refl;
      at = advance-At (a ∷ b ∷ c ∷ d ∷ []) rest 4 refl at;
      holds = (sym back.0, back.1);
    }

pub IsU32-codec : Codec write_u32 read_u32 u32_text IsU32
IsU32-codec = record {
  writes = write_u32-Writes;
  parses = record { reads = u32-Reads; decodes = record { splits = IsU32-splits } };
}
