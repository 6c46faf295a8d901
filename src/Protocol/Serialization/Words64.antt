-- ===== src/Protocol/Serialization/Words64.antt =====
-- U64 of the Writer and the Reader.
use pqchat.Prelude.{
  All, Bytes, IsByte, IsU64, [], arith, bit_or, bit_or_disjoint, length, le→ltb-false, lt→ltb, refl,
  some, sym, ℕ, ◌*◌, ◌+◌, ◌<◌, ◌^◌, ◌∷◌, ◌≡◌,
}
use pqchat.Protocol.Serialization.Codec.{
  At, Codec, Reads, Split, Split-returned, advance-At, peek-At,
}
use pqchat.Protocol.Serialization.Reader.{Reader, advance, fail, load_octets, read_u64, shl64}
use pqchat.Protocol.Serialization.Words.{enough}
use pqchat.Protocol.Serialization.Writer.{octet, u64_text, write_u64, write_u64-Writes}

abbrev push : ℕ → ℕ → ℕ
push v b = bit_or (shl64 v 8) b

push_octet : (v b : ℕ) → v < 2 ^ 56 → b < 256 → push v b ≡ v * 256 + b
push_octet v b hv hb = ground (arith, bit_or_disjoint 8 v b)

-- What the eight rounds of the loop of U64 compute.
unfoldable load_u64 : ℕ → ℕ → ℕ → ℕ → ℕ → ℕ → ℕ → ℕ → ℕ
load_u64 a b c d m f o k = push (push (push (push (push (push (push (push 0 a) b) c) d) m) f) o) k

load_u64_sum :
    (a b c d m f o k : ℕ)
    → a < 256
    → b < 256
    → c < 256
    → d < 256
    → m < 256
    → f < 256
    → o < 256
    → k < 256
    → load_u64 a b c d m f o k
      ≡ ((((((a * 256 + b) * 256 + c) * 256 + d) * 256 + m) * 256 + f) * 256 + o) * 256 + k
unfolding load_u64
load_u64_sum a b c d m f o k ha hb hc hd hm hf ho hk = ground (
  arith,
  push_octet 0 a,
  push_octet a b,
  push_octet (a * 256 + b) c,
  push_octet ((a * 256 + b) * 256 + c) d,
  push_octet (((a * 256 + b) * 256 + c) * 256 + d) m,
  push_octet ((((a * 256 + b) * 256 + c) * 256 + d) * 256 + m) f,
  push_octet (((((a * 256 + b) * 256 + c) * 256 + d) * 256 + m) * 256 + f) o,
  push_octet ((((((a * 256 + b) * 256 + c) * 256 + d) * 256 + m) * 256 + f) * 256 + o) k,
)

u64_octets :
    (v : ℕ)
    → v < 2 ^ 64
    → load_u64
        (octet v 56)
        (octet v 48)
        (octet v 40)
        (octet v 32)
        (octet v 24)
        (octet v 16)
        (octet v 8)
        (octet v 0)
      ≡ v
u64_octets v h = omega (
  arith,
  load_u64_sum (octet v 56) (octet v 48) (octet v 40) (octet v 32) (octet v 24) (octet v 16)
      (octet v 8) (octet v 0) (omega arith) (omega arith) (omega arith) (omega arith) (omega arith)
      (omega arith) (omega arith) (omega arith),
)

octets-IsU64 :
    (a b c d m f o k : ℕ)
    → a < 256
    → b < 256
    → c < 256
    → d < 256
    → m < 256
    → f < 256
    → o < 256
    → k < 256
    → (u64_text (load_u64 a b c d m f o k) ≡ a ∷ b ∷ c ∷ d ∷ m ∷ f ∷ o ∷ k ∷ [])
      × IsU64 (load_u64 a b c d m f o k)
octets-IsU64 a b c d m f o k ha hb hc hd hm hf ho hk = ground (arith, load_u64_sum a b c d m f o k)

u64_short :
    (r : Reader) (input : Bytes)
    → At r input
    → length input < 8
    → read_u64 r ≡ fail "unexpected EOF while reading u64" r
unfolding read_u64
u64_short r input at h = rw (enough 8 at, lt→ltb _ 8 h)

u64_full :
    (r : Reader) (a b c d m f o k : ℕ) (rest : Bytes)
    → At r (a ∷ b ∷ c ∷ d ∷ m ∷ f ∷ o ∷ k ∷ rest)
    → read_u64 r ≡ (some (load_u64 a b c d m f o k), advance r 8)
unfolding read_u64 load_octets load_u64
u64_full r a b c d m f o k rest at = rw (
  enough 8 at,
  le→ltb-false (length (a ∷ b ∷ c ∷ d ∷ m ∷ f ∷ o ∷ k ∷ rest)) 8 (omega arith),
  peek-At 0 at,
  peek-At 1 at,
  peek-At 2 at,
  peek-At 3 at,
  peek-At 4 at,
  peek-At 5 at,
  peek-At 6 at,
  peek-At 7 at,
)

u64-Reads : (v : ℕ) → IsU64 v → Reads read_u64 (u64_text v) v
u64-Reads v h = record {
  accepts = λ r rest at. record {
    after = advance r 8;
    returns = rw (u64_full r _ _ _ _ _ _ _ _ rest at, u64_octets v h);
    at = advance-At (u64_text v) rest 8 refl at;
  };
}

IsU64-splits :
    (r : Reader) (input : Bytes) (v : ℕ) (r' : Reader)
    → At r input
    → All IsByte input
    → read_u64 r ≡ (some v, r')
    → Split (λ xs w. (xs ≡ u64_text w) × IsU64 w) v input r'
IsU64-splits r [] v r' at h e = cc (u64_short r _ at (omega arith))
IsU64-splits r (a ∷ []) v r' at h e = cc (u64_short r _ at (omega arith))
IsU64-splits r (a ∷ b ∷ []) v r' at h e = cc (u64_short r _ at (omega arith))
IsU64-splits r (a ∷ b ∷ c ∷ []) v r' at h e = cc (u64_short r _ at (omega arith))
IsU64-splits r (a ∷ b ∷ c ∷ d ∷ []) v r' at h e = cc (u64_short r _ at (omega arith))
IsU64-splits r (a ∷ b ∷ c ∷ d ∷ m ∷ []) v r' at h e = cc (u64_short r _ at (omega arith))
IsU64-splits r (a ∷ b ∷ c ∷ d ∷ m ∷ f ∷ []) v r' at h e = cc (u64_short r _ at (omega arith))
IsU64-splits r (a ∷ b ∷ c ∷ d ∷ m ∷ f ∷ o ∷ []) v r' at h e = cc (u64_short r _ at (omega arith))
IsU64-splits r (a ∷ b ∷ c ∷ d ∷ m ∷ f ∷ o ∷ k ∷ rest) v r' at h e =
    Split-returned (λ xs w. (xs ≡ u64_text w) × IsU64 w) (u64_full r a b c d m f o k rest at) e here
  where
    back :
        (u64_text (load_u64 a b c d m f o k) ≡ a ∷ b ∷ c ∷ d ∷ m ∷ f ∷ o ∷ k ∷ [])
        × IsU64 (load_u64 a b c d m f o k)
    back =
        octets-IsU64 a b c d m f o k h.0 h.1.0 h.1.1.0 h.1.1.1.0 h.1.1.1.1.0 h.1.1.1.1.1.0
          h.1.1.1.1.1.1.0 h.1.1.1.1.1.1.1.0

    here :
        Split
          (λ xs w. (xs ≡ u64_text w) × IsU64 w)
          (load_u64 a b c d m f o k)
          (a ∷ b ∷ c ∷ d ∷ m ∷ f ∷ o ∷ k ∷ rest)
          (advance r 8)
    here = record {
      text = a ∷ b ∷ c ∷ d ∷ m ∷ f ∷ o ∷ k ∷ [];
      rest = rest;
      parts = refl;
      at = advance-At (a ∷ b ∷ c ∷ d ∷ m ∷ f ∷ o ∷ k ∷ []) rest 8 refl at;
      holds = (sym back.0, back.1);
    }

pub IsU64-codec : Codec write_u64 read_u64 u64_text IsU64
IsU64-codec = record {
  writes = write_u64-Writes;
  parses = record { reads = u64-Reads; decodes = record { splits = IsU64-splits } };
}
