-- ===== src/Server/InMemory/HexLaws.antt =====
-- Hexadecimal texts: what is printed is read back, and names a byte sequence.
use pqchat.Prelude.{
  All, Bytes, IsByte, [], ap, arith, bit_or, bit_or_disjoint, if◌then◌else◌, length, ltb, refl,
  some, sym, ℕ, ◌%◌, ◌*◌, ◌+◌, ◌/◌, ◌<◌, ◌^◌, ◌∙◌, ◌∷◌, ◌≡◌,
}
use pqchat.Result.{ok, ok-injective}
use pqchat.Server.InMemory.Hex.{decode_hex, decode_pairs, hex_value, to_hex}

hex_value-digit : (v : ℕ) → v < 16 → hex_value (if ltb v 10 then 48 + v else 87 + v) ≡ some v
unfolding hex_value
hex_value-digit v h = ground arith

join_split : (b : ℕ) → b < 256 → bit_or (b / 16 * 2 ^ 4) (b % 16) % 256 ≡ b
join_split b h = omega (arith, bit_or_disjoint 4 (b / 16) (b % 16))

decode_pairs-to_hex : (bytes : Bytes) → All IsByte bytes → decode_pairs (to_hex bytes) ≡ ok bytes
unfolding decode_pairs to_hex
decode_pairs-to_hex [] h = refl
decode_pairs-to_hex (b ∷ bytes) h =
    rw
      (
        hex_value-digit (b / 16) (omega arith),
        hex_value-digit (b % 16) (omega arith),
        decode_pairs-to_hex bytes h.1,
        join_split b h.0,
      )
      refl

length-to_hex : (bytes : Bytes) → length (to_hex bytes) ≡ 2 * length bytes
unfolding to_hex
length-to_hex [] = refl
length-to_hex (b ∷ bytes) = omega (arith, length-to_hex bytes)

-- What the server's streams print of any bytes, `decode_hex` reads back.
decode_hex-to_hex : (bytes : Bytes) → All IsByte bytes → decode_hex (to_hex bytes) ≡ ok bytes
unfolding decode_hex
decode_hex-to_hex bytes h = ground (arith, length-to_hex bytes, decode_pairs-to_hex bytes h)

-- Different byte sequences have different hexadecimal texts: sessions and challenges do not share
-- an entry.
to_hex-injective : (xs ys : Bytes) → All IsByte xs → All IsByte ys → to_hex xs ≡ to_hex ys → xs ≡ ys
to_hex-injective xs ys hx hy e =
    ok-injective (sym (decode_hex-to_hex xs hx) ∙ ap decode_hex e ∙ decode_hex-to_hex ys hy)
