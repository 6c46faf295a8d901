-- ===== src/Server/InMemory/Hex.antt =====
-- Names and hexadecimal texts: is_valid_user_id to decode_hex of src/server/in_memory_server.cpp, and
-- the texts that its streams print.
use pqchat.Prelude.{
  Bool, Bytes, Option, [], bit_or, false, if◌then◌else◌, leb, length, ltb, none, not, some, true, ℕ,
  ◌%◌, ◌&&◌, ◌*◌, ◌+◌, ◌-◌, ◌/◌, ◌==◌, ◌^◌, ◌||◌, ◌∷◌,
}
use pqchat.Result.{Result, err, ok, ◌>>=◌}

abbrev max_user_id_bytes : ℕ
max_user_id_bytes = 64

abbrev challenge_id_hex_bytes : ℕ
challenge_id_hex_bytes = 32

-- `c >= low && c <= high`
abbrev pub between : ℕ → ℕ → ℕ → Bool
between low high c = leb low c && leb c high

unfoldable pub is_user_id_char : ℕ → Bool
is_user_id_char c = between 97 122 c || between 48 57 c || c == 45 || c == 95 || c == 46

abbrev pub every : (ℕ → Bool) → Bytes → Bool
every p [] = true
every p (c ∷ cs) = p c && every p cs

unfoldable pub is_valid_user_id : Bytes → Bool
is_valid_user_id user_id =
    if (length user_id == 0) || ltb max_user_id_bytes (length user_id)
    then false
    else every is_user_id_char user_id

-- No value stands for -1.
unfoldable pub hex_value : ℕ → Option ℕ
hex_value c =
    if between 48 57 c
    then some (c - 48)
    else if between 97 102 c
    then some (10 + (c - 97))
    else if between 65 70 c
    then some (10 + (c - 65))
    else none

abbrev is_some : {A : Type 0} → Option A → Bool
is_some none = false
is_some (some a) = true

unfoldable pub is_valid_hex_string : Bytes → Bool
is_valid_hex_string value = every (λ c. is_some (hex_value c)) value

unfoldable pub is_valid_challenge_id : Bytes → Bool
is_valid_challenge_id challenge_id =
    (length challenge_id == challenge_id_hex_bytes) && is_valid_hex_string challenge_id

-- `static_cast<uint8_t>((hi << 4) | lo)`
abbrev join_digits : ℕ → ℕ → ℕ
join_digits hi lo = bit_or (hi * 2 ^ 4) lo % 256

abbrev join_values : Option ℕ → Option ℕ → Result ℕ
join_values (some hi) (some lo) = ok (join_digits hi lo)
join_values _ _ = err "invalid hex character"

-- The loop over the pairs. A single last character has the string's terminating zero beside it.
unfoldable pub decode_pairs : Bytes → Result Bytes
decode_pairs [] = ok []
decode_pairs (a ∷ []) = err "invalid hex character"
decode_pairs (a ∷ b ∷ rest) = do
  value ← join_values (hex_value a) (hex_value b)
  tail ← decode_pairs rest
  ok (value ∷ tail)

unfoldable pub decode_hex : Bytes → Result Bytes
decode_hex hex = if not (length hex % 2 == 0) then err "invalid hex length" else decode_pairs hex

-- `std::hex << std::setfill('0') << std::setw(2)` of each byte
abbrev hex_digit : ℕ → ℕ
hex_digit v = if ltb v 10 then 48 + v else 87 + v

unfoldable pub to_hex : Bytes → Bytes
to_hex [] = []
to_hex (b ∷ bytes) = hex_digit (b / 16) ∷ hex_digit (b % 16) ∷ to_hex bytes
