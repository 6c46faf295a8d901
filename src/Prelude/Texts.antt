-- ===== src/Prelude/Texts.antt =====
-- Texts as bytes, equality of byte sequences, and maps keyed by them.
use Prim.Native.Char.{Char, IsScalar, char, code, nul}
use Prim.Native.String.{String}
use Prim.Native.Nat.{ℕ, ◌<◌}
use mathlib.Core.Path.{◌≡◌, refl}
use mathlib.Core.Logic.{◌⊎◌, inl, inr}
use mathlib.Core.Bool.{Bool, true, false, ◌&&◌}
use mathlib.Core.List.{List, [], ◌∷◌}
use mathlib.Core.Option.{Option, none, some}
use pqchat.Prelude.Tests.{Bool-cases, ◌==◌, if◌then◌else◌}
use mathlib.Core.Logic.{dite}
use native.Mathlib.Decide.{dec_lt}
use native.Mathlib.Omega.{arith}

-- The bytes of an ASCII literal.
abbrev pub codes : String → List ℕ
codes String.[] = []
codes (String.◌∷◌ c s) = code c ∷ codes s

pub ascii-IsScalar : (c : ℕ) → c < 128 → IsScalar c
ascii-IsScalar c h = ground arith

abbrev to_char : ℕ → Char
to_char c = dite (dec_lt c 128) (λ h. char c (ascii-IsScalar c h)) (λ _. nul)

-- The text of ASCII bytes.
unfoldable pub to_text : List ℕ → String
to_text [] = ""
to_text (c ∷ cs) = String.◌∷◌ (to_char c) (to_text cs)

-- `==` of std::string and std::vector<uint8_t>.
unfoldable pub bytes_eq : List ℕ → List ℕ → Bool
bytes_eq [] [] = true
bytes_eq [] (y ∷ ys) = false
bytes_eq (x ∷ xs) [] = false
bytes_eq (x ∷ xs) (y ∷ ys) = (x == y) && bytes_eq xs ys

pub bytes_eq_sound : (xs ys : List ℕ) → bytes_eq xs ys ≡ true → xs ≡ ys
unfolding bytes_eq
bytes_eq_sound [] [] e = refl
bytes_eq_sound [] (y ∷ ys) e = ground arith
bytes_eq_sound (x ∷ xs) [] e = ground arith
bytes_eq_sound (x ∷ xs) (y ∷ ys) e = ground (arith, bytes_eq_sound xs ys)

pub bytes_eq_refl : (xs : List ℕ) → bytes_eq xs xs ≡ true
unfolding bytes_eq
bytes_eq_refl [] = refl
bytes_eq_refl (x ∷ xs) = ground (arith, bytes_eq_refl xs)

-- std::unordered_map: what each key holds. No operation of the program depends on the order of the
-- entries or counts them.
abbrev pub Map : Type 0 → Type 0
Map V = List ℕ → Option V

module _ {V : Type 0} where
  abbrev pub empty_map : Map V
  empty_map k = none

  -- `m[k] = v`
  unfoldable pub insert : List ℕ → V → Map V → Map V
  insert k v m j = if bytes_eq k j then some v else m j

  -- `m.erase(it)` at the key `k`
  unfoldable pub erase : List ℕ → Map V → Map V
  erase k m j = if bytes_eq k j then none else m j

  abbrev keep_if : (V → Bool) → Option V → Option V
  keep_if p none = none
  keep_if p (some v) = if p v then some v else none

  -- The loop that erases each entry that fails the test.
  unfoldable pub retain : (V → Bool) → Map V → Map V
  retain p m j = keep_if p (m j)

  pub insert_self : (k : List ℕ) (v : V) (m : Map V) → insert k v m k ≡ some v
  unfolding insert
  insert_self k v m = ground (arith, bytes_eq_refl k)

  -- Another key keeps its entry.
  pub insert_other :
      (k j : List ℕ) (v : V) (m : Map V) → bytes_eq k j ≡ false → insert k v m j ≡ m j
  unfolding insert
  insert_other k j v m h = rw h refl

  pub erase_self : (k : List ℕ) (m : Map V) → erase k m k ≡ none
  unfolding erase
  erase_self k m = ground (arith, bytes_eq_refl k)

  -- What is left was there and passed the test.
  pub retain_sound :
      (p : V → Bool) (m : Map V) (k : List ℕ) (v : V)
      → retain p m k ≡ some v
      → (m k ≡ some v) × (p v ≡ true)
  unfolding retain
  retain_sound p m k v e = go (m k) refl e
    where
      go : (o : Option V) → m k ≡ o → keep_if p o ≡ some v → (m k ≡ some v) × (p v ≡ true)
      go none h e = cc
      go (some w) h e = ground arith

  pub retain-kept :
      (p : V → Bool) (m : Map V) (k : List ℕ) (v : V)
      → m k ≡ some v
      → p v ≡ true
      → retain p m k ≡ some v
  unfolding retain
  retain-kept p m k v h e = rw (h, e) refl

  -- An entry after an insertion is the new one or an old one.
  pub insert-cases :
      (k j : List ℕ) (v w : V) (m : Map V)
      → insert k v m j ≡ some w
      → ((bytes_eq k j ≡ true) × (v ≡ w)) ⊎ ((bytes_eq k j ≡ false) × (m j ≡ some w))
  unfolding insert
  insert-cases k j v w m e = elim (Bool-cases (bytes_eq k j)) [
    | inl same ↦ inl (same, ground arith)
    | inr other ↦ inr (other, ground arith)
  ]
