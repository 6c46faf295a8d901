-- ===== src/Result.antt =====
-- include/pqchat/util/result.h: a value, or the text of an error. `Result<void>` is `Result Unit`.
-- `ok()` of the source asks whether the error text is empty; each `Err` of the modelled code has a
-- text that is not, so the two constructors tell the same.
use pqchat.Prelude.{String, inl, inr, refl, ◌≡◌, ◌⊎◌}

-- A value of the type asked for, or why there is none.
pub data Result {ℓ} (Value : Type ℓ) : Type ℓ where
  ok : Value → Result Value
  err : String → Result Value

-- `if (!first.ok()) return Err(first.error())`, then the statements that use the value.
module _ {ℓ κ} {Value : Type ℓ} {Next : Type κ} where
  infixl 5 ◌>>=◌
  abbrev pub ◌>>=◌ : Result Value → (Value → Result Next) → Result Next
  ◌>>=◌ (err text) continue = err text
  ◌>>=◌ (ok value) continue = continue value

  -- Where the whole returns a value, the first call did, and the rest did with its value.
  pub >>=-eq-ok :
      (first : Result Value) (continue : Value → Result Next) {returned : Next}
      → (first >>= continue) ≡ ok returned
      → (value : Value) × (first ≡ ok value) × (continue value ≡ ok returned)
  >>=-eq-ok (err text) continue e = cc
  >>=-eq-ok (ok value) continue e = (value, refl, e)

module _ {ℓ} {Next : Type ℓ} where
  infixl 5 ◌>>◌
  abbrev pub ◌>>◌ : Result (Unit {0}) → Result Next → Result Next
  ◌>>◌ first rest = first >>= λ _. rest

pub ok-injective {ℓ} : {A : Type ℓ} {x y : A} → ok x ≡ ok y → x ≡ y
ok-injective e = cc

pub Result-cases {ℓ} :
    {A : Type ℓ} (r : Result A) → ((text : String) × (r ≡ err text)) ⊎ ((a : A) × (r ≡ ok a))
Result-cases (ok a) = inr (a, refl)
Result-cases (err text) = inl (text, refl)
