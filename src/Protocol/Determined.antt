-- ===== src/Protocol/Determined.antt =====
-- Writers whose output can be cut back into fields in one way only: the bytes determine the values.
-- The readers of the encodings show it for single fields; sequences follow.
use pqchat.Prelude.{
  Bytes, IsU32, IsU64, [], ap, append_assoc, ap₂, arith, drop, subst, sym, ◌++◌, ◌-◌, ◌^◌, ◌∙◌, ◌≡◌,
}
use pqchat.Protocol.Serialization.Codec.{Accepted, At, Codec, new_reader-At}
use pqchat.Protocol.Serialization.Envelopes.{take_written}
use pqchat.Protocol.Serialization.Fields.{FitsWithin, bytes_within_codec, remaining-At}
use pqchat.Protocol.Serialization.Reader.{Read, Reader, new_reader}
use pqchat.Protocol.Serialization.Words.{IsU32-codec}
use pqchat.Protocol.Serialization.Words64.{IsU64-codec}
use pqchat.Protocol.Serialization.Writer.{
  Write, Writes, Writes-seq, write_bytes, write_string, write_u32, write_u64, ◌>>◌,
}

-- What a writer appends determines the value and what follows it.
pub record Determined {ℓ} {A : Type ℓ} (write : A → Write) (Fits : A → Type 0) : Type ℓ where
  pub text : A → Bytes
  pub writes : (v : A) → Writes (write v) (text v)
  pub cancels :
      (v w : A) (xs ys : Bytes)
      → Fits v
      → Fits w
      → text v ++ xs ≡ text w ++ ys
      → (v ≡ w) × (xs ≡ ys)

module _ {A : Type 0} {write : A → Write} {m : Read A} {text : A → Bytes} {Fits : A → Type 0}
    (c : Codec write m text Fits) where
  Codec-Determined : Determined write Fits
  Codec-Determined = record { text = text; writes = c.writes; cancels = cut }
    where
      cut :
          (v w : A) (xs ys : Bytes)
          → Fits v
          → Fits w
          → text v ++ xs ≡ text w ++ ys
          → (v ≡ w) × (xs ≡ ys)
      cut v w xs ys hv hw e = (
        same_value,
        sym (remaining-At a.at)
            ∙ ap (λ (t : Reader). drop t.pos t.bytes) same_reader
            ∙ remaining-At b.at,
      )
        where
          r : Reader
          r = new_reader (text v ++ xs)

          a : Accepted m r xs v
          a = (c.reads v hv).accepts r xs (new_reader-At (text v ++ xs))

          b : Accepted m r ys w
          b = (c.reads w hw).accepts r ys (subst (At r) e (new_reader-At (text v ++ xs)))

          same_value : v ≡ w
          same_value = cc (a.returns, b.returns)

          same_reader : a.after ≡ b.after
          same_reader = cc (a.returns, b.returns)

module _ {A B : Type 0} {write : A → Write} {write' : B → Write} {Fits : A → Type 0}
    {Fits' : B → Type 0} where
  -- One field after another.
  pub Determined-pair :
      Determined write Fits
      → Determined write' Fits'
      → Determined (λ (p : A × B). write p.0 >> write' p.1) (λ p. Fits p.0 × Fits' p.1)
  Determined-pair c d = record {
    text = λ p. c.text p.0 ++ d.text p.1;
    writes = λ p. Writes-seq (c.text p.0) (d.text p.1) (c.writes p.0) (d.writes p.1);
    cancels = λ p q xs ys hp hq e.
        let first = c.cancels p.0 q.0 (d.text p.1 ++ xs) (d.text q.1 ++ ys) hp.0 hq.0 (
          sym (append_assoc (c.text p.0) (d.text p.1) xs)
          ∙ e
          ∙ append_assoc (c.text q.0) (d.text q.1) ys) in
        let second = d.cancels p.1 q.1 xs ys hp.1 hq.1 first.1 in
        (ap₂ (λ a b. (a, b)) first.0 second.0, second.1);
  }

module _ {A : Type 0} {write : A → Write} {Fits : A → Type 0} where
  -- The whole output determines the value.
  pub Determined-whole :
      Determined write Fits
      → (v w : A) → Fits v
      → Fits w
      → take_written (write v) ≡ take_written (write w)
      → v ≡ w
  Determined-whole c v w hv hw e =
      (c.cancels v w [] [] hv hw (
        ap (λ (t : Bytes). t ++ [])
          (sym ((c.writes v).appends []) ∙ e ∙ (c.writes w).appends []))).0

-- Fields as transport_auth.cpp, prekey_bundle.cpp and messages.cpp write them: a length of 32 bits.
abbrev pub FieldFits : Bytes → Type 0
FieldFits = FitsWithin (2 ^ 32 - 1)

pub bytes_Determined : Determined write_bytes FieldFits
bytes_Determined = Codec-Determined (bytes_within_codec (2 ^ 32 - 1) "" (omega arith))

pub string_Determined : Determined write_string FieldFits
unfolding write_string
string_Determined = bytes_Determined

pub IsU32-Determined : Determined write_u32 IsU32
IsU32-Determined = Codec-Determined IsU32-codec

pub IsU64-Determined : Determined write_u64 IsU64
IsU64-Determined = Codec-Determined IsU64-codec
