-- ===== src/Protocol/Serialization/VectorCodecs.antt =====
-- Sequences of envelopes are read back: the vectors of src/protocol/serialization.cpp.
use pqchat.Prelude.{
  All, Bytes, List, String, [], ap, append-nil, ap₂, arith, length, refl, subst, suc, zero, ℕ, ◌%◌,
  ◌++◌, ◌^◌, ◌∙◌, ◌∷◌, ◌≡◌, ◌≤◌,
}
use pqchat.Protocol.Serialization.Codec.{Decodes, Decodes-weaken, Parses, Reads}
use pqchat.Protocol.Serialization.Envelopes.{read_count, read_rounds}
use pqchat.Protocol.Serialization.Items.{counted_text, items_text, limit_decodes, limit-Reads}
use pqchat.Protocol.Serialization.Reader.{Reader, limit_u32, max_envelope_vector_items, read_u32}
use pqchat.Protocol.Serialization.Whole.{
  Decodes-done, Decodes-run, Decodes-run_map, Decodes-then, Reads-done, Reads-run, Reads-run_map,
  Reads-then, attempt, run,
}
use pqchat.Protocol.Serialization.Words.{IsU32-codec}
use pqchat.Protocol.Serialization.Writer.{u32_text}
use pqchat.Result.{Result, ok, ◌>>=◌}

module _ {A : Type 0} {text : A → Bytes} {Fits : A → Type 0} (item : Reader → Result (A × Reader))
    (c : Parses (attempt item) text Fits) where
  rounds-Reads :
      (xs : List A)
      → All Fits xs
      → Reads (attempt (read_rounds item (length xs))) (items_text text xs) xs
  unfolding read_rounds items_text
  rounds-Reads [] h = Reads-done []
  rounds-Reads (x ∷ xs) h =
      Reads-then item (λ v r. read_rounds item (length xs) r >>= λ p. ok (v ∷ p.0, p.1)) (text x) _
        x (x ∷ xs) (c.reads x h.0)
        (subst
          (λ ts.
            Reads (attempt (λ r. read_rounds item (length xs) r >>= λ p. ok (x ∷ p.0, p.1))) ts
              (x ∷ xs))
          (append-nil _)
          (Reads-then (read_rounds item (length xs)) (λ ys r. ok (x ∷ ys, r)) _ [] xs (x ∷ xs)
            (rounds-Reads xs h.1) (Reads-done (x ∷ xs))))

  rounds_decodes :
      (n : ℕ)
      → Decodes
          (attempt (read_rounds item n))
          (λ ts xs. (ts ≡ items_text text xs) × (length xs ≡ n) × All Fits xs)
  unfolding read_rounds items_text
  rounds_decodes zero = Decodes-done [] _ (refl, refl, tt)
  rounds_decodes (suc n) =
      Decodes-then item (λ v r. read_rounds item n r >>= λ p. ok (v ∷ p.0, p.1)) _ _ c.decodes
        λ x ts p.
          Decodes-then (read_rounds item n) (λ ys r. ok (x ∷ ys, r)) _ _ (rounds_decodes n)
            λ xs us q.
              Decodes-done (x ∷ xs) _ (ap₂ ◌++◌ p.0 (append-nil us ∙ q.0), ap suc q.1, (p.1, q.2))

-- The count of a vector.
module _ (label prefix : String) where
  count-Reads :
      (n : ℕ)
      → n ≤ max_envelope_vector_items
      → Reads (attempt (read_count label prefix)) (u32_text n) n
  unfolding read_count
  count-Reads n h =
      Reads-then (run read_u32 prefix)
        (λ count r.
          run (limit_u32 count max_envelope_vector_items label) prefix r >>= λ p. ok (count, p.1))
        (u32_text n) [] n n
        (Reads-run read_u32 prefix (u32_text n) n (IsU32-codec.reads n (omega (arith, h))))
        (Reads-run_map (limit_u32 n max_envelope_vector_items label) prefix (λ _. n) [] tt
          (limit-Reads max_envelope_vector_items label n h))

  count_decodes :
      Decodes
        (attempt (read_count label prefix))
        (λ xs n. (xs ≡ u32_text n) × (n ≤ max_envelope_vector_items))
  unfolding read_count
  count_decodes =
      Decodes-then (run read_u32 prefix)
        (λ count r.
          run (limit_u32 count max_envelope_vector_items label) prefix r >>= λ p. ok (count, p.1))
        _ _ (Decodes-run read_u32 prefix _ IsU32-codec.decodes)
        λ n xs p.
          Decodes-run_map (limit_u32 n max_envelope_vector_items label) prefix (λ _. n) _ _
            (limit_decodes max_envelope_vector_items label n) λ es _ q. (rw (p.0, q.0), q.1)

pub record VectorFits {A : Type 0} (Fits : A → Type 0) (xs : List A) : Type 0 where
  pub count : length xs ≤ max_envelope_vector_items
  pub items : All Fits xs

module _ {A : Type 0} {text : A → Bytes} {Fits : A → Type 0} (item : Reader → Result (A × Reader))
    (c : Parses (attempt item) text Fits) (label prefix : String) where
  pub vector_parses :
      Parses
        (attempt (λ r. read_count label prefix r >>= λ p. read_rounds item p.0 p.1))
        (counted_text text)
        (VectorFits Fits)
  unfolding counted_text
  vector_parses = record {
    reads = λ xs h.
        let kept : length xs % 2 ^ 32 ≡ length xs = omega (arith, h.count) in
        rw kept (
          Reads-then (read_count label prefix) (read_rounds item) (u32_text (length xs))
            (items_text text xs) (length xs) xs (count-Reads label prefix (length xs) h.count)
            (rounds-Reads item c xs h.items));
    decodes =
        Decodes-then (read_count label prefix) (read_rounds item) _ _ (count_decodes label prefix)
          λ n us p. Decodes-weaken _ _ (rounds_decodes item c n) λ ts xs q.
            let kept : length xs % 2 ^ 32 ≡ n = omega (arith, p.1, q.1) in
            (rw (p.0, q.0, kept), record { count = omega (arith, p.1, q.1); items = q.2 });
  }
