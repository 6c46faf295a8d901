-- ===== src/Protocol/Serialization/Items.antt =====
-- Counted sequences: a 32-bit count and that many items.
use pqchat.Prelude.{
  All, Bool-cases, Bytes, List, String, [], ap, append-nil, arith, inl, inr, length, le→ltb-false,
  ltb, ltb-false→le, refl, suc, sym, zero, ℕ, ◌%◌, ◌++◌, ◌<◌, ◌^◌, ◌∷◌, ◌≡◌, ◌≤◌,
}
use pqchat.Protocol.Serialization.Codec.{
  Codec, Decodes, Decodes-bind, Decodes-fail, Decodes-field, Decodes-map, Decodes-pure,
  Decodes-weaken, Reads, Reads-bind, Reads-field, Reads-map, Reads-pure, Writes-field,
}
use pqchat.Protocol.Serialization.Reader.{Read, exceeds_limit, limit_u32, pure, read_u32, ◌>>=◌}
use pqchat.Protocol.Serialization.Words.{IsU32-codec}
use pqchat.Protocol.Serialization.Writer.{Write, Writes, Writes-seq, u32_text, write_u32, ◌>>◌}

module _ {A : Type 0} where
  unfoldable pub write_items : (A → Write) → List A → Write
  write_items write [] out = out
  write_items write (x ∷ xs) out = write_items write xs (write x out)

  -- The loop, by the rounds left. Each round appends one item.
  unfoldable pub read_items : Read A → ℕ → Read (List A)
  read_items read zero = pure []
  read_items read (suc n) = do item ← read; rest ← read_items read n; pure (item ∷ rest)

  unfoldable pub items_text : (A → Bytes) → List A → Bytes
  items_text text [] = []
  items_text text (x ∷ xs) = text x ++ items_text text xs

  module _ {write : A → Write} {read : Read A} {text : A → Bytes} {Fits : A → Type 0}
      (c : Codec write read text Fits) where
    items-Writes : (xs : List A) → Writes (write_items write xs) (items_text text xs)
    unfolding write_items items_text
    items-Writes [] = record { appends = λ out. sym (append-nil out) }
    items-Writes (x ∷ xs) = Writes-seq (text x) (items_text text xs) (c.writes x) (items-Writes xs)

    items-Reads :
        (xs : List A) → All Fits xs → Reads (read_items read (length xs)) (items_text text xs) xs
    unfolding read_items items_text
    items-Reads [] h = Reads-pure []
    items-Reads (x ∷ xs) h =
        Reads-field c _ x (items_text text xs) (x ∷ xs) h.0
          (Reads-map (λ rest. x ∷ rest) _ xs (items-Reads xs h.1))

    items_decodes :
        (n : ℕ)
        → Decodes
            (read_items read n)
            (λ ts xs. (ts ≡ items_text text xs) × (length xs ≡ n) × All Fits xs)
    unfolding read_items items_text
    items_decodes zero = Decodes-pure [] _ (refl, refl, tt)
    items_decodes (suc n) = Decodes-field c _ _ λ x hx.
        Decodes-map (λ rest. x ∷ rest) _ _ (items_decodes n)
          λ ts xs p. (ap (◌++◌ (text x)) p.0, ap suc p.1, (hx, p.2))

-- LimitU32 lets through what is at most `max`.
module _ (max : ℕ) (label : String) where
  pub limit-Reads : (n : ℕ) → n ≤ max → Reads (limit_u32 n max label) [] tt
  unfolding limit_u32
  limit-Reads n h = rw (le→ltb-false max n h) (Reads-pure tt)

  pub limit_decodes : (n : ℕ) → Decodes (limit_u32 n max label) (λ xs _. (xs ≡ []) × (n ≤ max))
  unfolding limit_u32
  limit_decodes n = elim (Bool-cases (ltb max n)) [
    | inl over ↦ rw over (Decodes-fail (exceeds_limit label) _)
    | inr under ↦ rw under (Decodes-pure tt _ (refl, ltb-false→le max n under))
  ]

-- A sequence whose count the reader holds to `max`.
module _ {A : Type 0} where
  unfoldable pub write_counted : (A → Write) → List A → Write
  write_counted write xs = do write_u32 (length xs % 2 ^ 32); write_items write xs

  unfoldable pub read_counted : ℕ → String → Read A → Read (List A)
  read_counted max label read = do
    count ← read_u32
    _ ← limit_u32 count max label
    read_items read count

  pub record CountedFits (max : ℕ) (Fits : A → Type 0) (xs : List A) : Type 0 where
    pub count : length xs ≤ max
    pub items : All Fits xs

  unfoldable pub counted_text : (A → Bytes) → List A → Bytes
  counted_text text xs = u32_text (length xs % 2 ^ 32) ++ items_text text xs

  module _ {write : A → Write} {read : Read A} {text : A → Bytes} {Fits : A → Type 0} (max : ℕ)
      (label : String) (small : max < 2 ^ 32) (c : Codec write read text Fits) where
    count_kept : (xs : List A) → length xs ≤ max → length xs % 2 ^ 32 ≡ length xs
    count_kept xs h = omega arith

    counted-Reads :
        (xs : List A)
        → CountedFits max Fits xs
        → Reads (read_counted max label read) (counted_text text xs) xs
    unfolding read_counted counted_text
    counted-Reads xs h = rw (count_kept xs h.count) (
        Reads-field IsU32-codec _ (length xs) _ xs (omega (arith, h.count)) (
          Reads-bind _ _ [] _ tt xs (limit-Reads max label (length xs) h.count)
            (items-Reads c xs h.items)))

    counted_decodes :
        Decodes
          (read_counted max label read)
          (λ ts xs. (ts ≡ counted_text text xs) × CountedFits max Fits xs)
    unfolding read_counted counted_text
    counted_decodes = Decodes-field IsU32-codec _ _ λ n hn.
        Decodes-bind _ _ _ _ (limit_decodes max label n) λ _ es small_n.
          Decodes-weaken _ _ (items_decodes c n) λ ts xs p.
            let kept : length xs % 2 ^ 32 ≡ n = omega (arith, p.1) in
            (
              rw (small_n.0, p.0, kept),
              record { count = omega (arith, p.1, small_n.1); items = p.2 },
            )

    pub counted_codec :
        Codec
          (write_counted write)
          (read_counted max label read)
          (counted_text text)
          (CountedFits max Fits)
    unfolding write_counted counted_text
    counted_codec = record {
      writes = λ xs.
          Writes-field IsU32-codec (length xs % 2 ^ 32) (items_text text xs) (items-Writes c xs);
      parses = record { reads = counted-Reads; decodes = counted_decodes };
    }
