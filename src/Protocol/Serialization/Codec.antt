-- ===== src/Protocol/Serialization/Codec.antt =====
-- How the readers of Reader.antt meet the writers of Writer.antt: rules for sequences of calls.
-- `Reads m text v` says that `m` accepts `text` in front of any input; `Decodes m Q` says that
-- whatever `m` accepts splits off a text that is related by `Q` to the value.
use pqchat.Prelude.{
  All, All-append_right, Bytes, IsByte, Option, String, [], ap, append-nil, append_assoc, arith,
  get_or, get_or-append, length, length-append, none, refl, some, subst, subst₂, sym, ℕ, ◌++◌, ◌+◌,
  ◌∙◌, ◌≡◌,
}
use pqchat.Protocol.Serialization.Reader.{
  Read, Reader, advance, continue, fail, new_reader, peek, pure, ◌>>=◌,
}
use pqchat.Protocol.Serialization.Writer.{Write, Writes, Writes-seq, ◌>>◌}

-- What is still to be read is `rest`.
pub record At (r : Reader) (rest : Bytes) : Type 0 where
  pub front : Bytes
  pub whole : r.bytes ≡ front ++ rest
  pub place : r.pos ≡ length front

pub new_reader-At : (bytes : Bytes) → At (new_reader bytes) bytes
unfolding new_reader
new_reader-At bytes = record { front = []; whole = refl; place = refl }

pub advance-At :
    {r : Reader} (xs ys : Bytes) (n : ℕ) → length xs ≡ n → At r (xs ++ ys) → At (advance r n) ys
advance-At {r} xs ys n e at = record {
  front = at.front ++ xs;
  whole = at.whole ∙ sym (append_assoc at.front xs ys);
  place = omega (arith, at.place, length-append at.front xs);
}

pub peek-At : {r : Reader} {rest : Bytes} (i : ℕ) → At r rest → peek r i ≡ get_or rest i 0
peek-At {r} {rest} i at = rw (at.whole, at.place) (get_or-append at.front rest i 0)

pub length-At : {r : Reader} {rest : Bytes} → At r rest → length r.bytes ≡ r.pos + length rest
length-At {r} {rest} at = omega (arith, ap length at.whole, at.place, length-append at.front rest)

module _ {A : Type 0} where
  -- The value and the reader that `m` leaves on an input that begins with `text`.
  pub record Accepted (m : Read A) (r : Reader) (rest : Bytes) (v : A) : Type 0 where
    pub after : Reader
    pub returns : m r ≡ (some v, after)
    pub at : At after rest

  pub record Reads (m : Read A) (text : Bytes) (v : A) : Type 0 where
    pub accepts : (r : Reader) (rest : Bytes) → At r (text ++ rest) → Accepted m r rest v

  pub record Split (Q : Bytes → A → Type 0) (v : A) (input : Bytes) (r : Reader) : Type 0 where
    pub text : Bytes
    pub rest : Bytes
    pub parts : input ≡ text ++ rest
    pub at : At r rest
    pub holds : Q text v

  pub record Decodes (m : Read A) (Q : Bytes → A → Type 0) : Type 0 where
    pub splits :
        (r : Reader) (input : Bytes) (v : A) (r' : Reader)
        → At r input
        → All IsByte input
        → m r ≡ (some v, r')
        → Split Q v input r'

  -- A call returns one thing.
  pub Split-returned :
      (Q : Bytes → A → Type 0) {o : Option A × Reader} {v w : A} {input : Bytes} {r r' : Reader}
      → o ≡ (some v, r)
      → o ≡ (some w, r')
      → Split Q v input r
      → Split Q w input r'
  Split-returned Q {v = v} {w = w} {input = input} {r = r} {r' = r'} p q s =
      subst₂ (λ u t. Split Q u input t) same_value same_reader s
    where
      same_value : v ≡ w
      same_value = cc

      same_reader : r ≡ r'
      same_reader = cc

  pub Reads-pure : (v : A) → Reads (pure v) [] v
  Reads-pure v = record { accepts = λ r rest at. record { after = r; returns = refl; at = at } }

  pub Decodes-pure : (v : A) (Q : Bytes → A → Type 0) → Q [] v → Decodes (pure v) Q
  Decodes-pure v Q q = record {
    splits = λ r input w r' at bytes e.
        let here : Split Q v input r = record {
          text = [];
          rest = input;
          parts = refl;
          at = at;
          holds = q;
        } in
        Split-returned Q refl e here;
  }

  pub Decodes-weaken :
      {m : Read A} (P Q : Bytes → A → Type 0)
      → Decodes m P
      → ((xs : Bytes) (v : A) → P xs v → Q xs v)
      → Decodes m Q
  Decodes-weaken P Q h k = record {
    splits = λ r input v r' at bytes e.
        let s = h.splits r input v r' at bytes e in
        record {
          text = s.text;
          rest = s.rest;
          parts = s.parts;
          at = s.at;
          holds = k s.text v s.holds;
        };
  }

  pub Decodes-fail : (text : String) (Q : Bytes → A → Type 0) → Decodes (fail text) Q
  Decodes-fail text Q = record { splits = λ r input w r' at bytes e. cc }

module _ {A B : Type 0} where
  pub Reads-bind :
      (m : Read A) (f : A → Read B) (xs ys : Bytes) (v : A) (w : B)
      → Reads m xs v
      → Reads (f v) ys w
      → Reads (m >>= f) (xs ++ ys) w
  unfolding ◌>>=◌
  Reads-bind m f xs ys v w h k = record {
    accepts = λ r rest at.
        let first = h.accepts r (ys ++ rest) (subst (At r) (append_assoc xs ys rest) at) in
        let second = k.accepts first.after rest first.at in
        record { after = second.after; returns = rw first.returns second.returns; at = second.at };
  }

  pub Decodes-bind :
      (m : Read A) (f : A → Read B) (P : Bytes → A → Type 0) (Q : Bytes → B → Type 0)
      → Decodes m P
      → ((v : A) (xs : Bytes) → P xs v → Decodes (f v) (λ ys w. Q (xs ++ ys) w))
      → Decodes (m >>= f) Q
  unfolding ◌>>=◌
  Decodes-bind m f P Q h k = record {
    splits = λ r input w r' at bytes e. go r input w r' at bytes (m r) refl e;
  }
    where
      go :
          (r : Reader) (input : Bytes) (w : B) (r' : Reader)
          → At r input
          → All IsByte input
          → (o : Option A × Reader) → m r ≡ o
          → continue o.0 f o.1 ≡ (some w, r')
          → Split Q w input r'
      go r input w r' at bytes (none, r₁) e₁ e = cc
      go r input w r' at bytes (some v, r₁) e₁ e =
          let first = h.splits r input v r₁ at bytes e₁ in
          let second =
            (k v first.text first.holds).splits r₁ first.rest w r' first.at
              (All-append_right IsByte first.text first.rest (subst (All IsByte) first.parts bytes))
              e in
          record {
            text = first.text ++ second.text;
            rest = second.rest;
            parts =
                first.parts
                ∙ ap (◌++◌ first.text) second.parts
                ∙ sym (append_assoc first.text second.text second.rest);
            at = second.at;
            holds = second.holds;
          }

module _ {A B : Type 0} {m : Read A} where
  pub Reads-map :
      (g : A → B) (xs : Bytes) (v : A) → Reads m xs v → Reads (m >>= λ x. pure (g x)) xs (g v)
  Reads-map g xs v h =
      subst (λ ts. Reads (m >>= λ x. pure (g x)) ts (g v)) (append-nil xs)
        (Reads-bind m (λ x. pure (g x)) xs [] v (g v) h (Reads-pure (g v)))

  pub Decodes-map :
      (g : A → B) (P : Bytes → A → Type 0) (Q : Bytes → B → Type 0)
      → Decodes m P
      → ((xs : Bytes) (v : A) → P xs v → Q xs (g v))
      → Decodes (m >>= λ x. pure (g x)) Q
  Decodes-map g P Q h k =
      Decodes-bind m (λ x. pure (g x)) P Q h
        λ v xs p. Decodes-pure (g v) _ (subst (λ ts. Q ts (g v)) (sym (append-nil xs)) (k xs v p))

module _ {A : Type 0} where
  -- Each value in bounds is read from its text, and whatever is read is the text of a value in
  -- bounds.
  pub record Parses (read : Read A) (text : A → Bytes) (Fits : A → Type 0) : Type 0 where
    pub reads : (v : A) → Fits v → Reads read (text v) v
    pub decodes : Decodes read (λ xs v. (xs ≡ text v) × Fits v)

  -- What a write function and a read function promise one another.
  pub record Codec (write : A → Write) (read : Read A) (text : A → Bytes) (Fits : A → Type 0)
      : Type 0 where
    pub writes : (v : A) → Writes (write v) (text v)
    pub parses : Parses read text Fits
    pub open parses use *

  -- `m` returns exactly what `n` returns; a failure may leave another error text.
  pub record Agrees (m n : Read A) : Type 0 where
    pub forth : (r r' : Reader) (v : A) → m r ≡ (some v, r') → n r ≡ (some v, r')
    pub back : (r r' : Reader) (v : A) → n r ≡ (some v, r') → m r ≡ (some v, r')

  pub Agrees-Reads : {m n : Read A} (xs : Bytes) (v : A) → Agrees m n → Reads n xs v → Reads m xs v
  Agrees-Reads xs v g h = record {
    accepts = λ r rest at.
        let a = h.accepts r rest at in
        record { after = a.after; returns = g.back r a.after v a.returns; at = a.at };
  }

  pub Agrees-Decodes :
      {m n : Read A} (Q : Bytes → A → Type 0) → Agrees m n → Decodes n Q → Decodes m Q
  Agrees-Decodes Q g h = record {
    splits = λ r input v r' at bytes e. h.splits r input v r' at bytes (g.forth r r' v e);
  }

  pub Agrees-Parses :
      {m n : Read A} {text : A → Bytes} {Fits : A → Type 0}
      → Agrees m n
      → Parses n text Fits
      → Parses m text Fits
  Agrees-Parses {text = text} g p = record {
    reads = λ v h. Agrees-Reads (text v) v g (p.reads v h);
    decodes = Agrees-Decodes _ g p.decodes;
  }

module _ {A : Type 0} {write : A → Write} {m : Read A} {text : A → Bytes} {Fits : A → Type 0}
    (c : Codec write m text Fits) where
  pub Writes-field :
      {next : Write} (v : A) (ys : Bytes) → Writes next ys → Writes (write v >> next) (text v ++ ys)
  Writes-field v ys w = Writes-seq (text v) ys (c.writes v) w

module _ {A B : Type 0} {write : A → Write} {m : Read A} {text : A → Bytes} {Fits : A → Type 0}
    (c : Codec write m text Fits) where
  pub Reads-field :
      (f : A → Read B) (v : A) (ys : Bytes) (w : B)
      → Fits v
      → Reads (f v) ys w
      → Reads (m >>= f) (text v ++ ys) w
  Reads-field f v ys w h k = Reads-bind m f (text v) ys v w (c.reads v h) k

  pub Decodes-field :
      (f : A → Read B) (Q : Bytes → B → Type 0)
      → ((v : A) → Fits v → Decodes (f v) (λ ys w. Q (text v ++ ys) w))
      → Decodes (m >>= f) Q
  Decodes-field f Q k =
      Decodes-bind m f _ Q c.decodes
        λ v xs p. subst (λ zs. Decodes (f v) (λ ys w. Q (zs ++ ys) w)) (sym p.0) (k v p.1)

  pub Reads-last : (g : A → B) (v : A) → Fits v → Reads (m >>= λ x. pure (g x)) (text v) (g v)
  Reads-last g v h = Reads-map g (text v) v (c.reads v h)

  pub Decodes-last :
      (g : A → B) (Q : Bytes → B → Type 0)
      → ((v : A) → Fits v → Q (text v) (g v))
      → Decodes (m >>= λ x. pure (g x)) Q
  Decodes-last g Q k =
      Decodes-map g _ Q c.decodes (λ xs v p. subst (λ ts. Q ts (g v)) (sym p.0) (k v p.1))
