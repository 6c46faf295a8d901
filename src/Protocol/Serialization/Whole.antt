-- ===== src/Protocol/Serialization/Whole.antt =====
-- The frame of the Deserialize functions of src/protocol/serialization.cpp: the size check, the
-- reads with their error texts, and the check that nothing is left.
use pqchat.Prelude.{
  All, Bytes, IsByte, Option, String, [], ap, append-nil, ap₂, arith, concat, if◌then◌else◌, length,
  ltb, none, refl, some, subst, sym, ◌++◌, ◌↔◌, ◌∙◌, ◌∷◌, ◌≡◌, ◌≤◌,
}
use pqchat.Protocol.Serialization.Codec.{
  Agrees, Agrees-Decodes, Agrees-Reads, At, Decodes, Decodes-bind, Decodes-pure, Parses, Reads,
  Reads-bind, Reads-pure, Split, length-At, new_reader-At,
}
use pqchat.Protocol.Serialization.Reader.{
  Read, Reader, continue, is_finished, max_serialized_input_bytes, new_reader, ◌>>=◌ as read_then,
}
use pqchat.Result.{>>=-eq-ok, Result, err, ok, ok-injective, ◌>>=◌, ◌>>◌}

unfoldable pub validate_input_size : Bytes → String → Result (Unit {0})
validate_input_size bytes label =
    if ltb max_serialized_input_bytes (length bytes) then err (concat label " too large") else ok tt

-- `if (!m(&out)) return Err(prefix + reader.error())`
abbrev or_error : {A : Type 0} → String → Option A × Reader → Result (A × Reader)
or_error prefix (none, r) = err (concat prefix r.error)
or_error prefix (some v, r) = ok (v, r)

unfoldable pub run : {A : Type 0} → Read A → String → Reader → Result (A × Reader)
run m prefix r = or_error prefix (m r)

-- `if (!reader.Finished()) return Err(text)`
unfoldable pub finished : Reader → String → Result (Unit {0})
unfolding is_finished
finished r text = if is_finished r then ok tt else err text

unfoldable pub decode_whole :
    {A : Type 0} → String → String → (Reader → Result (A × Reader)) → Bytes → Result A
decode_whole label trailing body bytes = do
  validate_input_size bytes label
  (out, r) ← body (new_reader bytes)
  finished r trailing
  ok out

module _ {A : Type 0} where
  -- A body as a read, so that the rules of Codec.antt apply to it.
  abbrev pub outcome : Result (A × Reader) → Reader → Option A × Reader
  outcome (ok (v, r')) r = (some v, r')
  outcome (err text) r = (none, record r { error = text })

  unfoldable pub attempt : (Reader → Result (A × Reader)) → Read A
  attempt body r = outcome (body r) r

  attempt-ok :
      (o : Result (A × Reader)) (r r' : Reader) (v : A)
      → outcome o r ≡ (some v, r')
      → o ≡ ok (v, r')
  attempt-ok (ok (w, s)) r r' v e = cc
  attempt-ok (err text) r r' v e = cc

validate-le :
    (bytes : Bytes) (label : String)
    → validate_input_size bytes label ≡ ok tt
    → length bytes ≤ max_serialized_input_bytes
unfolding validate_input_size
validate-le bytes label e = ground arith

le-validate :
    (bytes : Bytes) (label : String)
    → length bytes ≤ max_serialized_input_bytes
    → validate_input_size bytes label ≡ ok tt
unfolding validate_input_size
le-validate bytes label h = ground arith

nil_of_length : (xs : Bytes) → length xs ≡ 0 → xs ≡ []
nil_of_length [] h = refl
nil_of_length (x ∷ xs) h = absurd (omega arith)

finished-nil :
    (r : Reader) (rest : Bytes) (text : String) → At r rest → finished r text ≡ ok tt → rest ≡ []
unfolding finished
finished-nil r rest text at e = nil_of_length rest (ground (arith, length-At at))

nil-finished : (r : Reader) (text : String) → At r [] → finished r text ≡ ok tt
unfolding finished
nil-finished r text at = ground (arith, length-At at)

module _ {A : Type 0} {text : A → Bytes} {Fits : A → Type 0} (body : Reader → Result (A × Reader))
    (c : Parses (attempt body) text Fits) (label trailing : String) where
  decode_whole_sound :
      (bytes : Bytes) (v : A)
      → All IsByte bytes
      → decode_whole label trailing body bytes ≡ ok v
      → Fits v × (bytes ≡ text v) × (length bytes ≤ max_serialized_input_bytes)
  unfolding decode_whole attempt
  decode_whole_sound bytes v octets e =
      let (_, small, e₁) = >>=-eq-ok (validate_input_size bytes label) _ e in
      let (p, read, e₂) = >>=-eq-ok (body (new_reader bytes)) _ e₁ in
      let (_, end, e₃) = >>=-eq-ok (finished p.1 trailing) _ e₂ in
      let same : p.0 ≡ v = cc in
      let s =
        c.decodes.splits (new_reader bytes) bytes p.0 p.1 (new_reader-At bytes) octets (rw read) in
      let nothing : s.rest ≡ [] = finished-nil p.1 s.rest trailing s.at end in
      let whole : bytes ≡ text p.0 = s.parts ∙ ap₂ ◌++◌ s.holds.0 nothing ∙ append-nil (text p.0) in
      (subst Fits same s.holds.1, whole ∙ ap text same, validate-le bytes label small)

  decode_whole_complete :
      (v : A)
      → Fits v
      → length (text v) ≤ max_serialized_input_bytes
      → decode_whole label trailing body (text v) ≡ ok v
  unfolding decode_whole attempt
  decode_whole_complete v fits small =
      let start : At (new_reader (text v)) (text v ++ []) =
        rw append-nil (new_reader-At (text v)) in
      let a = (c.reads v fits).accepts (new_reader (text v)) [] start in
      rw (
        le-validate (text v) label small,
        attempt-ok (body (new_reader (text v))) _ _ _ a.returns,
        nil-finished a.after trailing a.at,
      )

  -- What is accepted is the text of a value in bounds, and each such text is accepted.
  decode_whole_iff :
      (bytes : Bytes) (v : A)
      → All IsByte bytes
      → (decode_whole label trailing body bytes ≡ ok v)
        ↔ (Fits v × (bytes ≡ text v) × (length bytes ≤ max_serialized_input_bytes))
  decode_whole_iff bytes v octets = (
    decode_whole_sound bytes v octets,
    λ h. rw (h.1) (
        decode_whole_complete v h.0 (subst (λ xs. length xs ≤ max_serialized_input_bytes) h.1 h.2)),
  )

  -- In terms of a writer whose result for a value in bounds is its text.
  pub decode_whole_written :
      (serialize : A → Result Bytes)
      → ((v : A) → Fits v → serialize v ≡ ok (text v))
      → (bytes : Bytes) (v : A) → All IsByte bytes
      → (decode_whole label trailing body bytes ≡ ok v)
        ↔ (Fits v × (serialize v ≡ ok bytes) × (length bytes ≤ max_serialized_input_bytes))
  decode_whole_written serialize writes bytes v octets =
      let (sound, complete) = decode_whole_iff bytes v octets in
      (
        λ e. let (fits, same, small) = sound e in (fits, writes v fits ∙ ap ok (sym same), small),
        λ (fits, written, small).
            complete (fits, ok-injective (sym written ∙ writes v fits), small),
      )

-- `run` succeeds exactly as its read does.
outcome-or_error :
    {A : Type 0} (prefix : String) (o : Option A × Reader) (r r' : Reader) (v : A)
    → outcome (or_error prefix o) r ≡ (some v, r')
    → o ≡ (some v, r')
outcome-or_error prefix (none, s) r r' v e = cc
outcome-or_error prefix (some w, s) r r' v e = e

module _ {A : Type 0} (m : Read A) (prefix : String) where
  run-some : (r r' : Reader) (v : A) → m r ≡ (some v, r') → attempt (run m prefix) r ≡ (some v, r')
  unfolding attempt run
  run-some r r' v e = ap (λ o. outcome (or_error prefix o) r) e

  some-run : (r r' : Reader) (v : A) → attempt (run m prefix) r ≡ (some v, r') → m r ≡ (some v, r')
  unfolding attempt run
  some-run r r' v e = outcome-or_error prefix (m r) r r' v e

  pub Agrees-run : Agrees (attempt (run m prefix)) m
  Agrees-run = record { forth = some-run; back = run-some }

module _ {A B : Type 0} (body : Reader → Result (A × Reader))
    (k : A → Reader → Result (B × Reader)) where
  -- One body after another, as one read after another.
  outcome-then :
      (o : Result (A × Reader)) (r r' : Reader) (w : B)
      → outcome (o >>= λ p. k p.0 p.1) r ≡ (some w, r')
      → continue (outcome o r).0 (λ v. attempt (k v)) (outcome o r).1 ≡ (some w, r')
  unfolding attempt
  outcome-then (ok (v, r₁)) r r' w e = ap (λ o. outcome o r₁) (attempt-ok (k v r₁) r r' w e)
  outcome-then (err text) r r' w e = cc

  then-outcome :
      (o : Result (A × Reader)) (r r' : Reader) (w : B)
      → continue (outcome o r).0 (λ v. attempt (k v)) (outcome o r).1 ≡ (some w, r')
      → outcome (o >>= λ p. k p.0 p.1) r ≡ (some w, r')
  unfolding attempt
  then-outcome (ok (v, r₁)) r r' w e = rw (attempt-ok (k v r₁) r₁ r' w e)
  then-outcome (err text) r r' w e = cc

  pub Agrees-then :
      Agrees
        (attempt (λ r. body r >>= λ p. k p.0 p.1))
        (read_then (attempt body) (λ v. attempt (k v)))
  unfolding attempt read_then
  Agrees-then = record {
    forth = λ r r' w e. outcome-then (body r) r r' w e;
    back = λ r r' w e. then-outcome (body r) r r' w e;
  }

  pub Reads-then :
      (xs ys : Bytes) (v : A) (w : B)
      → Reads (attempt body) xs v
      → Reads (attempt (k v)) ys w
      → Reads (attempt (λ r. body r >>= λ p. k p.0 p.1)) (xs ++ ys) w
  Reads-then xs ys v w h h' = Agrees-Reads (xs ++ ys) w Agrees-then (Reads-bind _ _ xs ys v w h h')

  pub Decodes-then :
      (P : Bytes → A → Type 0) (Q : Bytes → B → Type 0)
      → Decodes (attempt body) P
      → ((v : A) (xs : Bytes) → P xs v → Decodes (attempt (k v)) (λ ys w. Q (xs ++ ys) w))
      → Decodes (attempt (λ r. body r >>= λ p. k p.0 p.1)) Q
  Decodes-then P Q h h' = Agrees-Decodes Q Agrees-then (Decodes-bind _ _ P Q h h')

module _ {A : Type 0} (m : Read A) (prefix : String) where
  pub Reads-run : (xs : Bytes) (v : A) → Reads m xs v → Reads (attempt (run m prefix)) xs v
  Reads-run xs v h = Agrees-Reads xs v (Agrees-run m prefix) h

  pub Decodes-run : (Q : Bytes → A → Type 0) → Decodes m Q → Decodes (attempt (run m prefix)) Q
  Decodes-run Q h = Agrees-Decodes Q (Agrees-run m prefix) h

module _ {A : Type 0} where
  pub Reads-done : (v : A) → Reads (attempt (λ r. ok (v, r))) [] v
  unfolding attempt
  Reads-done v = Reads-pure v

  pub Decodes-done :
      (v : A) (Q : Bytes → A → Type 0) → Q [] v → Decodes (attempt (λ r. ok (v, r))) Q
  unfolding attempt
  Decodes-done v Q q = Decodes-pure v Q q

module _ {A B : Type 0} (m : Read A) (prefix : String) (g : A → B) where
  -- One read, and the value made of it.
  pub Reads-run_map :
      (xs : Bytes) (v : A)
      → Reads m xs v
      → Reads (attempt (λ r. run m prefix r >>= λ p. ok (g p.0, p.1))) xs (g v)
  Reads-run_map xs v h =
      subst (λ ts. Reads (attempt (λ r. run m prefix r >>= λ p. ok (g p.0, p.1))) ts (g v))
        (append-nil xs)
        (Reads-then (run m prefix) (λ a r. ok (g a, r)) xs [] v (g v) (Reads-run m prefix xs v h)
          (Reads-done (g v)))

  pub Decodes-run_map :
      (P : Bytes → A → Type 0) (Q : Bytes → B → Type 0)
      → Decodes m P
      → ((xs : Bytes) (v : A) → P xs v → Q xs (g v))
      → Decodes (attempt (λ r. run m prefix r >>= λ p. ok (g p.0, p.1))) Q
  Decodes-run_map P Q h k =
      Decodes-then (run m prefix) (λ a r. ok (g a, r)) P Q (Decodes-run m prefix P h)
        λ v xs p. Decodes-done (g v) _ (subst (λ ts. Q ts (g v)) (sym (append-nil xs)) (k xs v p))

module _ {A B : Type 0} (o : Result A) (g : A → B) where
  -- A result that does not read.
  unfoldable pub lift_result : Reader → Result (B × Reader)
  lift_result r = o >>= λ a. ok (g a, r)

  pub Reads-lift : (a : A) → o ≡ ok a → Reads (attempt lift_result) [] (g a)
  unfolding attempt lift_result
  Reads-lift a e = record { accepts = λ r rest at. record { after = r; returns = rw e; at = at } }

  pub Decodes-lift :
      (Q : Bytes → B → Type 0) → ((a : A) → o ≡ ok a → Q [] (g a)) → Decodes (attempt lift_result) Q
  unfolding attempt lift_result
  Decodes-lift Q k = record {
    splits = λ r input w r' at bytes e. go r input w r' at bytes o refl e;
  }
    where
      go :
          (r : Reader) (input : Bytes) (w : B) (r' : Reader)
          → At r input
          → All IsByte input
          → (p : Result A) → o ≡ p
          → outcome (p >>= λ a. ok (g a, r)) r ≡ (some w, r')
          → Split Q w input r'
      go r input w r' at bytes (ok a) q e =
          (Decodes-pure (g a) Q (k a q)).splits r input w r' at bytes e
      go r input w r' at bytes (err text) q e = cc
