-- ===== src/Client/GuardLaws.antt =====
-- The replay guards of src/client/client.cpp: the sets hold what their orders list.
use pqchat.Client.ReplayGuards.{contains, evict}
use pqchat.Client.State.{Set, max_initial_replay_guards}
use pqchat.Prelude.{
  Bool, Bool-cases, Bytes, List, [], arith, bytes_eq, bytes_eq_refl, bytes_eq_sound, erase, false,
  inl, inr, insert, length, ltb, ltb-false→le, not, refl, sym, true, ◌&&◌, ◌++◌, ◌+◌, ◌||◌, ◌∙◌,
  ◌∷◌, ◌≡◌, ◌≤◌, ◌⊎◌,
}

abbrev pub listed : Bytes → List Bytes → Bool
listed key [] = false
listed key (x ∷ xs) = bytes_eq x key || listed key xs

-- No key is listed twice.
abbrev Distinct : List Bytes → Type 0
Distinct [] = Unit
Distinct (x ∷ xs) = (listed x xs ≡ false) × Distinct xs

-- The set holds what the order lists, each key once.
pub record Agree (order : List Bytes) (set : Set) : Type 0 where
  pub same : (key : Bytes) → contains key set ≡ listed key order
  pub distinct : Distinct order

listed-append :
    (key last : Bytes) (xs : List Bytes)
    → listed key (xs ++ (last ∷ [])) ≡ listed key xs || bytes_eq last key
listed-append key last [] = ground arith
listed-append key last (x ∷ xs) = ground (arith, listed-append key last xs)

Distinct-append :
    (last : Bytes) (xs : List Bytes)
    → Distinct xs
    → listed last xs ≡ false
    → Distinct (xs ++ (last ∷ []))
Distinct-append last [] d h = (refl, tt)
Distinct-append last (x ∷ xs) d h = (
  rw (listed-append x last xs, d.0) (ground (arith, bytes_eq_sound last x, bytes_eq_refl x)),
  Distinct-append last xs d.1 (ground arith),
)

pub contains-insert :
    (key y : Bytes) (set : Set)
    → contains key (insert y tt set) ≡ bytes_eq y key || contains key set
unfolding insert
contains-insert key y set = ground arith

pub contains-erase :
    (key y : Bytes) (set : Set)
    → contains key (erase y set) ≡ not (bytes_eq y key) && contains key set
unfolding erase
contains-erase key y set = ground arith

pub insert-Agree :
    (key : Bytes) (order : List Bytes) (set : Set)
    → Agree order set
    → contains key set ≡ false
    → Agree (order ++ (key ∷ [])) (insert key tt set)
insert-Agree key order set a new = record {
  same = λ k. rw (contains-insert k key set, listed-append k key order, a.same k) (ground arith);
  distinct = Distinct-append key order a.distinct (sym (a.same key) ∙ new);
}

-- The oldest key goes.
drop_oldest-Agree :
    (oldest : Bytes) (order : List Bytes) (set : Set)
    → Agree (oldest ∷ order) set
    → Agree order (erase oldest set)
drop_oldest-Agree oldest order set a = record {
  same = λ k. rw (contains-erase k oldest set, a.same k) (go k (Bool-cases (bytes_eq oldest k)));
  distinct = a.distinct.1;
}
  where
    go :
        (k : Bytes)
        → (bytes_eq oldest k ≡ true) ⊎ (bytes_eq oldest k ≡ false)
        → not (bytes_eq oldest k) && (bytes_eq oldest k || listed k order) ≡ listed k order
    go k (inl same) = rw (same, ← bytes_eq_sound oldest k same) (sym a.distinct.0)
    go k (inr other) = rw other refl

pub evict-Agree :
    (order : List Bytes) (set : Set)
    → Agree order set
    → Agree (evict order set).0 (evict order set).1
      × (length (evict order set).0 ≤ max_initial_replay_guards)
unfolding evict
evict-Agree [] set a = (a, omega arith)
evict-Agree (oldest ∷ order) set a =
    elim (Bool-cases (ltb max_initial_replay_guards (length order + 1))) [
      | inl over ↦
          rw over (evict-Agree order (erase oldest set) (drop_oldest-Agree oldest order set a))
      | inr under ↦ rw under (a, omega (arith, ltb-false→le _ _ under))
    ]

-- The newest key stays.
pub evict-newest :
    (key : Bytes) (order : List Bytes) (set : Set)
    → listed key (evict (order ++ (key ∷ [])) set).0 ≡ true
unfolding evict
evict-newest key [] set = ground (arith, bytes_eq_refl key)
evict-newest key (x ∷ order) set =
    elim (Bool-cases (ltb max_initial_replay_guards (length (order ++ (key ∷ [])) + 1))) [
      | inl over ↦ rw over (evict-newest key order (erase x set))
      | inr under ↦ rw (under, listed-append key key order, bytes_eq_refl key) (ground arith)
    ]
