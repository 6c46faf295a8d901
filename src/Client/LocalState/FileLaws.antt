-- ===== src/Client/LocalState/FileLaws.antt =====
-- The loop of WriteAllFileAtomic in src/client/client.cpp ends.
use pqchat.Client.Host.{Host, WriteAnswer, interrupted, write_failed, wrote}
use pqchat.Client.LocalState.Files.{write_loop}
use pqchat.Prelude.{
  Bool, Bytes, Option, ap, take, ◌++◌, take-append-drop, append_assoc, [], arith, drop, false,
  length, length-drop, refl, some, subst, suc, true, zero, ℕ, ◌<◌, ◌∷◌, ◌≡◌, ◌≤◌,
}

-- What `write` writes, of a buffer that is not empty, where it neither fails nor is interrupted: at least
-- one byte.
abbrev Advances : WriteAnswer → Type 0
Advances (wrote n) = 0 < n
Advances interrupted = ⊥
Advances write_failed = Unit

data AnswerIs (a : WriteAnswer) : Type 0 where
  is_interrupted : a ≡ interrupted → AnswerIs a
  is_failed : a ≡ write_failed → AnswerIs a
  is_wrote : (n : ℕ) → a ≡ wrote n → AnswerIs a

answer_is : (a : WriteAnswer) → AnswerIs a
answer_is interrupted = is_interrupted refl
answer_is write_failed = is_failed refl
answer_is (wrote n) = is_wrote n refl

module _ {W : Type 0} (host : Host W) (tmp : Bytes) where
  -- The calls of `write` from `left` at `w` on: what they wrote, one after the other, and what is left.
  pub data Writes : Bytes → W → Bytes → Bytes → W → Type 0 where
    no_call : (left : Bytes) (w : W) → Writes left w [] left w
    one_call :
        {left : Bytes} {w v u : W} {n : ℕ} {written rest : Bytes}
        → 0 < length left
        → host.files.write tmp left w ≡ (wrote n, v)
        → Writes (drop n left) v written rest u
        → Writes left w (take n left ++ written) rest u

  -- How the loop ends.
  pub data Ended (left : Bytes) (w : W) (o : Option Bool × W) : Type 0 where
    all_written : (u : W) → Writes left w left [] u → o ≡ (some true, u) → Ended left w o
    failed :
        (written rest : Bytes) (u v : W)
        → written ++ rest ≡ left
        → 0 < length rest
        → Writes left w written rest u
        → host.files.write tmp rest u ≡ (write_failed, v)
        → o ≡ (some false, v)
        → Ended left w o

  -- A first call that wrote `n` bytes.
  after_call :
      (n : ℕ) (left : Bytes) (w v : W) (o : Option Bool × W)
      → 0 < length left
      → host.files.write tmp left w ≡ (wrote n, v)
      → Ended (drop n left) v o
      → Ended left w o
  after_call n left w v o some_left e (all_written u calls is) =
      all_written u
        (subst (λ b. Writes left w b [] u) (take-append-drop n left) (one_call some_left e calls))
        is
  after_call n left w v o some_left e (failed written rest u x whole more calls refused is) =
      failed (take n left ++ written) rest u x
        (rw (append_assoc (take n left) written rest, whole) (take-append-drop n left)) more
        (one_call some_left e calls) refused is

  module _
      (advances : (left : Bytes) (w : W)
        → 0 < length left
        → Advances (host.files.write tmp left w).0) where
    -- With as many rounds as there are bytes, the loop comes to its end: it has written all of the bytes,
    -- in their order, and says so, or a call of `write` failed on what was left, and it says that. (Each
    -- call of `write` writes a byte or fails; none is interrupted.)
    pub write_loop_finishes :
        (rounds : ℕ) (left : Bytes) (w : W)
        → length left ≤ rounds
        → Ended left w (write_loop host rounds tmp left w)
    unfolding write_loop
    write_loop_finishes rounds [] w h = all_written w (no_call [] w) refl
    write_loop_finishes zero (b ∷ left) w h = absurd (omega arith)
    write_loop_finishes (suc rounds) (b ∷ left) w h =
        let answered = host.files.write tmp (b ∷ left) w in
        let step = advances (b ∷ left) w (omega arith) in
        elim (answer_is answered.0) [
          | is_interrupted e ↦ absurd (subst Advances e step)
          | is_failed e ↦
              failed [] (b ∷ left) w answered.1 refl (omega arith) (no_call (b ∷ left) w)
                (ap (λ a. (a, answered.1)) e) (rw (write_loop, e) refl)
          | is_wrote n e ↦
              let positive : 0 < n = subst Advances e step in
              let rest =
                write_loop_finishes rounds (drop n (b ∷ left)) answered.1
                  (omega (arith, length-drop n (b ∷ left))) in
              after_call n (b ∷ left) w answered.1 _ (omega arith) (ap (λ a. (a, answered.1)) e)
                (rw (write_loop, e) rest)
        ]
