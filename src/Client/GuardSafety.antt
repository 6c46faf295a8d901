-- ===== src/Client/GuardSafety.antt =====
-- RememberInitialReplayGuards and HasSeenInitialReplayGuard of src/client/client.cpp together.
use pqchat.Client.GuardLaws.{
  Agree, contains-erase, contains-insert, evict-Agree, evict-newest, insert-Agree,
}
use pqchat.Client.ReplayGuards.{
  contains, has_seen_initial_replay_guard, insert_session, insert_transcript, pop_back_if,
  remember_initial_replay_guards, trim_guards, undo_session,
}
use pqchat.Client.State.{Guards, Set, max_initial_replay_guards}
use pqchat.Prelude.{
  Bool, Bool-cases, Bytes, List, [], ap, arith, bytes_eq, bytes_eq_refl, bytes_eq_sound, erase,
  false, inl, inr, insert, length, not, refl, sym, true, ◌&&◌, ◌++◌, ◌||◌, ◌↔◌, ◌∙◌, ◌∷◌, ◌≡◌, ◌≤◌,
  ◌⊎◌,
}
use pqchat.Result.{err, ok}
use pqchat.Server.InMemory.Hex.{to_hex}

-- Sets and orders belong together, and no order is longer than 4096.
pub record GuardsAgree (g : Guards) : Type 0 where
  pub sessions : Agree g.seen_initial_session_order g.seen_initial_session_ids
  pub transcripts : Agree g.seen_initial_transcript_order g.seen_initial_transcript_hashes
  pub sessions_bounded : length g.seen_initial_session_order ≤ max_initial_replay_guards
  pub transcripts_bounded : length g.seen_initial_transcript_order ≤ max_initial_replay_guards

pop_back_if-append : (key : Bytes) (xs : List Bytes) → pop_back_if key (xs ++ (key ∷ [])) ≡ xs
unfolding pop_back_if
pop_back_if-append key [] = rw (bytes_eq_refl key) refl
pop_back_if-append key (x ∷ []) = rw (bytes_eq_refl key) refl
pop_back_if-append key (x ∷ y ∷ xs) = ap (λ t. x ∷ t) (pop_back_if-append key (y ∷ xs))

-- The insertion of a new session id is undone.
undone :
    (key k : Bytes) (set : Set)
    → contains key set ≡ false
    → contains k (erase key (insert key tt set)) ≡ contains k set
undone key k set new =
    rw (contains-erase k key (insert key tt set), contains-insert k key set)
      (go (Bool-cases (bytes_eq key k)))
  where
    go :
        (bytes_eq key k ≡ true) ⊎ (bytes_eq key k ≡ false)
        → not (bytes_eq key k) && (bytes_eq key k || contains k set) ≡ contains k set
    go (inl same) = rw (same, ← bytes_eq_sound key k same) (sym new)
    go (inr other) = rw other refl

or_true : (b : Bool) → (b || true) ≡ true
or_true b = ground arith

-- The pairs of the tests that a call makes.
module _ (session_id transcript_hash : Bytes) (g : Guards) where
  -- What a call leaves, by the two tests.
  pub data Branch : Type 0 where
    session_seen :
        contains session_id g.seen_initial_session_ids ≡ true
        → remember_initial_replay_guards session_id transcript_hash g
          ≡ (err "duplicate initial session id rejected", g)
        → Branch
    transcript_seen :
        contains session_id g.seen_initial_session_ids ≡ false
        → contains (to_hex transcript_hash) g.seen_initial_transcript_hashes ≡ true
        → remember_initial_replay_guards session_id transcript_hash g ≡ (
          err "duplicate initial transcript rejected",
          undo_session session_id (insert_session session_id g),
        )
        → Branch
    remembered :
        contains session_id g.seen_initial_session_ids ≡ false
        → contains (to_hex transcript_hash) g.seen_initial_transcript_hashes ≡ false
        → remember_initial_replay_guards session_id transcript_hash g ≡ (
          ok tt,
          trim_guards (insert_transcript (to_hex transcript_hash) (insert_session session_id g)),
        )
        → Branch

  pub branch : Branch
  unfolding remember_initial_replay_guards
  branch = elim (Bool-cases (contains session_id g.seen_initial_session_ids)) [
    | inl seen ↦ session_seen seen (rw seen refl)
    | inr new ↦
        elim (Bool-cases (contains (to_hex transcript_hash) g.seen_initial_transcript_hashes)) [
          | inl seen ↦ transcript_seen new seen (rw (new, seen) refl)
          | inr other ↦ remembered new other (rw (new, other) refl)
        ]
  ]

  trimmed-GuardsAgree :
      GuardsAgree g
      → contains session_id g.seen_initial_session_ids ≡ false
      → contains (to_hex transcript_hash) g.seen_initial_transcript_hashes ≡ false
      → GuardsAgree
          (trim_guards (insert_transcript (to_hex transcript_hash) (insert_session session_id g)))
  unfolding trim_guards insert_transcript insert_session
  trimmed-GuardsAgree a new other =
      let sessions = evict-Agree _ _ (
        insert-Agree session_id g.seen_initial_session_order g.seen_initial_session_ids a.sessions
          new) in
      let transcripts = evict-Agree _ _ (
        insert-Agree (to_hex transcript_hash) g.seen_initial_transcript_order
          g.seen_initial_transcript_hashes a.transcripts other) in
      record {
        sessions = sessions.0;
        transcripts = transcripts.0;
        sessions_bounded = sessions.1;
        transcripts_bounded = transcripts.1;
      }

  undone-GuardsAgree :
      GuardsAgree g
      → contains session_id g.seen_initial_session_ids ≡ false
      → GuardsAgree (undo_session session_id (insert_session session_id g))
  unfolding undo_session insert_session
  undone-GuardsAgree a new = record {
    sessions = rw (pop_back_if-append session_id g.seen_initial_session_order) (record {
      same = λ k. undone session_id k g.seen_initial_session_ids new ∙ a.sessions.same k;
      distinct = a.sessions.distinct;
    });
    transcripts = a.transcripts;
    sessions_bounded =
        rw (pop_back_if-append session_id g.seen_initial_session_order) a.sessions_bounded;
    transcripts_bounded = a.transcripts_bounded;
  }

  -- Each call, whatever it returns, keeps the sets equal to their orders, without a key twice and with at
  -- most 4096 keys.
  pub remember_initial_replay_guards-GuardsAgree :
      GuardsAgree g → GuardsAgree (remember_initial_replay_guards session_id transcript_hash g).1
  remember_initial_replay_guards-GuardsAgree a = elim branch [
    | session_seen seen e ↦ rw e a
    | transcript_seen new seen e ↦ rw e (undone-GuardsAgree a new)
    | remembered new other e ↦ rw e (trimmed-GuardsAgree a new other)
  ]

  -- While the sets are what their orders list (GuardsAgree), a pair is remembered exactly if neither its
  -- session id nor its transcript counts as seen, and in the state that the call leaves it counts as seen,
  -- whether it was remembered or rejected.
  pub remembered_iff :
      GuardsAgree g
      → let (r, after) = remember_initial_replay_guards session_id transcript_hash g in
        ((r ≡ ok tt) ↔ (has_seen_initial_replay_guard session_id transcript_hash g ≡ false))
        × (has_seen_initial_replay_guard session_id transcript_hash after ≡ true)
  unfolding has_seen_initial_replay_guard trim_guards insert_transcript insert_session undo_session
  remembered_iff a = go branch
    where
      kept :
          contains session_id g.seen_initial_session_ids ≡ false
          → contains session_id
              (trim_guards (
                insert_transcript
                  (to_hex transcript_hash)
                  (insert_session session_id g))).seen_initial_session_ids
            ≡ true
      kept new =
          (evict-Agree _ _ (
              insert-Agree session_id g.seen_initial_session_order g.seen_initial_session_ids
                a.sessions new)).0.same
            session_id
          ∙ evict-newest session_id g.seen_initial_session_order _

      go :
          Branch
          → (((remember_initial_replay_guards session_id transcript_hash g).0 ≡ ok tt)
              ↔ (has_seen_initial_replay_guard session_id transcript_hash g ≡ false))
            × (has_seen_initial_replay_guard session_id transcript_hash
                  (remember_initial_replay_guards session_id transcript_hash g).1
                ≡ true)
      go (session_seen seen e) = rw (e, seen) (((λ t. cc), (λ t. cc)), refl)
      go (transcript_seen new seen e) = rw (e, new, seen) (((λ t. cc), (λ t. cc)), or_true _)
      go (remembered new other e) =
          rw (e, new, other) (((λ t. refl), (λ t. refl)), rw (kept new) refl)
