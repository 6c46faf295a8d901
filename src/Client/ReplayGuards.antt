-- ===== src/Client/ReplayGuards.antt =====
-- RememberInitialReplayGuards and HasSeenInitialReplayGuard of src/client/client.cpp.
use pqchat.Client.State.{Guards, Set, max_initial_replay_guards}
use pqchat.Prelude.{
  Bool, Bytes, List, Option, [], bytes_eq, erase, false, if◌then◌else◌, insert, length, ltb, none,
  some, true, ◌++◌, ◌+◌, ◌||◌, ◌∷◌,
}
use pqchat.Result.{Result, err, ok}
use pqchat.Server.InMemory.Hex.{to_hex}

-- `set.find(key) != set.end()`
abbrev is_present : Option (Unit {0}) → Bool
is_present none = false
is_present (some _) = true

abbrev pub contains : Bytes → Set → Bool
contains key set = is_present (set key)

-- `if (!order.empty() && order.back() == key) order.pop_back();`
unfoldable pub pop_back_if : Bytes → List Bytes → List Bytes
pop_back_if key [] = []
pop_back_if key (x ∷ []) = if bytes_eq x key then [] else x ∷ []
pop_back_if key (x ∷ y ∷ rest) = x ∷ pop_back_if key (y ∷ rest)

-- `while (order.size() > max) { set.erase(order.front()); order.pop_front(); }`, on the pair of both.
unfoldable pub evict : List Bytes → Set → List Bytes × Set
evict [] set = ([], set)
evict (oldest ∷ order) set =
    if ltb max_initial_replay_guards (length order + 1)
    then evict order (erase oldest set)
    else (oldest ∷ order, set)

unfoldable pub has_seen_initial_replay_guard : Bytes → Bytes → Guards → Bool
has_seen_initial_replay_guard session_id transcript_hash guards =
    contains session_id guards.seen_initial_session_ids
    || contains (to_hex transcript_hash) guards.seen_initial_transcript_hashes

-- What is left after a transcript that was there.
unfoldable pub undo_session : Bytes → Guards → Guards
undo_session session_id guards = record guards {
  seen_initial_session_ids = erase session_id guards.seen_initial_session_ids;
  seen_initial_session_order = pop_back_if session_id guards.seen_initial_session_order;
}

unfoldable pub insert_session : Bytes → Guards → Guards
insert_session session_id guards = record guards {
  seen_initial_session_ids = insert session_id tt guards.seen_initial_session_ids;
  seen_initial_session_order = guards.seen_initial_session_order ++ (session_id ∷ []);
}

unfoldable pub insert_transcript : Bytes → Guards → Guards
insert_transcript transcript_key guards = record guards {
  seen_initial_transcript_hashes = insert transcript_key tt guards.seen_initial_transcript_hashes;
  seen_initial_transcript_order = guards.seen_initial_transcript_order ++ (transcript_key ∷ []);
}

-- The two loops at the end.
unfoldable pub trim_guards : Guards → Guards
trim_guards guards =
    let (session_order, sessions) =
      evict guards.seen_initial_session_order guards.seen_initial_session_ids in
    let (transcript_order, transcripts) =
      evict guards.seen_initial_transcript_order guards.seen_initial_transcript_hashes in
    record {
      seen_initial_session_ids = sessions;
      seen_initial_transcript_hashes = transcripts;
      seen_initial_session_order = session_order;
      seen_initial_transcript_order = transcript_order;
    }

unfoldable pub remember_initial_replay_guards : Bytes → Bytes → Guards → Result (Unit {0}) × Guards
remember_initial_replay_guards session_id transcript_hash guards =
    let transcript_key = to_hex transcript_hash in
    if contains session_id guards.seen_initial_session_ids
    then (err "duplicate initial session id rejected", guards)
    else let with_session = insert_session session_id guards in
      if contains transcript_key guards.seen_initial_transcript_hashes
      then (err "duplicate initial transcript rejected", undo_session session_id with_session)
      else (ok tt, trim_guards (insert_transcript transcript_key with_session))
