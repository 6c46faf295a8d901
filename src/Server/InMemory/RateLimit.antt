-- ===== src/Server/InMemory/RateLimit.antt =====
-- The sliding windows of attempts and the removal of what has expired: EnforceRateLimit and
-- CleanupAuthState of src/server/in_memory_server.cpp. Times are uint64_t: a sum wraps.
use pqchat.Prelude.{
  Bytes, List, Map, Option, String, [], if◌then◌else◌, insert, leb, length, ltb, none, not, retain,
  some, ℕ, ◌%◌, ◌++◌, ◌+◌, ◌^◌, ◌||◌, ◌∷◌,
}
use pqchat.Result.{Result, err, ok}
use pqchat.Server.InMemory.State.{InMemoryServer, value_or}

abbrev pub auth_rate_window_seconds : ℕ
auth_rate_window_seconds = 60

abbrev pub max_auth_begin_attempts_per_window : ℕ
max_auth_begin_attempts_per_window = 30

abbrev pub max_auth_finish_attempts_per_window : ℕ
max_auth_finish_attempts_per_window = 30

-- `while (!window.empty() && window.front() + seconds <= now) window.pop_front();`
unfoldable pub trim_window : ℕ → ℕ → List ℕ → List ℕ
trim_window now seconds [] = []
trim_window now seconds (at ∷ window) =
    let rest = trim_window now seconds window in
    if leb ((at + seconds) % 2 ^ 64) now then rest else at ∷ window

abbrev pub non_empty : List ℕ → Option (List ℕ)
non_empty [] = none
non_empty (at ∷ window) = some (at ∷ window)

abbrev pub trim_bucket : ℕ → Option (List ℕ) → Option (List ℕ)
trim_bucket now none = none
trim_bucket now (some window) = non_empty (trim_window now auth_rate_window_seconds window)

-- An empty window's entry is erased.
unfoldable pub trim_buckets : ℕ → Map (List ℕ) → Map (List ℕ)
trim_buckets now buckets user = trim_bucket now (buckets user)

unfoldable pub cleanup_auth_state : ℕ → InMemoryServer → InMemoryServer
cleanup_auth_state now server = record server {
  challenges = retain (λ c. not (c.used || ltb c.expires_at_unix now)) server.challenges;
  sessions = retain (λ s. not (ltb s.expires_at_unix now)) server.sessions;
  auth_begin_attempts = trim_buckets now server.auth_begin_attempts;
  auth_finish_attempts = trim_buckets now server.auth_finish_attempts;
}

-- An attempt that is refused is not counted.
unfoldable pub enforce_rate_limit :
    Map (List ℕ) → Bytes → ℕ → ℕ → ℕ → String → Result (Unit {0}) × Map (List ℕ)
enforce_rate_limit buckets user_id now max_attempts window_seconds error_text =
    let bucket = trim_window now window_seconds (value_or [] (buckets user_id)) in
    if leb max_attempts (length bucket)
    then (err error_text, insert user_id bucket buckets)
    else (ok tt, insert user_id (bucket ++ (now ∷ [])) buckets)
