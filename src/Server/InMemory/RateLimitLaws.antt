-- ===== src/Server/InMemory/RateLimitLaws.antt =====
-- How many attempts the windows of src/server/in_memory_server.cpp hold.
use pqchat.Prelude.{
  Bool-cases, Bytes, List, Map, Option, Option-cases, String, [], ap, arith, if◌then◌else◌, inl,
  inr, insert, insert-cases, insert_self, leb, length, length-append, ltb, none, refl, some, ℕ,
  ◌++◌, ◌<◌, ◌↔◌, ◌∷◌, ◌≡◌, ◌≤◌,
}
use pqchat.Result.{ok}
use pqchat.Server.InMemory.RateLimit.{
  auth_rate_window_seconds, enforce_rate_limit, non_empty, trim_bucket, trim_buckets, trim_window,
}
use pqchat.Server.InMemory.State.{value_or}

-- No user's window is longer than `max`.
abbrev pub Bounded : ℕ → Map (List ℕ) → Type 0
Bounded max buckets =
    (user : Bytes) (window : List ℕ) → buckets user ≡ some window → length window ≤ max

trim_window-length :
    (now seconds : ℕ) (window : List ℕ) → length (trim_window now seconds window) ≤ length window
unfolding trim_window
trim_window-length now seconds [] = omega arith
trim_window-length now seconds (at ∷ window) = ground (arith, trim_window-length now seconds window)

trim_bucket-length :
    (now : ℕ) (bucket : Option (List ℕ)) (window : List ℕ)
    → trim_bucket now bucket ≡ some window
    → (old : List ℕ) × (bucket ≡ some old) × (length window ≤ length old)
trim_bucket-length now none window e = cc
trim_bucket-length now (some old) window e =
    (old, refl, go (trim_window now auth_rate_window_seconds old) refl e)
  where
    go :
        (kept : List ℕ)
        → trim_window now auth_rate_window_seconds old ≡ kept
        → non_empty kept ≡ some window
        → length window ≤ length old
    go [] h k = cc
    go (at ∷ kept) h k =
        let same : at ∷ kept ≡ window = cc in
        omega
          (arith, trim_window-length now auth_rate_window_seconds old, ap length h, ap length same)

pub trim_buckets-Bounded :
    (now max : ℕ) (buckets : Map (List ℕ))
    → Bounded max buckets
    → Bounded max (trim_buckets now buckets)
unfolding trim_buckets
trim_buckets-Bounded now max buckets h user window e =
    let (old, stored, shorter) = trim_bucket-length now (buckets user) window e in
    omega (arith, h user old stored, shorter)

module _ (now max seconds : ℕ) (text : String) (user_id : Bytes) (buckets : Map (List ℕ)) where
  abbrev pub trimmed : List ℕ
  trimmed = trim_window now seconds (value_or [] (buckets user_id))

  -- An attempt is let through exactly where fewer than `max` earlier ones are left in the user's
  -- trimmed window; the window that is stored is the trimmed one, with the attempt behind it where
  -- it was let through.
  pub enforce_rate_limit_iff :
      (((enforce_rate_limit buckets user_id now max seconds text).0 ≡ ok tt)
        ↔ (length trimmed < max))
      × ((enforce_rate_limit buckets user_id now max seconds text).1 user_id
          ≡ some (if ltb (length trimmed) max then trimmed ++ (now ∷ []) else trimmed))
  unfolding enforce_rate_limit
  enforce_rate_limit_iff = (
    (λ e. ground arith, λ h. ground arith),
    ground (
      arith,
      insert_self user_id trimmed buckets,
      insert_self user_id (trimmed ++ (now ∷ [])) buckets,
    ),
  )

  old_window : Bounded max buckets → length trimmed ≤ max
  old_window h = elim (Option-cases (buckets user_id)) [
    | inl missing ↦ rw missing (omega (arith, trim_window-length now seconds []))
    | inr (old, found) ↦
        rw found (omega (arith, trim_window-length now seconds old, h user_id old found))
  ]

  window_stored :
      (stored : List ℕ)
      → Bounded max buckets
      → length stored ≤ max
      → Bounded max (insert user_id stored buckets)
  window_stored stored h k user window e =
      elim (insert-cases user_id user stored window buckets e) [
        | inl (_, same) ↦ omega (arith, ap length same)
        | inr (_, old) ↦ h user window old
      ]

  -- No window grows beyond `max`.
  pub enforce_rate_limit-Bounded :
      Bounded max buckets → Bounded max (enforce_rate_limit buckets user_id now max seconds text).1
  unfolding enforce_rate_limit
  enforce_rate_limit-Bounded h = elim (Bool-cases (leb max (length trimmed))) [
    | inl full ↦ rw full (window_stored trimmed h (old_window h))
    | inr room ↦
        rw room (
          window_stored (trimmed ++ (now ∷ [])) h
            (ground (arith, length-append trimmed (now ∷ []))))
  ]
