-- ===== src/Client/UsedUp.antt =====
-- One-time prekeys serve once: HandleInitialMessage of src/client/client.cpp.
use pqchat.Client.Accept.{
  Selected, erase_ec, erase_pq, find_ec, find_pq, handle_initial_message, selected_in, use_prekeys,
}
use pqchat.Client.Chat.{set_session}
use pqchat.Client.Handshake.{set_guards}
use pqchat.Client.Host.{Host}
use pqchat.Client.OpenLaws.{handle_initial_message-Opened}
use pqchat.Client.PrekeyLaws.{EcUnique, IdsUnique, PqUnique}
use pqchat.Client.Prekeys.{has_ec_id, has_pq_id}
use pqchat.Client.State.{Client, OneTimeEc, OneTimePq}
use pqchat.Prelude.{
  ==_iff, Bool-cases, Bytes, List, [], arith, false, inl, inr, none, refl, some, ℕ, ◌==◌, ◌∷◌, ◌≡◌,
}
use pqchat.Protocol.Messages.{InitialMessage}
use pqchat.Result.{ok}

no_ec :
    (key_id : ℕ) (keys : List OneTimeEc)
    → has_ec_id key_id keys ≡ false
    → find_ec key_id keys ≡ none
unfolding find_ec
no_ec key_id [] h = refl
no_ec key_id (key ∷ keys) h = ground (arith, no_ec key_id keys)

no_pq :
    (key_id : ℕ) (keys : List OneTimePq)
    → has_pq_id key_id keys ≡ false
    → find_pq key_id keys ≡ none
unfolding find_pq
no_pq key_id [] h = refl
no_pq key_id (key ∷ keys) h = ground (arith, no_pq key_id keys)

erased_ec :
    (key_id : ℕ) (keys : List OneTimeEc)
    → EcUnique keys
    → find_ec key_id (erase_ec key_id keys) ≡ none
unfolding find_ec erase_ec
erased_ec key_id [] u = refl
erased_ec key_id (key ∷ keys) u = elim (Bool-cases (key.public_part.id == key_id)) [
  | inl same ↦ rw same (no_ec key_id keys (rw (← (==_iff key.public_part.id key_id).0 same) u.0))
  | inr other ↦ rw (other, other) (erased_ec key_id keys u.1)
]

erased_pq :
    (key_id : ℕ) (keys : List OneTimePq)
    → PqUnique keys
    → find_pq key_id (erase_pq key_id keys) ≡ none
unfolding find_pq erase_pq
erased_pq key_id [] u = refl
erased_pq key_id (key ∷ keys) u = elim (Bool-cases (key.public_part.id == key_id)) [
  | inl same ↦ rw same (no_pq key_id keys (rw (← (==_iff key.public_part.id key_id).0 same) u.0))
  | inr other ↦ rw (other, other) (erased_pq key_id keys u.1)
]

module _ {W : Type 0} (host : Host W) where
  -- The first message of a session is accepted only with one-time prekeys that the pools held, and where
  -- no two keys shared an id, neither pool holds the key afterwards.
  pub one_time_prekeys_used_up :
      (message : InitialMessage) (c : Client) (w : W) (text : Bytes) (s : Client × W)
      → IdsUnique c
      → handle_initial_message host message c w ≡ (ok text, s)
      → (selected : Selected) × (ec : OneTimeEc) × (pq : OneTimePq) × (selected_in message
          ≡ some selected)
        × (find_ec selected.one_time_ec_id c.one_time_ec_pool ≡ some ec)
        × (find_pq selected.one_time_pq_id c.one_time_pq_pool ≡ some pq)
        × (find_ec selected.one_time_ec_id s.0.one_time_ec_pool ≡ none)
        × (find_pq selected.one_time_pq_id s.0.one_time_pq_pool ≡ none)
  unfolding set_session use_prekeys set_guards
  one_time_prekeys_used_up message c w text s u e =
      let o = handle_initial_message-Opened host message c w text s e in
      (
        o.selected,
        o.agreed.ec,
        o.agreed.pq,
        o.checks.selects,
        o.agreed.has_ec,
        o.agreed.has_pq,
        rw o.left (erased_ec o.selected.one_time_ec_id c.one_time_ec_pool u.ec),
        rw o.left (erased_pq o.selected.one_time_pq_id c.one_time_pq_pool u.pq),
      )
