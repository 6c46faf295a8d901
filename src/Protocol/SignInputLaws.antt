-- ===== src/Protocol/SignInputLaws.antt =====
-- Which fields a signature covers: the inputs that transport_auth.cpp and prekey_bundle.cpp of
-- src/protocol build determine the fields that they are built from.
-- A short text of octets is a field in bounds.
use pqchat.Prelude.{
  Bytes, IsU64, Option, [], ap, append_assoc, arith, codes, length, ltb, ltb→lt, none, octets_only,
  octets_only-All, refl, some, sym, true, ℕ, ◌++◌, ◌∙◌, ◌≡◌,
}
use pqchat.Protocol.Determined.{
  Determined, Determined-pair, Determined-whole, FieldFits, IsU32-Determined, IsU64-Determined,
  bytes_Determined, string_Determined,
}
use pqchat.Protocol.Serialization.Fields.{OptionalFits}
use pqchat.Protocol.Serialization.Writer.{Write, Writes, Writes-seq}
use pqchat.Protocol.SignInputs.{append_flagged, build_transport_auth_sign_input}
use pqchat.Protocol.TransportAuth.{AuthFinishRequest}

pub tag_fits : (tag : Bytes) → ltb (length tag) 100 ≡ true → octets_only tag ≡ true → FieldFits tag
tag_fits tag h e = record { within = omega (arith, ltb→lt _ _ h); octets = octets_only-All tag e }

module _ {A : Type 0} {write : A → Write} {Fits : A → Type 0} where
  -- `AppendUint32(out, v.has_value() ? 1 : 0); if (v.has_value()) …`
  pub flagged_Determined :
      Determined write Fits → Determined (append_flagged write) (OptionalFits Fits)
  unfolding append_flagged
  flagged_Determined c = record { text = flagged; writes = written; cancels = cut }
    where
      flagged : Option A → Bytes
      flagged none = IsU32-Determined.text 0
      flagged (some v) = IsU32-Determined.text 1 ++ c.text v

      written : (o : Option A) → Writes (append_flagged write o) (flagged o)
      written none = IsU32-Determined.writes 0
      written (some v) = Writes-seq _ _ (IsU32-Determined.writes 1) (c.writes v)

      cut :
          (o p : Option A) (xs ys : Bytes)
          → OptionalFits Fits o
          → OptionalFits Fits p
          → flagged o ++ xs ≡ flagged p ++ ys
          → (o ≡ p) × (xs ≡ ys)
      cut none none xs ys ho hp e =
          (refl, (IsU32-Determined.cancels 0 0 xs ys (omega arith) (omega arith) e).1)
      cut none (some w) xs ys ho hp e = absurd (
          omega (
            arith,
            (IsU32-Determined.cancels 0 1 xs (c.text w ++ ys) (omega arith) (omega arith)
                (e ∙ append_assoc (IsU32-Determined.text 1) (c.text w) ys)).0,
          ))
      cut (some v) none xs ys ho hp e = absurd (
          omega (
            arith,
            (IsU32-Determined.cancels 1 0 (c.text v ++ xs) ys (omega arith) (omega arith)
                (sym (append_assoc (IsU32-Determined.text 1) (c.text v) xs) ∙ e)).0,
          ))
      cut (some v) (some w) xs ys ho hp e =
          let rest =
            (IsU32-Determined.cancels 1 1 (c.text v ++ xs) (c.text w ++ ys) (omega arith)
              (omega arith)
              (sym (append_assoc (IsU32-Determined.text 1) (c.text v) xs)
                ∙ e
                ∙ append_assoc (IsU32-Determined.text 1) (c.text w) ys)).1 in
          let (p, q) = c.cancels v w xs ys ho hp rest in (ap some p, q)

-- The lengths of the fields fit 32 bits, and the time 64.
pub record AuthFits (v : AuthFinishRequest) : Type 0 where
  pub user : FieldFits v.user_id
  pub client : FieldFits v.client_nonce
  pub server : FieldFits v.server_nonce
  pub challenge : FieldFits v.challenge_id
  pub expiry : IsU64 v.expires_at_unix

abbrev pub unsigned_request : AuthFinishRequest → AuthFinishRequest
unsigned_request v = record v { signature_mldsa65 = [] }

-- The bytes that a client signs to log in determine the user, both nonces, the challenge and its
-- expiry, for fields whose lengths fit 32 bits and a time that fits 64.
pub finish_input_injective :
    (v w : AuthFinishRequest)
    → AuthFits v
    → AuthFits w
    → build_transport_auth_sign_input v.user_id v.client_nonce v.server_nonce v.challenge_id
        v.expires_at_unix
      ≡ build_transport_auth_sign_input w.user_id w.client_nonce w.server_nonce w.challenge_id
          w.expires_at_unix
    → unsigned_request v ≡ unsigned_request w
unfolding build_transport_auth_sign_input
finish_input_injective v w hv hw e = ap rebuild (
    Determined-whole
      (Determined-pair string_Determined (
        Determined-pair string_Determined (
          Determined-pair bytes_Determined (
            Determined-pair bytes_Determined
              (Determined-pair string_Determined IsU64-Determined)))))
      (tag, parts v) (tag, parts w) (fits, all v hv) (fits, all w hw) e)
  where
    tag : Bytes
    tag = codes "pqchat_transport_auth_v1"

    fits : FieldFits tag
    fits = tag_fits tag refl refl

    parts : AuthFinishRequest → (Bytes × (Bytes × (Bytes × (Bytes × ℕ))))
    parts v = (v.user_id, (v.client_nonce, (v.server_nonce, (v.challenge_id, v.expires_at_unix))))

    all :
        (v : AuthFinishRequest)
        → AuthFits v
        → ((FieldFits v.user_id)
            × ((FieldFits v.client_nonce)
                × ((FieldFits v.server_nonce)
                    × ((FieldFits v.challenge_id) × (IsU64 v.expires_at_unix)))))
    all v h = (h.user, (h.client, (h.server, (h.challenge, h.expiry))))

    rebuild : Bytes × (Bytes × (Bytes × (Bytes × (Bytes × ℕ)))) → AuthFinishRequest
    rebuild (t, (user, (client, (server, (challenge, expiry))))) = record {
      user_id = user;
      challenge_id = challenge;
      client_nonce = client;
      server_nonce = server;
      expires_at_unix = expiry;
      signature_mldsa65 = [];
    }
