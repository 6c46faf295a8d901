-- ===== src/Examples/Signing.antt =====
-- Inputs of signatures and hashes, and hexadecimal texts.
use pqchat.Prelude.{
  Bytes, List, [], arith, codes, length, ltb, none, octets_only, refl, some, true, ◌∷◌, ◌≡◌,
}
use pqchat.Protocol.BundleInputLaws.{BundleFits, build_bundle_sign_input_injective, signed_part}
use pqchat.Protocol.ChatInputLaws.{ChatFits, bound_part, chat_associated_data_injective}
use pqchat.Protocol.Determined.{FieldFits}
use pqchat.Protocol.Messages.{ChatMessage}
use pqchat.Protocol.PrekeyBundle.{OneTimePrekeyEc, PrekeyBundle}
use pqchat.Protocol.SignInputLaws.{AuthFits, finish_input_injective, tag_fits, unsigned_request}
use pqchat.Protocol.SignInputs.{
  InitialTranscriptFields, build_bundle_sign_input, chat_associated_data, cipher_suite,
  protocol_version,
}
use pqchat.Protocol.TranscriptLaws.{TranscriptFits, initial_transcript_injective}
use pqchat.Protocol.TransportAuth.{AuthFinishRequest}

short : (xs : Bytes) → ltb (length xs) 100 ≡ true → octets_only xs ≡ true → FieldFits xs
short = tag_fits

abbrev request : AuthFinishRequest
request = record {
  user_id = codes "al";
  challenge_id = codes "c";
  client_nonce = 1 ∷ [];
  server_nonce = 2 ∷ [];
  expires_at_unix = 60;
  signature_mldsa65 = 3 ∷ [];
}

abbrev resigned : AuthFinishRequest
resigned = record request { signature_mldsa65 = 4 ∷ [] }

request_fits : (signature : Bytes) → AuthFits (record request { signature_mldsa65 = signature })
request_fits signature = record {
  user = short _ refl refl;
  client = short _ refl refl;
  server = short _ refl refl;
  challenge = short _ refl refl;
  expiry = omega arith;
}

finish_input_injective_example : unsigned_request request ≡ unsigned_request resigned
finish_input_injective_example =
    finish_input_injective request resigned (request_fits (3 ∷ [])) (request_fits (4 ∷ [])) refl

abbrev bundle : List OneTimePrekeyEc → Bytes → PrekeyBundle
bundle one_time signature = record {
  user_id = codes "al";
  identity_sign_public_key = 1 ∷ [];
  identity_mldsa_public_key = 2 ∷ [];
  identity_dh_public_key = 3 ∷ [];
  signed_prekey_ec = record {
    id = 7;
    public_key = 4 ∷ [];
    signature_ed25519 = 5 ∷ [];
    signature_mldsa65 = 6 ∷ [];
  };
  signed_prekey_pq = record {
    id = 8;
    public_key = 7 ∷ [];
    signature_ed25519 = 8 ∷ [];
    signature_mldsa65 = 9 ∷ [];
  };
  one_time_ec = one_time;
  one_time_pq = [];
  bundle_signature_ed25519 = signature;
  bundle_signature_mldsa65 = 15 ∷ [];
  version = protocol_version;
  cipher_suite = cipher_suite;
}

bundle_fits :
    (one_time : List OneTimePrekeyEc) (signature : Bytes) → BundleFits (bundle one_time signature)
bundle_fits one_time signature = record {
  user = short _ refl refl;
  sign = short _ refl refl;
  mldsa = short _ refl refl;
  dh = short _ refl refl;
  ec_id = omega arith;
  ec_key = short _ refl refl;
  ec_ed25519 = short _ refl refl;
  ec_mldsa65 = short _ refl refl;
  pq_id = omega arith;
  pq_key = short _ refl refl;
  pq_ed25519 = short _ refl refl;
  pq_mldsa65 = short _ refl refl;
  version = short _ refl refl;
  suite = short _ refl refl;
}

abbrev spare : List OneTimePrekeyEc
spare = (record { id = 10; public_key = 11 ∷ [] }) ∷ []

build_bundle_sign_input_injective_example :
    signed_part (bundle spare (14 ∷ [])) ≡ signed_part (bundle [] (16 ∷ []))
unfolding build_bundle_sign_input
build_bundle_sign_input_injective_example =
    build_bundle_sign_input_injective (bundle spare (14 ∷ [])) (bundle [] (16 ∷ []))
      (bundle_fits spare (14 ∷ [])) (bundle_fits [] (16 ∷ [])) refl

abbrev transcript : InitialTranscriptFields
transcript = record {
  session_id = codes "s";
  from_user = codes "al";
  to_user = codes "bo";
  version = protocol_version;
  cipher_suite = cipher_suite;
  initiator_identity_sign_public_key = 1 ∷ [];
  initiator_identity_mldsa_public_key = 2 ∷ [];
  initiator_identity_dh_public_key = 3 ∷ [];
  responder_identity_sign_public_key = 4 ∷ [];
  responder_identity_mldsa_public_key = 5 ∷ [];
  responder_identity_dh_public_key = 6 ∷ [];
  initiator_ephemeral_ec_public_key = 7 ∷ [];
  selected_prekeys = record {
    signed_prekey_ec_id = 8;
    signed_prekey_pq_id = 9;
    one_time_ec_id = some 10;
    one_time_pq_id = none;
  };
  kem_ciphertext_signed_pq = 11 ∷ [];
  kem_ciphertext_one_time_pq = none;
}

transcript_fits : TranscriptFits transcript
transcript_fits = record {
  session = short _ refl refl;
  sender = short _ refl refl;
  receiver = short _ refl refl;
  version = short _ refl refl;
  suite = short _ refl refl;
  from_sign = short _ refl refl;
  from_mldsa = short _ refl refl;
  from_dh = short _ refl refl;
  to_sign = short _ refl refl;
  to_mldsa = short _ refl refl;
  to_dh = short _ refl refl;
  ephemeral = short _ refl refl;
  ec_id = omega arith;
  pq_id = omega arith;
  one_time_ec = omega arith;
  one_time_pq = tt;
  kem = short _ refl refl;
  one_time_kem = tt;
}

initial_transcript_injective_example : transcript ≡ transcript
initial_transcript_injective_example =
    initial_transcript_injective transcript transcript transcript_fits transcript_fits refl

abbrev message : Bytes → Bytes → ChatMessage
message nonce ciphertext = record {
  session_id = codes "s";
  from_user = codes "al";
  to_user = codes "bo";
  header = record {
    sender_ratchet_public_key = some (9 ∷ []);
    previous_chain_length = 2;
    message_number = 3;
    flags = 1;
  };
  nonce = nonce;
  ciphertext = ciphertext;
}

message_fits : (nonce ciphertext : Bytes) → ChatFits (message nonce ciphertext)
message_fits nonce ciphertext = record {
  session = short _ refl refl;
  sender = short _ refl refl;
  receiver = short _ refl refl;
  chain = omega arith;
  number = omega arith;
  flags = omega arith;
  ratchet = short _ refl refl;
}

chat_associated_data_injective_example :
    bound_part (message [] (5 ∷ [])) ≡ bound_part (message (4 ∷ []) [])
unfolding chat_associated_data
chat_associated_data_injective_example =
    chat_associated_data_injective (message [] (5 ∷ [])) (message (4 ∷ []) [])
      (message_fits [] (5 ∷ [])) (message_fits (4 ∷ []) []) refl
