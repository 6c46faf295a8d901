-- ===== src/Protocol/TranscriptLaws.antt =====
-- Which fields the transcript hash covers: ComputeInitialTranscriptHash of src/protocol/messages.cpp.
-- The lengths of the fields fit 32 bits.
use pqchat.Prelude.{Bytes, IsU32, Option, ap, codes, refl, ℕ, ◌≡◌}
use pqchat.Protocol.Determined.{
  Determined-pair, Determined-whole, FieldFits, IsU32-Determined, bytes_Determined,
  string_Determined,
}
use pqchat.Protocol.Serialization.Fields.{OptionalFits}
use pqchat.Protocol.SignInputLaws.{flagged_Determined, tag_fits}
use pqchat.Protocol.SignInputs.{InitialTranscriptFields, initial_transcript}

pub record TranscriptFits (v : InitialTranscriptFields) : Type 0 where
  pub session : FieldFits v.session_id
  pub sender : FieldFits v.from_user
  pub receiver : FieldFits v.to_user
  pub version : FieldFits v.version
  pub suite : FieldFits v.cipher_suite
  pub from_sign : FieldFits v.initiator_identity_sign_public_key
  pub from_mldsa : FieldFits v.initiator_identity_mldsa_public_key
  pub from_dh : FieldFits v.initiator_identity_dh_public_key
  pub to_sign : FieldFits v.responder_identity_sign_public_key
  pub to_mldsa : FieldFits v.responder_identity_mldsa_public_key
  pub to_dh : FieldFits v.responder_identity_dh_public_key
  pub ephemeral : FieldFits v.initiator_ephemeral_ec_public_key
  pub ec_id : IsU32 v.selected_prekeys.signed_prekey_ec_id
  pub pq_id : IsU32 v.selected_prekeys.signed_prekey_pq_id
  pub one_time_ec : OptionalFits IsU32 v.selected_prekeys.one_time_ec_id
  pub one_time_pq : OptionalFits IsU32 v.selected_prekeys.one_time_pq_id
  pub kem : FieldFits v.kem_ciphertext_signed_pq
  pub one_time_kem : OptionalFits FieldFits v.kem_ciphertext_one_time_pq

-- The bytes that the transcript hash is taken of determine every field of the transcript, for fields
-- whose lengths fit 32 bits.
pub initial_transcript_injective :
    (v w : InitialTranscriptFields)
    → TranscriptFits v
    → TranscriptFits w
    → initial_transcript v ≡ initial_transcript w
    → v ≡ w
unfolding initial_transcript
initial_transcript_injective v w hv hw e = ap rebuild (
    Determined-whole
      (Determined-pair string_Determined (
        Determined-pair string_Determined (
          Determined-pair string_Determined (
            Determined-pair string_Determined (
              Determined-pair string_Determined (
                Determined-pair string_Determined (
                  Determined-pair bytes_Determined (
                    Determined-pair bytes_Determined (
                      Determined-pair bytes_Determined (
                        Determined-pair bytes_Determined (
                          Determined-pair bytes_Determined (
                            Determined-pair bytes_Determined (
                              Determined-pair bytes_Determined (
                                Determined-pair IsU32-Determined (
                                  Determined-pair IsU32-Determined (
                                    Determined-pair (flagged_Determined IsU32-Determined) (
                                      Determined-pair (flagged_Determined IsU32-Determined) (
                                        Determined-pair bytes_Determined
                                          (flagged_Determined bytes_Determined)))))))))))))))))))
      (tag, parts v) (tag, parts w) (fits, all v hv) (fits, all w hw) e)
  where
    tag : Bytes
    tag = codes "pqchat_initial_transcript_v1"

    fits : FieldFits tag
    fits = tag_fits tag refl refl

    parts :
        InitialTranscriptFields
        → (Bytes
            × (Bytes
                × (Bytes
                    × (Bytes
                        × (Bytes
                            × (Bytes
                                × (Bytes
                                    × (Bytes
                                        × (Bytes
                                            × (Bytes
                                                × (Bytes
                                                    × (Bytes
                                                        × (ℕ
                                                            × (ℕ
                                                            × (Option ℕ
                                                            × (Option ℕ
                                                            × (Bytes × Option Bytes)))))))))))))))))
    parts v = (
      v.session_id,
      (
        v.from_user,
        (
          v.to_user,
          (
            v.version,
            (
              v.cipher_suite,
              (
                v.initiator_identity_sign_public_key,
                (
                  v.initiator_identity_mldsa_public_key,
                  (
                    v.initiator_identity_dh_public_key,
                    (
                      v.responder_identity_sign_public_key,
                      (
                        v.responder_identity_mldsa_public_key,
                        (
                          v.responder_identity_dh_public_key,
                          (
                            v.initiator_ephemeral_ec_public_key,
                            (
                              v.selected_prekeys.signed_prekey_ec_id,
                              (
                                v.selected_prekeys.signed_prekey_pq_id,
                                (
                                  v.selected_prekeys.one_time_ec_id,
                                  (
                                    v.selected_prekeys.one_time_pq_id,
                                    (v.kem_ciphertext_signed_pq, v.kem_ciphertext_one_time_pq),
                                  ),
                                ),
                              ),
                            ),
                          ),
                        ),
                      ),
                    ),
                  ),
                ),
              ),
            ),
          ),
        ),
      ),
    )

    all :
        (v : InitialTranscriptFields)
        → TranscriptFits v
        → ((FieldFits v.session_id)
            × ((FieldFits v.from_user)
                × ((FieldFits v.to_user)
                    × ((FieldFits v.version)
                        × ((FieldFits v.cipher_suite)
                            × ((FieldFits v.initiator_identity_sign_public_key)
                                × ((FieldFits v.initiator_identity_mldsa_public_key)
                                    × ((FieldFits v.initiator_identity_dh_public_key)
                                        × ((FieldFits v.responder_identity_sign_public_key)
                                            × ((FieldFits v.responder_identity_mldsa_public_key)
                                                × ((FieldFits v.responder_identity_dh_public_key)
                                                    × ((FieldFits
                                                          v.initiator_ephemeral_ec_public_key)
                                                        × ((IsU32
                                                            v.selected_prekeys.signed_prekey_ec_id)
                                                            × ((IsU32
                                                            v.selected_prekeys.signed_prekey_pq_id)
                                                            × ((OptionalFits IsU32
                                                            v.selected_prekeys.one_time_ec_id)
                                                            × ((OptionalFits IsU32
                                                            v.selected_prekeys.one_time_pq_id)
                                                            × ((FieldFits
                                                            v.kem_ciphertext_signed_pq)
                                                            × (OptionalFits FieldFits
                                                            v.kem_ciphertext_one_time_pq))))))))))))))))))
    all v h = (
      h.session,
      (
        h.sender,
        (
          h.receiver,
          (
            h.version,
            (
              h.suite,
              (
                h.from_sign,
                (
                  h.from_mldsa,
                  (
                    h.from_dh,
                    (
                      h.to_sign,
                      (
                        h.to_mldsa,
                        (
                          h.to_dh,
                          (
                            h.ephemeral,
                            (
                              h.ec_id,
                              (h.pq_id, (h.one_time_ec, (h.one_time_pq, (h.kem, h.one_time_kem)))),
                            ),
                          ),
                        ),
                      ),
                    ),
                  ),
                ),
              ),
            ),
          ),
        ),
      ),
    )

    rebuild :
        Bytes
          × (Bytes
              × (Bytes
                  × (Bytes
                      × (Bytes
                          × (Bytes
                              × (Bytes
                                  × (Bytes
                                      × (Bytes
                                          × (Bytes
                                              × (Bytes
                                                  × (Bytes
                                                      × (Bytes
                                                          × (ℕ
                                                            × (ℕ
                                                            × (Option ℕ
                                                            × (Option ℕ
                                                            × (Bytes × Option Bytes)))))))))))))))))
        → InitialTranscriptFields
    rebuild
          (
            t,
            (
              session,
              (
                sender,
                (
                  receiver,
                  (
                    version,
                    (
                      suite,
                      (
                        from_sign,
                        (
                          from_mldsa,
                          (
                            from_dh,
                            (
                              to_sign,
                              (
                                to_mldsa,
                                (
                                  to_dh,
                                  (
                                    ephemeral,
                                    (
                                      ec_id,
                                      (pq_id, (one_time_ec, (one_time_pq, (kem, one_time_kem)))),
                                    ),
                                  ),
                                ),
                              ),
                            ),
                          ),
                        ),
                      ),
                    ),
                  ),
                ),
              ),
            ),
          ) =
        record {
          session_id = session;
          from_user = sender;
          to_user = receiver;
          version = version;
          cipher_suite = suite;
          initiator_identity_sign_public_key = from_sign;
          initiator_identity_mldsa_public_key = from_mldsa;
          initiator_identity_dh_public_key = from_dh;
          responder_identity_sign_public_key = to_sign;
          responder_identity_mldsa_public_key = to_mldsa;
          responder_identity_dh_public_key = to_dh;
          initiator_ephemeral_ec_public_key = ephemeral;
          selected_prekeys = record {
            signed_prekey_ec_id = ec_id;
            signed_prekey_pq_id = pq_id;
            one_time_ec_id = one_time_ec;
            one_time_pq_id = one_time_pq;
          };
          kem_ciphertext_signed_pq = kem;
          kem_ciphertext_one_time_pq = one_time_kem;
        }
