-- ===== src/Protocol/PrekeyBundle.antt =====
-- The prekeys of include/pqchat/protocol/prekey_bundle.h.
use pqchat.Prelude.{Bytes, List, ℕ}

pub record SignedPrekeyEc : Type 0 where
  pub id : ℕ
  pub public_key : Bytes
  pub signature_ed25519 : Bytes
  pub signature_mldsa65 : Bytes

pub record SignedPrekeyPq : Type 0 where
  pub id : ℕ
  pub public_key : Bytes
  pub signature_ed25519 : Bytes
  pub signature_mldsa65 : Bytes

pub record OneTimePrekeyEc : Type 0 where
  pub id : ℕ
  pub public_key : Bytes

pub record OneTimePrekeyPq : Type 0 where
  pub id : ℕ
  pub public_key : Bytes

pub record PrekeyBundle : Type 0 where
  pub user_id : Bytes
  pub identity_sign_public_key : Bytes
  pub identity_mldsa_public_key : Bytes
  pub identity_dh_public_key : Bytes
  pub signed_prekey_ec : SignedPrekeyEc
  pub signed_prekey_pq : SignedPrekeyPq
  pub one_time_ec : List OneTimePrekeyEc
  pub one_time_pq : List OneTimePrekeyPq
  pub bundle_signature_ed25519 : Bytes
  pub bundle_signature_mldsa65 : Bytes
  pub version : Bytes
  pub cipher_suite : Bytes
