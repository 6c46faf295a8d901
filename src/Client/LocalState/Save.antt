-- ===== src/Client/LocalState/Save.antt =====
-- SaveLocalState of src/client/client.cpp.
use pqchat.Client.Act.{Act}
use pqchat.Client.Host.{Host}
use pqchat.Client.LocalState.Files.{ensure_state_dir, parent_dir, write_all_file_atomic}
use pqchat.Client.LocalState.Payload.{state_payload}
use pqchat.Client.LocalState.Sealed.{encrypt_state_payload, wrapped}
use pqchat.Client.State.{Client}
use pqchat.Prelude.{Bytes, none, some}
use pqchat.Result.{Result, err, ok}

module _ {W : Type 0} (host : Host W) where
  unfoldable pub save_payload : Bytes → Result Bytes → W → Result (Unit {0}) × W
  save_payload path (err text) w = (err text, w)
  save_payload path (ok payload) w =
      let (wrapped, w') = encrypt_state_payload host payload w in
      elim wrapped [
        | err text ↦ (err text, w')
        | ok bytes ↦ write_all_file_atomic host path bytes w'
      ]

  unfoldable pub save_local_state : Client → W → Result (Unit {0}) × W
  save_local_state client w = elim (parent_dir client.local_state_path) [
    | none ↦ (err "invalid local state path", w)
    | some dir ↦
        let (ensured, w') = ensure_state_dir host dir w in
        elim ensured [
          | err text ↦ (err text, w')
          | ok _ ↦ save_payload client.local_state_path (state_payload host client) w'
        ]
  ]

  -- `if (!save.ok()) return Err(prefix + save.error())`
  abbrev pub save : Act W (Unit {0})
  save client w = let (r, w') = save_local_state client w in (r, (client, w'))
