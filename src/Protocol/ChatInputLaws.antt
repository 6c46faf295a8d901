-- ===== src/Protocol/ChatInputLaws.antt =====
-- Which fields the associated data of a chat message covers: BuildChatAssociatedData of
-- src/protocol/messages.cpp.
use pqchat.Prelude.{Bytes, IsU32, IsU64, Option, [], ap, codes, refl, ℕ, ◌≡◌}
use pqchat.Protocol.Determined.{
  Determined-pair, Determined-whole, FieldFits, IsU32-Determined, IsU64-Determined,
  bytes_Determined, string_Determined,
}
use pqchat.Protocol.Messages.{ChatMessage}
use pqchat.Protocol.Serialization.Fields.{OptionalFits}
use pqchat.Protocol.SignInputLaws.{flagged_Determined, tag_fits}
use pqchat.Protocol.SignInputs.{chat_associated_data}

pub record ChatFits (v : ChatMessage) : Type 0 where
  pub session : FieldFits v.session_id
  pub sender : FieldFits v.from_user
  pub receiver : FieldFits v.to_user
  pub chain : IsU64 v.header.previous_chain_length
  pub number : IsU64 v.header.message_number
  pub flags : IsU32 v.header.flags
  pub ratchet : OptionalFits FieldFits v.header.sender_ratchet_public_key

abbrev pub bound_part : ChatMessage → ChatMessage
bound_part v = record v { nonce = []; ciphertext = [] }

-- The bytes that the associated data of a chat message is the hash of determine the message, all but
-- its nonce and ciphertext, for fields whose lengths fit 32 bits and numbers that fit their words.
pub chat_associated_data_injective :
    (v w : ChatMessage)
    → ChatFits v
    → ChatFits w
    → chat_associated_data v ≡ chat_associated_data w
    → bound_part v ≡ bound_part w
unfolding chat_associated_data
chat_associated_data_injective v w hv hw e = ap rebuild (
    Determined-whole
      (Determined-pair string_Determined (
        Determined-pair string_Determined (
          Determined-pair string_Determined (
            Determined-pair string_Determined (
              Determined-pair IsU64-Determined (
                Determined-pair IsU64-Determined
                  (Determined-pair IsU32-Determined (flagged_Determined bytes_Determined))))))))
      (tag, parts v) (tag, parts w) (fits, all v hv) (fits, all w hw) e)
  where
    tag : Bytes
    tag = codes "pqchat_chat_ad_v1"

    fits : FieldFits tag
    fits = tag_fits tag refl refl

    parts : ChatMessage → (Bytes × (Bytes × (Bytes × (ℕ × (ℕ × (ℕ × Option Bytes))))))
    parts v = (
      v.session_id,
      (
        v.from_user,
        (
          v.to_user,
          (
            v.header.previous_chain_length,
            (v.header.message_number, (v.header.flags, v.header.sender_ratchet_public_key)),
          ),
        ),
      ),
    )

    all :
        (v : ChatMessage)
        → ChatFits v
        → ((FieldFits v.session_id)
            × ((FieldFits v.from_user)
                × ((FieldFits v.to_user)
                    × ((IsU64 v.header.previous_chain_length)
                        × ((IsU64 v.header.message_number)
                            × ((IsU32 v.header.flags)
                                × (OptionalFits FieldFits v.header.sender_ratchet_public_key)))))))
    all v h = (h.session, (h.sender, (h.receiver, (h.chain, (h.number, (h.flags, h.ratchet))))))

    rebuild : Bytes × (Bytes × (Bytes × (Bytes × (ℕ × (ℕ × (ℕ × Option Bytes)))))) → ChatMessage
    rebuild (t, (session, (sender, (receiver, (chain, (number, (flags, ratchet))))))) = record {
      session_id = session;
      from_user = sender;
      to_user = receiver;
      header = record {
        sender_ratchet_public_key = ratchet;
        previous_chain_length = chain;
        message_number = number;
        flags = flags;
      };
      nonce = [];
      ciphertext = [];
    }
