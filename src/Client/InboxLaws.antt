-- ===== src/Client/InboxLaws.antt =====
-- What ProcessInbox of src/client/client.cpp acknowledges.
use pqchat.Client.Host.{Host}
use pqchat.Client.Inbox.{
  BatchEnd, Progress, first_of_errors, handle_batch, handle_envelope, note_error,
}
use pqchat.Client.State.{Client}
use pqchat.Prelude.{
  Bytes, List, Option, String, [], ap, append-nil, append_assoc, false, inl, inr, refl, some, sym,
  true, ℕ, ◌++◌, ◌∙◌, ◌∷◌, ◌≡◌,
}
use pqchat.Protocol.Messages.{InboxEnvelope}
use pqchat.Result.{Result-cases, err, ok}

-- The id of the last of the items, or what stood there before.
abbrev pub acked_up_to : List InboxEnvelope → Option ℕ → Option ℕ
acked_up_to [] before = before
acked_up_to (item ∷ items) before = acked_up_to items (some item.inbox_id)

module _ {W : Type 0} (host : Host W) where
  -- The envelopes are accepted one after the other, each by the client that the one before has left, and
  -- these are their texts.
  pub data Accepted : List InboxEnvelope → List Bytes → Client → W → Client → W → Type 0 where
    no_item : (c : Client) (w : W) → Accepted [] [] c w c w
    next_item :
        {item : InboxEnvelope} {items : List InboxEnvelope} {text : Bytes} {texts : List Bytes}
        {c d e : Client} {w v u : W}
        → handle_envelope host item.envelope c w ≡ (ok text, (d, v))
        → Accepted items texts d v e u
        → Accepted (item ∷ items) (text ∷ texts) c w e u

  -- Why the loop has ended, of the items that are left: there is none, or the first of them is refused.
  pub data Ended (p : Progress) (rest : List InboxEnvelope) (c : Client) (w : W) (b : BatchEnd W)
      : Type 0 where
    batch_done :
        rest ≡ []
        → b.saw_error ≡ false
        → b.progress.first_error ≡ p.first_error
        → b.client ≡ c
        → b.world ≡ w
        → Ended p rest c w b
    item_refused :
        (item : InboxEnvelope) (more : List InboxEnvelope) (text : String)
        → rest ≡ item ∷ more
        → handle_envelope host item.envelope c w ≡ (err text, (b.client, b.world))
        → b.saw_error ≡ true
        → b.progress.first_error ≡ first_of_errors p.first_error text
        → Ended p rest c w b

  -- The texts before do not matter.
  same_end :
      (p : Progress) (texts : List Bytes) (rest : List InboxEnvelope) (c : Client) (w : W)
      (b : BatchEnd W)
      → Ended (record p { plaintexts = p.plaintexts ++ texts }) rest c w b
      → Ended p rest c w b
  same_end p texts rest c w b (batch_done r s f d v) = batch_done r s f d v
  same_end p texts rest c w b (item_refused item more text r h s f) =
      item_refused item more text r h s f

  -- The batch falls into the envelopes that were accepted and the rest.
  pub record Handled (items : List InboxEnvelope) (p : Progress) (before : Option ℕ) (c : Client)
      (w : W) (b : BatchEnd W) : Type 0 where
    pub taken : List InboxEnvelope
    pub rest : List InboxEnvelope
    pub texts : List Bytes
    pub left_by : Client
    pub left_world : W
    pub split : items ≡ taken ++ rest
    pub accepted : Accepted taken texts c w left_by left_world
    pub pushed : b.progress.plaintexts ≡ p.plaintexts ++ texts
    pub acked : b.max_ackable ≡ acked_up_to taken before
    pub ended : Ended p rest left_by left_world b

  -- Envelopes are acknowledged if and only if they were accepted: a batch is handled from its front, as
  -- long as HandleInitialMessage or HandleChatMessage accepts the envelope, each by the client that the
  -- one before has left. Exactly the texts of these are pushed and the id of the last of them is what is
  -- acknowledged. The batch ends with its last envelope, or at the first that is refused, which stays
  -- unacknowledged and whose error is noted if it is the first.
  pub handle_batch-Handled :
      (items : List InboxEnvelope) (p : Progress) (before : Option ℕ) (c : Client) (w : W)
      → Handled items p before c w (handle_batch host items p before c w)
  unfolding handle_batch note_error
  handle_batch-Handled [] p before c w = record {
    taken = [];
    rest = [];
    texts = [];
    left_by = c;
    left_world = w;
    split = refl;
    accepted = no_item c w;
    pushed = sym (append-nil p.plaintexts);
    acked = refl;
    ended = batch_done refl refl refl refl refl;
  }
  handle_batch-Handled (item ∷ items) p before c w =
      let outcome = handle_envelope host item.envelope c w in
      elim (Result-cases outcome.0) [
        | inl (text, e) ↦
            rw (handle_batch, e)
              (record {
                taken = [];
                rest = item ∷ items;
                texts = [];
                left_by = c;
                left_world = w;
                split = refl;
                accepted = no_item c w;
                pushed = sym (append-nil p.plaintexts);
                acked = refl;
                ended = item_refused item items text refl (ap (λ r. (r, outcome.1)) e) refl refl;
              })
        | inr (text, e) ↦
            let rest =
              handle_batch-Handled items (record p { plaintexts = p.plaintexts ++ (text ∷ []) })
                (some item.inbox_id) outcome.1.0 outcome.1.1 in
            rw (handle_batch, e)
              (record {
                taken = item ∷ rest.taken;
                rest = rest.rest;
                texts = text ∷ rest.texts;
                left_by = rest.left_by;
                left_world = rest.left_world;
                split = ap (λ x. item ∷ x) rest.split;
                accepted = next_item (ap (λ r. (r, outcome.1)) e) rest.accepted;
                pushed = rest.pushed ∙ append_assoc p.plaintexts (text ∷ []) rest.texts;
                acked = rest.acked;
                ended = same_end p (text ∷ []) rest.rest _ _ _ rest.ended;
              })
      ]
