-- ===== src/Hermes/Unsent.antt =====
-- hermes/mailbox-store.go: what `DirectPublishSendMessageRequestX` does when no lookup finds a mailbox.
use mathlib.Core.Path.{subst, sym}
use mathlib.Core.List.{reverse_aux, reverse-reverse}
use godev.Prelude.{
  ℕ, suc, true, false, List, [], ◌∷◌, ◌++◌, map, Option, none, some, Bytes, ◌≡◌, refl, ap, ◌∙◌, ℤ,
  reverse, if◌then◌else◌, ltb, length, ◌&&◌, codes, length-map, ==_iff, Bool, without, without,
  without,
}
use godev.Hermes.Name.{new_name}
use godev.Hermes.Mailbox.{Mailbox, nats_subject}
use godev.Hermes.Message.{SendMessageRequest, Message, RpcHeader, MessageHeader, SendMessageError}
use godev.Hermes.Store.{Services, Store, Publication}
use godev.Hermes.Lookup.{fetch_by_address, mailbox_lookup}
use godev.Hermes.Publish.{
  Report, not_found, send_found, mailbox_at, send_one, send_all, direct_publish, Sent, is_request,
  error_message, join_errors, message_id_of, jet_stream_publish, publish_message, all_failed,
  rpc_header, publish_bytes, finish_send, respond_error,
}
use godev.Hermes.Misses.{mailbox_lookup-Looked}

abbrev pub missed : List Bytes → Report → Report
missed [] rep = rep
missed (to ∷ tos) rep = missed tos (record rep { errors = not_found to ∷ rep.errors })

missed-errors :
    (tos : List Bytes) (rep : Report)
    → missed tos rep ≡ record rep { errors = reverse_aux (map not_found tos) rep.errors }
missed-errors [] rep = refl
missed-errors (to ∷ tos) rep = missed-errors tos (record rep { errors = not_found to ∷ rep.errors })

module _ (e : Services) where
  abbrev pub Missed : List Bytes → Report → Store → Report × Store → Type 0
  Missed tos rep s r = (r.0 ≡ missed tos rep) × ((free : ℕ) × (r.1 ≡ record s { free = free }))

  found-Missed :
      (to : Bytes) (r : SendMessageRequest) (msg : Message) (rep : Report) (s s' : Store)
      (p : Option ℕ) (free : ℕ)
      → p ≡ none
      → s' ≡ record s { free = free }
      → Missed (to ∷ []) rep s (send_found e to r msg (mailbox_at e p s') rep s')
  found-Missed to r msg rep s s' p free h l = rw h (refl, (free, l))

  send_one-Missed :
      (to : Bytes) (r : SendMessageRequest) (msg : Message) (rep : Report) (s : Store)
      → s.in_memory ≡ []
      → Missed (to ∷ []) rep s (send_one e to r msg rep s)
  unfolding send_one new_name fetch_by_address
  send_one-Missed to r msg rep s h =
      let s1 : Store = record s { free = suc s.free } in
      let q = mailbox_lookup e (λ m. m.mailbox_address) to s1 in
      let (n, (free, l)) = mailbox_lookup-Looked e (λ m. m.mailbox_address) to s1 h in
      found-Missed to r msg rep s q.1 q.0 free n l

  -- Every recipient is reported, in their order; nothing is published.
  pub send_all-Missed :
      (tos : List Bytes) (r : SendMessageRequest) (msg : Message) (rep : Report) (s : Store)
      → s.in_memory ≡ []
      → Missed tos rep s (send_all e tos r msg rep s)
  unfolding send_all
  send_all-Missed [] r msg rep s h = (refl, (s.free, refl))
  send_all-Missed (to ∷ tos) r msg rep s h =
      let q = send_one e to r msg rep s in
      let (p, (free, l)) = send_one-Missed to r msg rep s h in
      let rep' = missed (to ∷ []) rep in
      subst (λ x. Missed tos rep' s (send_all e tos r msg x q.1)) (sym p)
        (subst (λ x. Missed tos rep' s (send_all e tos r msg rep' x)) (sym l)
          (send_all-Missed tos r msg rep' (record s { free = free }) h))

  -- What a request to other mailboxes does at JetStream: nothing for its recipients, and for an RPC
  -- request with recipients one error response to the sender.
  abbrev pub answered :
      ℤ
      → Mailbox
      → SendMessageRequest
      → Option RpcHeader
      → Bytes
      → List Publication
      → List Publication
  answered now from r h id published =
      if ltb 0 (length r.to) && is_request h
      then elim (e.marshal_message
          (error_message now from.mailbox_address.text h (join_errors [] (map not_found r.to)))) [
            | none ↦ published
            | some bytes ↦
                record {
                  subject = codes "hermes." ++ (from.admin_key.text ++ (b'.' ∷ r.channel));
                  bytes = bytes;
                  message_id = message_id_of id;
                }
                ∷ published
          ]
      else published

  -- The end of a publication that reaches no recipient: a response that reports each of them.
  abbrev pub Unsent :
      ℤ → SendMessageRequest → Option RpcHeader → Mailbox → Store → Option Sent × Store → Type 0
  Unsent now r h from s out =
      (sent : Sent) × ((out.0 ≡ some sent)
        × ((sent.response.errors ≡ map not_found r.to)
            × ((sent.response.duplicates ≡ [])
                × (out.1.published
                    ≡ answered now from r h (without b'-' (e.new_uuid s.uuids)) s.published))))

  published-bytes :
      (subject id : Bytes) (bytes : Option Bytes) (s : Store)
      → (publish_bytes e subject id bytes s).1.published ≡ elim bytes [
        | none ↦ s.published
        | some bs ↦
            record { subject = subject; bytes = bs; message_id = message_id_of id } ∷ s.published
      ]
  unfolding jet_stream_publish
  published-bytes subject id none s = refl
  published-bytes subject id (some bs) s = refl

  -- The response to the sender, under the test that the code makes.
  responded :
      (now : ℤ) (r : SendMessageRequest) (from : Mailbox) (s : Store)
      (errors : List SendMessageError) (b : Bool)
      → errors ≡ map not_found r.to
      → b ≡ (ltb 0 (length r.to) && is_request (rpc_header r))
      → (if b then respond_error e now r errors from s else s).published
        ≡ answered now from r (rpc_header r) (without b'-' (e.new_uuid s.uuids)) s.published
  unfolding publish_message nats_subject new_name
  responded now r from s errors true h k =
      rw (h, ← k)
        (published-bytes (nats_subject from (new_name r.channel s.free).0)
          (without b'-' (e.new_uuid s.uuids))
          (e.marshal_message (
            error_message now from.mailbox_address.text (rpc_header r)
              (join_errors [] (map not_found r.to))))
          (record s { uuids = suc s.uuids; free = suc (suc s.free) }))
  responded now r from s errors false h k = rw (← k) refl

  all_failed-not_found :
      (r : SendMessageRequest)
      → all_failed e r (map not_found r.to) ≡ (ltb 0 (length r.to) && is_request (rpc_header r))
  all_failed-not_found r =
      rw (length-map r.to not_found, (==_iff (length r.to) (length r.to)).1 refl) refl

  finish-Unsent :
      (now : ℤ) (r : SendMessageRequest) (from : Mailbox) (s : Store) (free : ℕ)
      (q : Report × Store)
      → q.0 ≡ missed r.to (record { errors = []; duplicates = [] })
      → q.1 ≡ record s { free = free }
      → Unsent now r
          (rpc_header r)
          from
          s
          (let (sent, s') = finish_send e now r from q in (some sent, s'))
  finish-Unsent now r from s free q h l =
      let none_yet : Report = record { errors = []; duplicates = [] } in
      let m : q.0 ≡ record { errors = reverse (map not_found r.to); duplicates = [] } =
        h ∙ missed-errors r.to none_yet in
      let x : reverse q.0.errors ≡ map not_found r.to =
        ap (λ p. reverse p.errors) m ∙ reverse-reverse (map not_found r.to) in
      (
        (finish_send e now r from q).0,
        (
          refl,
          (
            x,
            (
              ap (λ p. reverse p.duplicates) m,
              responded now r from q.1 (reverse q.0.errors) (all_failed e r (reverse q.0.errors)) x
                    (ap (all_failed e r) x ∙ all_failed-not_found r)
                  ∙ ap
                      (λ p.
                        answered now from r (rpc_header r) (without b'-' (e.new_uuid p.uuids))
                          p.published)
                      l,
            ),
          ),
        ),
      )

  -- A direct publication with nothing cached returns a response that reports every recipient as not
  -- found, in order, and no duplicate; no message is published for a recipient, and the one
  -- publication is the error response to the sender of an RPC request that has recipients.
  pub direct_publish-Unsent :
      (now : ℤ) (r : SendMessageRequest) (msg : Message) (h : MessageHeader) (from : Mailbox)
      (s : Store)
      → r.message ≡ some msg
      → msg.header ≡ some h
      → s.in_memory ≡ []
      → Unsent now r h.rpc_header from s (direct_publish e now r from s)
  unfolding direct_publish
  direct_publish-Unsent now r msg h from s hm hh c =
      let h' : MessageHeader = record h { sender = from.mailbox_address.text } in
      let msg' : Message = record msg { header = some h' } in
      let r' : SendMessageRequest = record r { message = some msg' } in
      let none_yet : Report = record { errors = []; duplicates = [] } in
      let (m, (free, l)) = send_all-Missed r.to r' msg' none_yet s c in
      rw (hm, hh) (finish-Unsent now r' from s free (send_all e r.to r' msg' none_yet s) m l)
