-- ===== src/Hermes/Growth.antt =====
-- hermes/mailbox-store.go: the counter of names that are allocated.
use godev.Prelude.{
  ℕ, suc, ◌≤◌, arith, List, [], ◌∷◌, Option, none, some, Bytes, ◌≡◌, refl, ℤ, Bool-cases, inl, inr,
  reverse, get, without,
}
use godev.Hermes.Name.{Name, new_name, new_names}
use godev.Hermes.Message.{SendMessageRequest, Message}
use godev.Hermes.Mailbox.{Mailbox, nats_subject}
use godev.Hermes.Store.{Services, Store, MailboxFields, mailbox_of}
use godev.Hermes.Lookup.{
  check_decoded, decode_mailbox, fetch_by_admin_key, cache, lookup_stored, lookup_cached,
  mailbox_lookup, fetch_by_address, get_kv,
}
use godev.Hermes.Publish.{
  Report, publish_bytes, jet_stream_publish, publish_message, send_found, mailbox_at, send_one,
  send_all, finish_send, all_failed, error_message, rpc_header, join_errors, send_message,
  send_request, set_sender, direct_publish,
}

abbrev pub Grows : Store → Store → Type 0
Grows s s' = s.free ≤ s'.free

new_names-later : (texts : List Bytes) (free : ℕ) → free ≤ (new_names texts free).1
unfolding new_names new_name
new_names-later [] free = ground arith
new_names-later (t ∷ ts) free = ground (arith, new_names-later ts (suc free))

mailbox_of-later : (f : MailboxFields) (free : ℕ) → free ≤ (mailbox_of f free).1
unfolding mailbox_of new_name
mailbox_of-later f free = ground (arith, new_names-later f.channels (suc (suc (suc free))))

module _ (e : Services) where
  decoded-Grows :
      (key : Name) (f : Option MailboxFields) (s : Store) → Grows s (check_decoded e key f s).1
  decoded-Grows key none s = ground arith
  decoded-Grows key (some f) s = mailbox_of-later f s.free

  decode-Grows :
      (key : Name) (json : Option Bytes) (s : Store) → Grows s (decode_mailbox e key json s).1
  decode-Grows key none s = ground arith
  decode-Grows key (some json) s = decoded-Grows key (e.from_json json) s

  cache-free : (r : Option Mailbox × Store) → (cache e r).1.free ≡ r.1.free
  cache-free (none, s) = refl
  cache-free (some m, s) = refl

  stored-Grows : (text : Option Bytes) (s : Store) → Grows s (lookup_stored e text s).1
  unfolding new_name fetch_by_admin_key
  stored-Grows none s = ground arith
  stored-Grows (some text) s =
      let key : Name = record { address = s.free; text = text } in
      let s1 : Store = record s { free = suc s.free } in
      let r = decode_mailbox e key (get_kv e text s.admin_kv) s1 in
      ground (arith, cache-free r, decode-Grows key (get_kv e text s.admin_kv) s1)

  cached-Grows :
      (get_key : Mailbox → Name) (key : Bytes) (o : Option ℕ) (s : Store)
      → Grows s (lookup_cached e get_key key o s).1
  cached-Grows get_key key none s = stored-Grows (get_kv e key s.rw_kv) s
  cached-Grows get_key key (some p) s = ground arith

  publish_bytes-free :
      (subject id : Bytes) (bytes : Option Bytes) (s : Store)
      → (publish_bytes e subject id bytes s).1.free ≡ s.free
  unfolding jet_stream_publish
  publish_bytes-free subject id none s = refl
  publish_bytes-free subject id (some bs) s = refl

  found-Grows :
      (to : Bytes) (r : SendMessageRequest) (msg : Message) (m : Option Mailbox) (rep : Report)
      (s : Store)
      → Grows s (send_found e to r msg m rep s).1
  unfolding publish_message new_name
  found-Grows to r msg none rep s = ground arith
  found-Grows to r msg (some m) rep s = ground (
    arith,
    publish_bytes-free (nats_subject m (new_name r.channel s.free).0) r.idempotent_id
        (e.marshal_message msg) (record s { free = suc (suc s.free) }),
  )

  send_one-Grows :
      (to : Bytes) (r : SendMessageRequest) (msg : Message) (rep : Report) (s : Store)
      → Grows s (send_one e to r msg rep s).1
  unfolding send_one new_name fetch_by_address mailbox_lookup
  send_one-Grows to r msg rep s =
      let s1 : Store = record s { free = suc s.free } in
      let q = lookup_cached e (λ m. m.mailbox_address) to (get to s.in_memory) s1 in
      ground (
        arith,
        cached-Grows (λ m. m.mailbox_address) to (get to s.in_memory) s1,
        found-Grows to r msg (mailbox_at e q.0 q.1) rep q.1,
      )

  send_all-Grows :
      (tos : List Bytes) (r : SendMessageRequest) (msg : Message) (rep : Report) (s : Store)
      → Grows s (send_all e tos r msg rep s).1
  unfolding send_all
  send_all-Grows [] r msg rep s = ground arith
  send_all-Grows (to ∷ tos) r msg rep s =
      let q = send_one e to r msg rep s in
      ground (arith, send_one-Grows to r msg rep s, send_all-Grows tos r msg q.0 q.1)

  finish-Grows :
      (now : ℤ) (r : SendMessageRequest) (from : Mailbox) (q : Report × Store)
      → Grows q.1 (finish_send e now r from q).1
  unfolding publish_message new_name
  finish-Grows now r from (rep, s) = elim (Bool-cases (all_failed e r (reverse rep.errors))) [
    | inl h ↦ rw h (
        ground (
          arith,
          publish_bytes-free (nats_subject from (new_name r.channel s.free).0)
              (without b'-' (e.new_uuid s.uuids))
              (e.marshal_message (
                error_message now from.mailbox_address.text (rpc_header r)
                  (join_errors [] (reverse rep.errors))))
              (record s { uuids = suc s.uuids; free = suc (suc s.free) }),
        ))
    | inr h ↦ rw h (ground arith)
  ]

  sent-Grows :
      (now : ℤ) (r : SendMessageRequest) (from : Mailbox) (msg : Option Message) (s : Store)
      → Grows s (send_message e now r from msg s).1
  sent-Grows now r from none s = ground arith
  sent-Grows now r from (some msg) s =
      let none_yet : Report = record { errors = []; duplicates = [] } in
      let q = send_all e r.to r msg none_yet s in
      ground (arith, send_all-Grows r.to r msg none_yet s, finish-Grows now r from q)

  pub direct_publish-Grows :
      (now : ℤ) (r : SendMessageRequest) (from : Mailbox) (s : Store)
      → Grows s (direct_publish e now r from s).1
  unfolding direct_publish
  direct_publish-Grows now r from s = go (set_sender from.mailbox_address.text r)
    where
      go : (o : Option SendMessageRequest) → Grows s (send_request e now from o s).1
      go none = ground arith
      go (some r') = sent-Grows now r' from r'.message s
