-- ===== src/Hermes/Uncached.antt =====
-- hermes/mailbox-store.go: the operations of the store in any order, and the cache under them.
use mathlib.Core.Path.{subst, sym}
use godev.Prelude.{
  Bool, true, false, List, [], ◌∷◌, Option, none, some, Bytes, ◌≡◌, refl, ap, ◌∙◌, ℤ, Bool-cases,
  inl, inr, bytes_eq, if◌then◌else◌, reverse, ◌++◌, suc, All, ℕ, without,
}
use godev.Hermes.Name.{Name, new_name, same, rpc_sent}
use godev.Hermes.Message.{SendMessageRequest, Message}
use godev.Hermes.Mailbox.{Mailbox, is_valid_channel, nats_stream_name, nats_subject}
use godev.Hermes.Store.{
  Services, Store, Result, ok, err, add_channel, append_channel, make_stream, update_mailbox,
  write_json, fields_of,
}
use godev.Hermes.Lookup.{
  CreateMailboxRequest, create_mailbox, create_mailbox_impl, fetch_or_create_named, mailbox_lookup,
  place_of, named_request, choose_keys,
}
use godev.Hermes.Passes.{purge_pass, sync_pass, for_each_in_memory, for_each_mailbox, for_each_name}
use godev.Hermes.Publish.{
  direct_publish, send_request, Report, finish_send, send_all, publish_bytes, jet_stream_publish,
  publish_message, set_sender, send_message, all_failed, error_message, rpc_header, join_errors,
}
use godev.Hermes.Creation.{Created, create_mailbox_impl-Created, Made, make_stream-Made}
use godev.Hermes.Misses.{mailbox_lookup-Looked, Looked}
use godev.Hermes.Named.{fetch_or_create-creates}
use godev.Hermes.Purging.{purge_pass-nil_dereference, sync_pass-IsRandomKey, IsRandomKey}
use godev.Hermes.Unsent.{send_all-Missed}

module _ (e : Services) where
  -- One operation of the store. A mailbox that was created is a new place of the heap.
  pub data StoreStep (s : Store) : Store → Type 0 where
    creates :
        (now : ℤ) (req : CreateMailboxRequest)
        → StoreStep s (place_of e (create_mailbox e now req s)).1
    fetches_or_creates :
        (now : ℤ) (address : Name) → StoreStep s (fetch_or_create_named e now address s).1
    looks_up :
        (get_key : Mailbox → Name) (key : Bytes) → StoreStep s (mailbox_lookup e get_key key s).1
    adds_channel :
        (m : Mailbox) (c : Name) (update : Bool) → StoreStep s (add_channel e m c update s).1
    publishes :
        (now : ℤ) (r : SendMessageRequest) (from : Mailbox)
        → StoreStep s (direct_publish e now r from s).1
    purges : (now : ℤ) → StoreStep s (purge_pass e now s).1
    syncs : StoreStep s (sync_pass e s).1

  pub data Run (s : Store) : Store → Type 0 where
    no_step : Run s s
    then_step : {s' s'' : Store} → Run s s' → StoreStep s' s'' → Run s s''

  created-uncached :
      (now : ℤ) (req : CreateMailboxRequest) (address : Name) (s : Store)
      → (place_of e (create_mailbox_impl e now req address s)).1.in_memory ≡ s.in_memory
  created-uncached now req address s =
      go (create_mailbox_impl e now req address s) (create_mailbox_impl-Created e now req address s)
    where
      go :
          (r : Result Mailbox × Store)
          → Created e now (choose_keys e.new_uuid address s).0 s r
          → (place_of e r).1.in_memory ≡ s.in_memory
      go (err x, s') (a, (b, (c, d))) = c
      go (ok m, s') (a, (b, (c, (d, f)))) = d

  update-uncached : (m : Mailbox) (s : Store) → (update_mailbox e m s).in_memory ≡ s.in_memory
  unfolding update_mailbox
  update-uncached m s = go (e.to_json (fields_of m))
    where
      go : (json : Option Bytes) → (write_json e m json s).in_memory ≡ s.in_memory
      go none = refl
      go (some json) = refl

  append-uncached :
      (m : Mailbox) (c : Name) (update : Bool) (o : Option Store) (s : Store)
      → Made s o
      → (append_channel e m c update o s).1.in_memory ≡ s.in_memory
  append-uncached m c update none s h = refl
  append-uncached m c true (some s') s (a, (b, (i, d))) =
      let m' : Mailbox = record m {
        sent = if same c rpc_sent then some true else m.sent;
        channels = m.channels ++ c ∷ [];
      } in
      update-uncached m' s' ∙ i
  append-uncached m c false (some s') s (a, (b, (i, d))) = i

  add_channel-uncached :
      (m : Mailbox) (c : Name) (update : Bool) (s : Store)
      → (add_channel e m c update s).1.in_memory ≡ s.in_memory
  unfolding add_channel
  add_channel-uncached m c update s = elim (Bool-cases (is_valid_channel m c)) [
    | inl h ↦ rw h refl
    | inr h ↦ elim (Bool-cases (bytes_eq c.text [])) [
      | inl k ↦ rw (h, k) refl
      | inr k ↦
          rw (h, k)
            (append-uncached m c update (make_stream e (nats_stream_name m c) s) s
              (make_stream-Made e (nats_stream_name m c) s))
    ]
  ]

  publish_bytes-uncached :
      (subject id : Bytes) (bytes : Option Bytes) (s : Store)
      → (publish_bytes e subject id bytes s).1.in_memory ≡ s.in_memory
  unfolding jet_stream_publish
  publish_bytes-uncached subject id none s = refl
  publish_bytes-uncached subject id (some bs) s = refl

  finish-uncached :
      (now : ℤ) (r : SendMessageRequest) (from : Mailbox) (q : Report × Store)
      → (finish_send e now r from q).1.in_memory ≡ q.1.in_memory
  unfolding publish_message new_name
  finish-uncached now r from (rep, s) = elim (Bool-cases (all_failed e r (reverse rep.errors))) [
    | inl h ↦ rw h (
        publish_bytes-uncached (nats_subject from (new_name r.channel s.free).0)
          (without b'-' (e.new_uuid s.uuids))
          (e.marshal_message (
            error_message now from.mailbox_address.text (rpc_header r)
              (join_errors [] (reverse rep.errors))))
          (record s { uuids = suc s.uuids; free = suc (suc s.free) }))
    | inr h ↦ rw h refl
  ]

  sent-uncached :
      (now : ℤ) (r : SendMessageRequest) (from : Mailbox) (msg : Option Message) (s : Store)
      → s.in_memory ≡ []
      → (send_message e now r from msg s).1.in_memory ≡ []
  sent-uncached now r from none s h = h
  sent-uncached now r from (some msg) s h =
      let none_yet : Report = record { errors = []; duplicates = [] } in
      let (m, (free, l)) = send_all-Missed e r.to r msg none_yet s h in
      finish-uncached now r from (send_all e r.to r msg none_yet s) ∙ (ap (λ x. x.in_memory) l ∙ h)

  direct_publish-uncached :
      (now : ℤ) (r : SendMessageRequest) (from : Mailbox) (s : Store)
      → s.in_memory ≡ []
      → (direct_publish e now r from s).1.in_memory ≡ []
  unfolding direct_publish
  direct_publish-uncached now r from s h = go (set_sender from.mailbox_address.text r)
    where
      go : (o : Option SendMessageRequest) → (send_request e now from o s).1.in_memory ≡ []
      go none = h
      go (some r') = sent-uncached now r' from r'.message s h

  purge_pass-uncached : (now : ℤ) (s : Store) → (purge_pass e now s).1.in_memory ≡ s.in_memory
  unfolding purge_pass for_each_mailbox for_each_name
  purge_pass-uncached now s = go (e.list_keys s.admin_kv) refl
    where
      go :
          (o : Option (List Bytes))
          → e.list_keys s.admin_kv ≡ o
          → (purge_pass e now s).1.in_memory ≡ s.in_memory
      go none h = rw h refl
      go (some []) h = rw h refl
      go (some (k ∷ ks)) h = ap (λ x. x.1.in_memory) (purge_pass-nil_dereference e now s k ks h).1

  StoreStep-uncached : {s s' : Store} → StoreStep s s' → s.in_memory ≡ [] → s'.in_memory ≡ []
  unfolding create_mailbox sync_pass for_each_in_memory
  StoreStep-uncached {s} (creates now req) h =
      let (a, free) = new_name [] s.free in
      created-uncached now req a (record s { free = free }) ∙ h
  StoreStep-uncached {s} (fetches_or_creates now a) h =
      let (free, l) = fetch_or_create-creates e now a s h in
      ap (λ x. x.1.in_memory) l
      ∙ (created-uncached now (named_request e) a (record s { free = free }) ∙ h)
  StoreStep-uncached {s} (looks_up get_key key) h =
      ap (λ x. x.in_memory) (mailbox_lookup-Looked e get_key key s h).1.1 ∙ h
  StoreStep-uncached {s} (adds_channel m c update) h = add_channel-uncached m c update s ∙ h
  StoreStep-uncached {s} (publishes now r from) h = direct_publish-uncached now r from s h
  StoreStep-uncached {s} (purges now) h = purge_pass-uncached now s ∙ h
  StoreStep-uncached {s} syncs h =
      ap (λ x. x.1.in_memory)
        (sync_pass-IsRandomKey e s (subst (All (λ (c : Bytes × ℕ). IsRandomKey e c.0)) (sym h) tt))
      ∙ h

  pub Run-uncached : {s s' : Store} → Run s s' → s.in_memory ≡ [] → s'.in_memory ≡ []
  Run-uncached no_step h = h
  Run-uncached (then_step r step) h = StoreStep-uncached step (Run-uncached r h)

  -- From a store that caches nothing, as it is when the program starts, through any sequence of
  -- creations, lookups, added channels, publications and passes: a lookup by address or by reader key
  -- finds no mailbox, and leaves the store as it was but for the names that it allocates.
  pub Run-Looked :
      {s s' : Store} (r : Run s s') (get_key : Mailbox → Name) (key : Bytes)
      → s.in_memory ≡ []
      → Looked e s' (mailbox_lookup e get_key key s')
  Run-Looked {s' = s'} r get_key key h = mailbox_lookup-Looked e get_key key s' (Run-uncached r h)
