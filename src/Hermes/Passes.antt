-- ===== src/Hermes/Passes.antt =====
-- hermes/mailbox.go and hermes/server.go: `Purge`, and the passes over all mailboxes.
use godev.Prelude.{
  ℕ, List, [], ◌∷◌, reverse, Option, none, some, Bytes, codes, ℤ, if◌then◌else◌, get_elem?,
  bytes_eq, delete, has_prefix,
}
use godev.Hermes.Name.{Name, new_name}
use godev.Hermes.Mailbox.{Mailbox, nats_stream_name, is_purgable}
use godev.Hermes.Store.{Services, Bucket, Store, StoreError, update_mailbox}
use godev.Hermes.Lookup.{fetch_by_admin_key}

unfoldable pub delete_stream : Bytes → List Bytes → List Bytes
delete_stream n [] = []
delete_stream n (s ∷ ss) = if bytes_eq s n then ss else s ∷ delete_stream n ss

-- What a visit of a mailbox ends in, and a pass. `joined` has the errors in their order.
pub data Visit : Type 0 where
  visited visit_panics : Visit
  failed : StoreError → Visit

pub data Pass : Type 0 where
  no_keys nil_dereference : Pass
  joined : List StoreError → Pass

module _ (e : Services) where
  -- `kv.Delete`, whose error is dropped.
  abbrev pub delete_kv : Bytes → Bucket → Bucket
  delete_kv k kv = if e.delete_ok k then delete k kv else kv

  unfoldable pub delete_streams : Mailbox → List Name → List Bytes → List Bytes
  delete_streams m [] ss = ss
  delete_streams m (c ∷ cs) ss = delete_streams m cs (
      if e.delete_stream_ok (nats_stream_name m c)
      then delete_stream (nats_stream_name m c) ss
      else ss)

  -- `Purge`
  unfoldable pub purge : Mailbox → Store → Store
  purge m s = record s {
    rw_kv = delete_kv m.mailbox_address.text (delete_kv m.reader_key.text s.rw_kv);
    admin_kv = delete_kv m.admin_key.text s.admin_kv;
    in_memory =
        delete m.reader_key.text
          (delete m.mailbox_address.text (delete m.admin_key.text s.in_memory));
    streams = delete_streams m m.channels s.streams;
  }

  abbrev pub after_visit :
      (List StoreError → Store → Pass × Store) → List StoreError → Visit × Store → Pass × Store
  after_visit next errors (visited, s) = next errors s
  after_visit next errors (visit_panics, s) = (nil_dereference, s)
  after_visit next errors (failed x, s) = next (x ∷ errors) s

  -- The loop of `ForEachMailbox`; the errors so far are the latest first.
  unfoldable pub for_each_name :
      (Name → Store → Visit × Store) → List Bytes → List StoreError → Store → Pass × Store
  for_each_name fn [] errors s = (joined (reverse errors), s)
  for_each_name fn (k ∷ ks) errors s =
      let (key, free) = new_name k s.free in
      after_visit (λ errors' s'. for_each_name fn ks errors' s') errors
        (fn key (record s { free = free }))

  abbrev pub for_each_of :
      (Name → Store → Visit × Store) → Option (List Bytes) → Store → Pass × Store
  for_each_of fn none s = (no_keys, s)
  for_each_of fn (some ks) s = for_each_name fn ks [] s

  -- `ForEachMailbox`
  unfoldable pub for_each_mailbox : (Name → Store → Visit × Store) → Store → Pass × Store
  for_each_mailbox fn s = for_each_of fn (e.list_keys s.admin_kv) s

  abbrev pub purge_fetched : ℤ → Option Mailbox × Store → Visit × Store
  purge_fetched now (none, s) = (visit_panics, s)
  purge_fetched now (some m, s) = (visited, (if is_purgable now m then s else purge m s))

  -- `MailboxPurgeSinglePass`
  unfoldable pub purge_pass : ℤ → Store → Pass × Store
  purge_pass now = for_each_mailbox (λ key s. purge_fetched now (fetch_by_admin_key e key s))

  abbrev pub unless_failed :
      (Store → Option StoreError × Store) → Option StoreError × Store → Option StoreError × Store
  unless_failed next (none, s) = next s
  unless_failed next (some x, s) = (some x, s)

  -- `ForEachMailboxInMemory`, in the order of the list; it stops at the first error.
  unfoldable pub for_each_in_memory :
      (ℕ → Store → Option StoreError × Store) → List (Bytes × ℕ) → Store → Option StoreError × Store
  for_each_in_memory fn [] s = (none, s)
  for_each_in_memory fn ((key, p) ∷ cache) s =
      if has_prefix (codes "zzz") key
      then unless_failed (λ s'. for_each_in_memory fn cache s') (fn p s)
      else for_each_in_memory fn cache s

  abbrev pub sync_mailbox : Option Mailbox → Store → Option StoreError × Store
  sync_mailbox none s = (none, s)
  sync_mailbox (some m) s = (none, (if m.needs_update then update_mailbox e m s else s))

  -- `MailboxSyncToDiskSinglePass`
  unfoldable pub sync_pass : Store → Option StoreError × Store
  sync_pass s =
      for_each_in_memory (λ p s'. sync_mailbox (get_elem? s'.mailboxes p) s') s.in_memory s
