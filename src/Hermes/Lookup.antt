-- ===== src/Hermes/Lookup.antt =====
-- hermes/mailbox-store.go: `_CreateMailboxImpl`, the lookups, and `FetchOrCreateNamedMailbox`.
use godev.Prelude.{
  ℕ, suc, Bool, true, false, not, List, [], ◌∷◌, ◌++◌, Option, none, some, Bytes, codes, ℤ, pos,
  bytes_eq, int_eq, if◌then◌else◌, get_elem?, length, get, put, get,
}
use godev.Hermes.Name.{Name, same, new_name, new_names, rpc_sent, rpc_inbox}
use godev.Hermes.Mailbox.{MailboxKeys, Mailbox, update_last_activity}
use godev.Hermes.Store.{
  bad_public_metadata, bad_private_metadata, bad_mailbox, duplicate_address, duplicate_reader_key,
  duplicate_admin_key, Result, ok, err, fields_of, mailbox_of, Services, Bucket, Store, random_key,
  put_kv, add_channels, MailboxFields,
}

-- `hproto.CreateMailboxRequest`; the metadata is `none` where `MarshalJSON` fails.
pub record CreateMailboxRequest : Type 0 where
  pub public_metadata : Option Bytes
  pub private_metadata : Option Bytes
  pub purge_timeout_in_millis : ℤ
  pub close_timeout_in_millis : ℤ
  pub channels : List Bytes

abbrev pub or_default : ℤ → ℤ → ℤ
or_default default timeout = if int_eq timeout (pos 0) then default else timeout

-- The address: the given one, or a new random one for an empty text.
unfoldable pub choose_address : (ℕ → Bytes) → Name → Store → Name × Store
choose_address new_uuid address s =
    if bytes_eq address.text []
    then (let (a, free) = new_name (random_key (codes "a") (new_uuid s.uuids)) s.free in
        (a, record s { uuids = suc s.uuids; free = free }))
    else (address, s)

unfoldable pub choose_keys : (ℕ → Bytes) → Name → Store → MailboxKeys × Store
choose_keys new_uuid address s =
    let (a, s1) = choose_address new_uuid address s in
    let (r, free1) = new_name (random_key (codes "r") (new_uuid s1.uuids)) s1.free in
    let (z, free2) = new_name (random_key (codes "z") (new_uuid (suc s1.uuids))) free1 in
    (
      record { mailbox_address = a; reader_key = r; admin_key = z },
      record s1 { uuids = suc (suc s1.uuids); free = free2 },
    )

abbrev pub is_some {ℓ} : {A : Type ℓ} → Option A → Bool
is_some none = false
is_some (some a) = true

-- The new mailbox, before its channels are added.
abbrev pub new_mailbox : ℤ → CreateMailboxRequest → Bytes → Bytes → Bool → MailboxKeys → Mailbox
new_mailbox now req pubm privm named k = record {
  keys = k;
  last_activity = now;
  channels = [];
  public_metadata = pubm;
  private_metadata = privm;
  purge_timeout_in_millis = or_default (pos 86_400_000) req.purge_timeout_in_millis;
  close_timeout_in_millis = or_default (pos 28_800_000) req.close_timeout_in_millis;
  sent = none;
  correlations = [];
  is_named = named;
  needs_update = false;
}

module _ (e : Services) where
  -- `kv.Get`, whose error counts as absence.
  abbrev pub get_kv : Bytes → Bucket → Option Bytes
  get_kv k kv = if e.get_ok k then get k kv else none

  -- The three `put`s, the address after the reader key.
  unfoldable pub put_keys : MailboxKeys → Bytes → Store → Store
  put_keys k json s = record s {
    rw_kv =
        put_kv e k.mailbox_address.text k.admin_key.text
          (put_kv e k.reader_key.text k.admin_key.text s.rw_kv);
    admin_kv = put_kv e k.admin_key.text json s.admin_kv;
  }

  abbrev pub save_created : ℤ → Mailbox → Option Bytes → Store → Result Mailbox × Store
  save_created now m none s = (err bad_mailbox, s)
  save_created now m (some json) s = (ok (update_last_activity now m), put_keys m.keys json s)

  abbrev pub finish_create : ℤ → Result Mailbox × Store → Result Mailbox × Store
  finish_create now (ok m, s) = save_created now m (e.to_json (fields_of m)) s
  finish_create now (err x, s) = (err x, s)

  -- From the checks for duplicates on, with the keys chosen.
  unfoldable pub create_with :
      ℤ → CreateMailboxRequest → Bytes → Bytes → Bool → MailboxKeys → Store → Result Mailbox × Store
  create_with now req pubm privm named k s =
      if is_some (get_kv k.mailbox_address.text s.rw_kv)
      then (err duplicate_address, s)
      else if is_some (get_kv k.reader_key.text s.rw_kv)
      then (err duplicate_reader_key, s)
      else if is_some (get_kv k.admin_key.text s.admin_kv)
      then (err duplicate_admin_key, s)
      else (let (names, free) = new_names req.channels s.free in
          finish_create now (
            add_channels e (new_mailbox now req pubm privm named k) names
              (record s { free = free })))

  abbrev pub create_marshalled :
      ℤ → CreateMailboxRequest → Name → Option Bytes → Option Bytes → Store → Result Mailbox × Store
  create_marshalled now req address none privm s = (err bad_public_metadata, s)
  create_marshalled now req address (some pubm) none s = (err bad_private_metadata, s)
  create_marshalled now req address (some pubm) (some privm) s =
      let (k, s') = choose_keys e.new_uuid address s in
      create_with now req pubm privm (not (bytes_eq address.text [])) k s'

  -- `_CreateMailboxImpl`
  unfoldable pub create_mailbox_impl :
      ℤ → CreateMailboxRequest → Name → Store → Result Mailbox × Store
  create_mailbox_impl now req address s =
      create_marshalled now req address req.public_metadata req.private_metadata s

  -- `CreateMailbox`, with a new empty address.
  unfoldable pub create_mailbox : ℤ → CreateMailboxRequest → Store → Result Mailbox × Store
  create_mailbox now req s =
      let (address, free) = new_name [] s.free in
      create_mailbox_impl now req address (record s { free = free })

  abbrev pub check_admin_key : Name → Mailbox × ℕ → Store → Option Mailbox × Store
  check_admin_key key (m, free) s =
      ((if same m.admin_key key then some m else none), record s { free = free })

  abbrev pub check_decoded : Name → Option MailboxFields → Store → Option Mailbox × Store
  check_decoded key none s = (none, s)
  check_decoded key (some f) s = check_admin_key key (mailbox_of f s.free) s

  abbrev pub decode_mailbox : Name → Option Bytes → Store → Option Mailbox × Store
  decode_mailbox key none s = (none, s)
  decode_mailbox key (some json) s = check_decoded key (e.from_json json) s

  -- `FetchMailboxByAdminKey`; the last test compares two pointers.
  unfoldable pub fetch_by_admin_key : Name → Store → Option Mailbox × Store
  fetch_by_admin_key key s = decode_mailbox key (get_kv key.text s.admin_kv) s

  -- A mailbox that was read goes to the cache under its three keys.
  abbrev pub cache : Option Mailbox × Store → Option ℕ × Store
  cache (none, s) = (none, s)
  cache (some m, s) =
      let p = length s.mailboxes in
      (
        some p,
        record s {
          mailboxes = s.mailboxes ++ m ∷ [];
          in_memory =
              put m.mailbox_address.text p
                (put m.reader_key.text p (put m.admin_key.text p s.in_memory));
        },
      )

  abbrev pub lookup_stored : Option Bytes → Store → Option ℕ × Store
  lookup_stored none s = (none, s)
  lookup_stored (some text) s =
      let (key, free) = new_name text s.free in
      cache (fetch_by_admin_key key (record s { free = free }))

  -- A cached mailbox is given only for a key of the kind that is looked up.
  abbrev pub check_cached : (Mailbox → Name) → Bytes → ℕ → Option Mailbox → Option ℕ
  check_cached get_key key p none = none
  check_cached get_key key p (some m) = if bytes_eq (get_key m).text key then some p else none

  abbrev pub lookup_cached : (Mailbox → Name) → Bytes → Option ℕ → Store → Option ℕ × Store
  lookup_cached get_key key (some p) s = (check_cached get_key key p (get_elem? s.mailboxes p), s)
  lookup_cached get_key key none s = lookup_stored (get_kv key s.rw_kv) s

  -- `MailboxLookup`; the result is the place of the mailbox.
  unfoldable pub mailbox_lookup : (Mailbox → Name) → Bytes → Store → Option ℕ × Store
  mailbox_lookup get_key key s = lookup_cached get_key key (get key s.in_memory) s

  unfoldable pub fetch_by_reader_key : Name → Store → Option ℕ × Store
  fetch_by_reader_key key = mailbox_lookup (λ m. m.reader_key) key.text

  unfoldable pub fetch_by_address : Name → Store → Option ℕ × Store
  fetch_by_address key = mailbox_lookup (λ m. m.mailbox_address) key.text

  -- Three months in milliseconds, no metadata, and `api.RpcChannelsAsStrings`.
  abbrev pub named_request : CreateMailboxRequest
  named_request = record {
    public_metadata = e.nil_metadata;
    private_metadata = e.nil_metadata;
    purge_timeout_in_millis = pos 7_776_000_000;
    close_timeout_in_millis = pos 7_776_000_000;
    channels = rpc_sent.text ∷ rpc_inbox.text ∷ [];
  }

  abbrev pub place_of : Result Mailbox × Store → Result ℕ × Store
  place_of (ok m, s) = (ok (length s.mailboxes), record s { mailboxes = s.mailboxes ++ m ∷ [] })
  place_of (err x, s) = (err x, s)

  abbrev pub fetched_or_create : ℤ → Name → Option ℕ × Store → Result ℕ × Store
  fetched_or_create now address (some p, s) = (ok p, s)
  fetched_or_create now address (none, s) =
      place_of (create_mailbox_impl now named_request address s)

  -- `FetchOrCreateNamedMailbox`
  unfoldable pub fetch_or_create_named : ℤ → Name → Store → Result ℕ × Store
  fetch_or_create_named now address s = fetched_or_create now address (fetch_by_address address s)
