-- ===== src/Hermes/Creation.antt =====
-- hermes/mailbox-store.go: what `_CreateMailboxImpl` leaves in the buckets, on every branch.
use mathlib.Core.Path.{subst, sym}
use godev.Prelude.{
  Bool, false, List, [], ◌∷◌, Option, none, some, Bytes, ◌≡◌, refl, ap, ◌∙◌, ℤ, bytes_eq,
  Bool-cases, Bool-cases, ◌&&◌, inl, inr, ◌≢◌, ℕ, not, bytes_eq_iff, suc,
}
use godev.Hermes.Name.{Name, new_names, new_name}
use godev.Hermes.Mailbox.{
  Mailbox, MailboxKeys, is_valid_channel, nats_stream_name, update_last_activity,
}
use godev.Hermes.Store.{
  Services, Store, Bucket, Result, ok, err, make_stream, append_channel, add_channel, add_channels,
  put_kv, or_refuse, is_stream, fields_of,
}
use godev.Hermes.Lookup.{
  CreateMailboxRequest, create_with, finish_create, save_created, get_kv, is_some, is_some,
  put_keys, new_mailbox, choose_keys, choose_keys, create_mailbox_impl, choose_address,
  create_marshalled,
}

-- The parts of a store that creation changes last.
abbrev pub Same : Store → Store → Type 0
Same s s' =
    (s'.rw_kv ≡ s.rw_kv)
    × ((s'.admin_kv ≡ s.admin_kv) × ((s'.in_memory ≡ s.in_memory) × (s'.mailboxes ≡ s.mailboxes)))

abbrev pub Made : Store → Option Store → Type 0
Made s none = Unit {0}
Made s (some s') = Same s s'

abbrev pub Added : Mailbox → Store → Result Mailbox × Store → Type 0
Added m s (ok m', s') = (m'.keys ≡ m.keys) × Same s s'
Added m s (err x, s') = Same s s'

Same-refl : (s : Store) → Same s s
Same-refl s = (refl, (refl, (refl, refl)))

module _ (e : Services) where
  pub make_stream-Made : (name : Bytes) (s : Store) → Made s (make_stream e name s)
  unfolding make_stream
  make_stream-Made name s = elim (Bool-cases (e.info_ok name && is_stream name s.streams)) [
    | inl h ↦ rw h (Same-refl s)
    | inr h ↦ elim (Bool-cases (e.add_stream_ok name)) [
      | inl k ↦ rw (h, k) (Same-refl s)
      | inr k ↦ rw (h, k) tt
    ]
  ]

  append_channel-Added :
      (m : Mailbox) (c : Name) (o : Option Store) (s : Store)
      → Made s o
      → Added m s (append_channel e m c false o s)
  append_channel-Added m c none s h = Same-refl s
  append_channel-Added m c (some s') s h = (refl, h)

  add_channel-Added : (m : Mailbox) (c : Name) (s : Store) → Added m s (add_channel e m c false s)
  unfolding add_channel
  add_channel-Added m c s = elim (Bool-cases (is_valid_channel m c)) [
    | inl h ↦ rw h (Same-refl s)
    | inr h ↦ elim (Bool-cases (bytes_eq c.text [])) [
      | inl k ↦ rw (h, k) (Same-refl s)
      | inr k ↦
          rw (h, k)
            (append_channel-Added m c (make_stream e (nats_stream_name m c) s) s
              (make_stream-Made (nats_stream_name m c) s))
    ]
  ]

  Same-trans : (s s' s'' : Store) → Same s s' → Same s' s'' → Same s s''
  Same-trans s s' s'' (a, (b, (c, d))) (a', (b', (c', d'))) = (a' ∙ a, (b' ∙ b, (c' ∙ c, d' ∙ d)))

  Added-trans :
      (m m' : Mailbox) (s s' : Store) (r : Result Mailbox × Store)
      → m'.keys ≡ m.keys
      → Same s s'
      → Added m' s' r
      → Added m s r
  Added-trans m m' s s' (ok m'', s'') k h (k', h') = (k' ∙ k, Same-trans s s' s'' h h')
  Added-trans m m' s s' (err x, s'') k h h' = Same-trans s s' s'' h h'

  or_refuse-Added :
      (m : Mailbox) (s : Store) (next : Mailbox → Store → Result Mailbox × Store)
      (r : Result Mailbox × Store)
      → ((m' : Mailbox) (s' : Store) → Added m' s' (next m' s'))
      → Added m s r
      → Added m s (or_refuse e next r)
  or_refuse-Added m s next (ok m', s') f (k, h) = Added-trans m m' s s' (next m' s') k h (f m' s')
  or_refuse-Added m s next (err x, s') f h = h

  pub add_channels-Added :
      (m : Mailbox) (cs : List Name) (s : Store) → Added m s (add_channels e m cs s)
  unfolding add_channels
  add_channels-Added m [] s = (refl, Same-refl s)
  add_channels-Added m (c ∷ cs) s =
      or_refuse-Added m s (λ m' s'. add_channels e m' cs s') (add_channel e m c false s)
        (λ m' s'. add_channels-Added m' cs s') (add_channel-Added m c s)

  -- None of the keys is known.
  abbrev pub Unknown : MailboxKeys → Store → Type 0
  Unknown k s =
      (get_kv e k.mailbox_address.text s.rw_kv ≡ none)
      × ((get_kv e k.reader_key.text s.rw_kv ≡ none)
          × (get_kv e k.admin_key.text s.admin_kv ≡ none))

  -- On an error the buckets, the cache and the mailboxes are as before. On success none of the three
  -- keys was known, the address and the reader key lead to the administration key, and that one to
  -- the JSON of the mailbox, from before its last activity was set to the present.
  abbrev pub Created : ℤ → MailboxKeys → Store → Result Mailbox × Store → Type 0
  Created now k s (err x, s') = Same s s'
  Created now k s (ok m, s') =
      ((m.keys ≡ k) × Unknown k s)
      × ((s'.rw_kv
            ≡ put_kv e m.mailbox_address.text m.admin_key.text
                (put_kv e m.reader_key.text m.admin_key.text s.rw_kv))
          × (((pre : Mailbox) × (json : Bytes) × (m ≡ update_last_activity now pre)
                × (e.to_json (fields_of pre) ≡ some json)
                × (s'.admin_kv ≡ put_kv e m.admin_key.text json s.admin_kv))
              × ((s'.in_memory ≡ s.in_memory) × (m.last_activity ≡ now))))

  saved-Created :
      (now : ℤ) (m : Mailbox) (k : MailboxKeys) (json : Option Bytes) (s s' : Store)
      → (m.keys ≡ k) × Unknown k s
      → Same s s'
      → e.to_json (fields_of m) ≡ json
      → Created now k s (save_created e now m json s')
  unfolding put_keys update_last_activity
  saved-Created now m k none s s' u h j = h
  saved-Created now m k (some json) s s' u (h, (h', (h'', x))) j =
      let puts = λ (kv : Bucket).
        put_kv e m.mailbox_address.text m.admin_key.text
          (put_kv e m.reader_key.text m.admin_key.text kv) in
      (u, (ap puts h, ((m, json, refl, j, ap (put_kv e m.admin_key.text json) h'), (h'', refl))))

  finish-Created :
      (now : ℤ) (m : Mailbox) (s : Store) (r : Result Mailbox × Store)
      → Unknown m.keys s
      → Added m s r
      → Created now m.keys s (finish_create e now r)
  finish-Created now m s (err x, s') u h = h
  finish-Created now m s (ok m', s') u (k, h) =
      saved-Created now m' m.keys (e.to_json (fields_of m')) s s' (k, u) h refl

  none-is_some : {A : Type 0} (o : Option A) → is_some o ≡ false → o ≡ none
  none-is_some none h = refl
  none-is_some (some a) h = absurd cc

  pub create_with-Created :
      (now : ℤ) (req : CreateMailboxRequest) (pubm privm : Bytes) (named : Bool) (k : MailboxKeys)
      (s : Store)
      → Created now k s (create_with e now req pubm privm named k s)
  unfolding create_with
  create_with-Created now req pubm privm named k s =
      let m = new_mailbox now req pubm privm named k in
      let (names, free) = new_names req.channels s.free in
      let s1 : Store = record s { free = free } in
      elim (Bool-cases (is_some (get_kv e k.mailbox_address.text s.rw_kv))) [
        | inl a ↦ rw a (Same-refl s)
        | inr a ↦ elim (Bool-cases (is_some (get_kv e k.reader_key.text s.rw_kv))) [
          | inl r ↦ rw (a, r) (Same-refl s)
          | inr r ↦ elim (Bool-cases (is_some (get_kv e k.admin_key.text s.admin_kv))) [
            | inl z ↦ rw (a, r, z) (Same-refl s)
            | inr z ↦
                rw (a, r, z)
                  (finish-Created now m s (add_channels e m names s1)
                    (
                      none-is_some (get_kv e k.mailbox_address.text s.rw_kv) a,
                      (
                        none-is_some (get_kv e k.reader_key.text s.rw_kv) r,
                        none-is_some (get_kv e k.admin_key.text s.admin_kv) z,
                      ),
                    )
                    (add_channels-Added m names s1))
          ]
        ]
      ]

  abbrev pub Chosen : Name → Store → MailboxKeys × Store → Type 0
  Chosen address s (k, s') =
      (address.text ≢ [] → k.mailbox_address ≡ address)
      × ((uuids : ℕ) × ((free : ℕ) × (s' ≡ record s { uuids = uuids; free = free })))

  -- Choosing keys keeps an address that is given, and only draws identifiers and names.
  pub choose_keys-Chosen :
      (address : Name) (s : Store) → Chosen address s (choose_keys e.new_uuid address s)
  unfolding choose_keys choose_address new_name
  choose_keys-Chosen address s = elim (Bool-cases (bytes_eq address.text [])) [
    | inl h ↦ rw h (
      (λ n. absurd (n ((bytes_eq_iff address.text []).0 h))),
      (suc (suc (suc s.uuids)), (suc (suc (suc s.free)), refl)),
    )
    | inr h ↦ rw h ((λ n. refl), (suc (suc s.uuids), (suc (suc s.free), refl)))
  ]

  Chosen-Created :
      (now : ℤ) (req : CreateMailboxRequest) (pubm privm : Bytes) (named : Bool) (address : Name)
      (s : Store) (q : MailboxKeys × Store)
      → Chosen address s q
      → Created now q.0 s (create_with e now req pubm privm named q.0 q.1)
  Chosen-Created now req pubm privm named address s (k, s') (n, (uuids, (free, h))) =
      subst (λ x. Created now k s (create_with e now req pubm privm named k x)) (sym h)
        (create_with-Created now req pubm privm named k (record s { uuids = uuids; free = free }))

  marshalled-Created :
      (now : ℤ) (req : CreateMailboxRequest) (address : Name) (pubm privm : Option Bytes)
      (s : Store)
      → Created now
          (choose_keys e.new_uuid address s).0
          s
          (create_marshalled e now req address pubm privm s)
  marshalled-Created now req address none privm s = Same-refl s
  marshalled-Created now req address (some pubm) none s = Same-refl s
  marshalled-Created now req address (some pubm) (some privm) s =
      Chosen-Created now req pubm privm (not (bytes_eq address.text [])) address s
        (choose_keys e.new_uuid address s) (choose_keys-Chosen address s)

  pub create_mailbox_impl-Created :
      (now : ℤ) (req : CreateMailboxRequest) (address : Name) (s : Store)
      → Created now (choose_keys e.new_uuid address s).0 s (create_mailbox_impl e now req address s)
  unfolding create_mailbox_impl
  create_mailbox_impl-Created now req address s =
      marshalled-Created now req address req.public_metadata req.private_metadata s
