-- ===== src/Hermes/Named.antt =====
-- hermes/mailbox-store.go: `FetchOrCreateNamedMailbox` after itself.
use mathlib.Core.Path.{subst, sym}
use godev.Prelude.{
  ℕ, Bool, true, not, [], some, Bytes, ◌≡◌, ◌≢◌, refl, ap, ◌∙◌, ℤ, bytes_eq, get-put,
}
use godev.Hermes.Name.{Name}
use godev.Hermes.Mailbox.{Mailbox, MailboxKeys}
use godev.Hermes.Store.{Services, Store, Bucket, Result, ok, err, put_kv, duplicate_address}
use godev.Hermes.Lookup.{
  CreateMailboxRequest, create_with, create_mailbox_impl, get_kv, is_some, choose_keys, place_of,
  fetch_or_create_named, fetch_by_address, named_request,
}
use godev.Hermes.Creation.{Created, choose_keys-Chosen, Chosen, create_mailbox_impl-Created}
use godev.Hermes.Misses.{mailbox_lookup-Looked}

module _ (e : Services) where
  -- The bucket of addresses and reader keys answers for the text.
  abbrev pub Known : Bytes → Store → Type 0
  Known text s = is_some (get_kv e text s.rw_kv) ≡ true

  create_with-Known :
      (now : ℤ) (req : CreateMailboxRequest) (pubm privm : Bytes) (named : Bool) (k : MailboxKeys)
      (s : Store)
      → Known k.mailbox_address.text s
      → (create_with e now req pubm privm named k s).0 ≡ err duplicate_address
  unfolding create_with
  create_with-Known now req pubm privm named k s h = rw h refl

  Chosen-Known :
      (now : ℤ) (req : CreateMailboxRequest) (pubm privm : Bytes) (named : Bool) (address : Name)
      (s : Store) (q : MailboxKeys × Store)
      → address.text ≢ []
      → Known address.text s
      → Chosen e address s q
      → (create_with e now req pubm privm named q.0 q.1).0 ≡ err duplicate_address
  Chosen-Known now req pubm privm named address s (k, s') n h (f, (uuids, (free, l))) =
      create_with-Known now req pubm privm named k s' (
        subst (λ x. Known k.mailbox_address.text x) (sym l)
          (subst (λ x. Known x.text s) (sym (f n)) h))

  create_named-Known :
      (now : ℤ) (address : Name) (s : Store) (json : Bytes)
      → e.nil_metadata ≡ some json
      → address.text ≢ []
      → Known address.text s
      → (create_mailbox_impl e now (named_request e) address s).0 ≡ err duplicate_address
  unfolding create_mailbox_impl
  create_named-Known now address s json m n h = rw m (
      Chosen-Known now (named_request e) json json (not (bytes_eq address.text [])) address s
        (choose_keys e.new_uuid address s) n h (choose_keys-Chosen e address s))

  put-Known :
      (text v : Bytes) (kv : Bucket)
      → e.put_ok text ≡ true
      → e.get_ok text ≡ true
      → is_some (get_kv e text (put_kv e text v kv)) ≡ true
  put-Known text v kv p g = rw (p, g, get-put text v kv) refl

  Created-Known :
      (now : ℤ) (k : MailboxKeys) (s : Store) (r : Result Mailbox × Store) (p : ℕ) (s' : Store)
      → Created e now k s r
      → place_of e r ≡ (ok p, s')
      → e.put_ok k.mailbox_address.text ≡ true
      → e.get_ok k.mailbox_address.text ≡ true
      → Known k.mailbox_address.text s' × (s'.in_memory ≡ s.in_memory)
  Created-Known now k s (err x, s1) p s' c h pk gk = absurd cc
  Created-Known now k s (ok m, s1) p s' ((q, u), (w, (z, (i, l)))) h pk gk =
      let l' = ap (λ x. x.1) h in
      (
        subst (λ x. Known k.mailbox_address.text x) l'
            (subst (λ kv. is_some (get_kv e k.mailbox_address.text kv) ≡ true) (sym w)
              (subst
                (λ x.
                  is_some (
                    get_kv e k.mailbox_address.text (
                      put_kv e x.mailbox_address.text x.admin_key.text
                        (put_kv e x.reader_key.text x.admin_key.text s.rw_kv)))
                  ≡ true)
                (sym q)
                (put-Known k.mailbox_address.text k.admin_key.text
                  (put_kv e k.reader_key.text k.admin_key.text s.rw_kv) pk gk))),
        ap (λ x. x.in_memory) (sym l') ∙ i,
      )

  -- With nothing cached, fetching is creating.
  pub fetch_or_create-creates :
      (now : ℤ) (address : Name) (s : Store)
      → s.in_memory ≡ []
      → (free : ℕ) × (fetch_or_create_named e now address s
          ≡ place_of e
              (create_mailbox_impl e now (named_request e) address (record s { free = free })))
  unfolding fetch_or_create_named fetch_by_address
  fetch_or_create-creates now address s h =
      let (n, (free, l)) = mailbox_lookup-Looked e (λ m. m.mailbox_address) address.text s h in
      (free, rw (n, l) refl)

  place_of-err :
      (r : Result Mailbox × Store)
      → r.0 ≡ err duplicate_address
      → (place_of e r).0 ≡ err duplicate_address
  place_of-err (err x, s) h = ap (λ (q : Result Mailbox). elim q [ err y ↦ err y | ok m ↦ err x ]) h
  place_of-err (ok m, s) h = absurd cc

  -- A named mailbox that was just created is fetched or created again, under another pointer with the
  -- same text: when the server stores and answers for the address, nothing is cached, and a nil struct
  -- has a JSON, the second call fails with a duplicate address.
  pub fetch_or_create_named-duplicate_address :
      (now now' : ℤ) (a a' : Name) (s s' : Store) (p : ℕ) (json : Bytes)
      → e.nil_metadata ≡ some json
      → s.in_memory ≡ []
      → a.text ≢ []
      → a'.text ≡ a.text
      → e.put_ok a.text ≡ true
      → e.get_ok a.text ≡ true
      → fetch_or_create_named e now a s ≡ (ok p, s')
      → (fetch_or_create_named e now' a' s').0 ≡ err duplicate_address
  fetch_or_create_named-duplicate_address now now' a a' s s' p json m c n t pk gk h =
      let (f1, l1) = fetch_or_create-creates now a s c in
      let s1 : Store = record s { free = f1 } in
      let k = (choose_keys e.new_uuid a s1).0 in
      let at : k.mailbox_address ≡ a = (choose_keys-Chosen e a s1).0 n in
      let (known, i) =
        Created-Known now k s1 (create_mailbox_impl e now (named_request e) a s1) p s'
          (create_mailbox_impl-Created e now (named_request e) a s1) (sym l1 ∙ h)
          (subst (λ x. e.put_ok x.text ≡ true) (sym at) pk)
          (subst (λ x. e.get_ok x.text ≡ true) (sym at) gk) in
      let (f2, l2) = fetch_or_create-creates now' a' s' (i ∙ c) in
      ap (λ q. q.0) l2
      ∙ place_of-err (create_mailbox_impl e now' (named_request e) a' (record s' { free = f2 })) (
          create_named-Known now' a' (record s' { free = f2 }) json m (λ x. n (sym t ∙ x))
            (subst (λ x. Known x s') (ap (λ y. y.text) at ∙ sym t) known))
