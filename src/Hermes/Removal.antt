-- ===== src/Hermes/Removal.antt =====
-- hermes/mailbox.go: `Purge` of a mailbox that was just created.
use mathlib.Core.Path.{subst, sym}
use godev.Prelude.{true, Bytes, ◌≡◌, refl, ◌∙◌, ℤ, get, get, delete-put, delete-put_one}
use godev.Hermes.Name.{Name}
use godev.Hermes.Mailbox.{Mailbox}
use godev.Hermes.Store.{Services, Store, Bucket, ok}
use godev.Hermes.Lookup.{CreateMailboxRequest, create_mailbox_impl, get_kv, choose_keys}
use godev.Hermes.Passes.{purge}
use godev.Hermes.Creation.{Created, create_mailbox_impl-Created, Unknown}

module _ (e : Services) where
  -- The server answers every request for a key.
  abbrev pub Answers : Type 0
  Answers = (k : Bytes) → (e.get_ok k ≡ true) × ((e.put_ok k ≡ true) × (e.delete_ok k ≡ true))

  -- Both buckets hold the same under the key.
  abbrev pub SameAt : Bytes → Store → Store → Type 0
  SameAt k s s' = (get k s'.rw_kv ≡ get k s.rw_kv) × (get k s'.admin_kv ≡ get k s.admin_kv)

  get_kv-get : Answers → (k : Bytes) (kv : Bucket) → get_kv e k kv ≡ get k kv
  get_kv-get h k kv = rw (h k).0 refl

  -- A mailbox that is created and then purged leaves both buckets as they were, under every key, when
  -- the server answers every request.
  pub purge-create_mailbox_impl :
      (now : ℤ) (req : CreateMailboxRequest) (address : Name) (s s' : Store) (m : Mailbox)
      (k : Bytes)
      → Answers
      → create_mailbox_impl e now req address s ≡ (ok m, s')
      → SameAt k s (purge e m s')
  unfolding purge
  purge-create_mailbox_impl now req address s s' m k h c =
      let a = m.mailbox_address.text in
      let r = m.reader_key.text in
      let z = m.admin_key.text in
      let ((q, u), (w, ((pre, json, i, j, w'), x))) =
        subst (Created e now (choose_keys e.new_uuid address s).0 s) c
          (create_mailbox_impl-Created e now req address s) in
      let (ua, (ur, uz)) = subst (λ y. Unknown e y s) (sym q) u in
      (
        rw (w, (h r).1.0, (h a).1.0, (h r).1.1, (h a).1.1)
            (delete-put a r z z s.rw_kv k (sym (get_kv-get h a s.rw_kv) ∙ ua)
              (sym (get_kv-get h r s.rw_kv) ∙ ur)),
        rw (w', (h z).1.0, (h z).1.1)
            (delete-put_one z json s.admin_kv k (sym (get_kv-get h z s.admin_kv) ∙ uz)),
      )
