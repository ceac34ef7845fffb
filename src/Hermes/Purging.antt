-- ===== src/Hermes/Purging.antt =====
-- hermes/server.go: the two passes over all mailboxes.
use godev.Prelude.{
  has_prefix, ℕ, suc, arith, All, false, List, [], ◌∷◌, Option, none, some, Bytes, codes, ◌≡◌, ◌≢◌,
  refl, ap, ℤ, Bool-cases, inl, inr, ◌==◌, ◌⊎◌, get_elem?, without, without,
}
use godev.Hermes.Mailbox.{Mailbox}
use godev.Hermes.Name.{Name, new_name}
use godev.Hermes.Store.{Services, Store, random_key, StoreError, StoreError}
use godev.Hermes.Lookup.{fetch_by_admin_key}
use godev.Hermes.Passes.{
  purge_pass, for_each_mailbox, for_each_name, nil_dereference, purge_fetched, after_visit,
  sync_pass, for_each_in_memory, sync_mailbox, Pass,
}
use godev.Hermes.Misses.{fetch_by_admin_key-Looked}

module _ (e : Services) where
  fetched-nil_dereference :
      (now : ℤ) (next : List StoreError → Store → Pass × Store) (r : Option Mailbox × Store)
      (s : Store)
      → r.0 ≡ none
      → r.1 ≡ s
      → after_visit e next [] (purge_fetched e now r) ≡ (nil_dereference, s)
  fetched-nil_dereference now next (none, s') s n l = ap (λ x. (nil_dereference, x)) l
  fetched-nil_dereference now next (some m, s') s n l = absurd cc

  -- A purge pass over a bucket that lists a key ends in a nil dereference at the first key, with the
  -- buckets, the cache, the mailboxes and the streams unchanged: nothing is purged.
  pub purge_pass-nil_dereference :
      (now : ℤ) (s : Store) (k : Bytes) (ks : List Bytes)
      → e.list_keys s.admin_kv ≡ some (k ∷ ks)
      → (free : ℕ) × (purge_pass e now s ≡ (nil_dereference, record s { free = free }))
  unfolding purge_pass for_each_mailbox for_each_name new_name
  purge_pass-nil_dereference now s k ks h =
      let key : Name = record { address = s.free; text = k } in
      let (n, (free, l)) =
        fetch_by_admin_key-Looked e key (record s { free = suc s.free }) (ground arith) in
      (
        free,
        rw h (
            fetched-nil_dereference now
              (λ errors s'.
                for_each_name e (λ key' s''. purge_fetched e now (fetch_by_admin_key e key' s'')) ks
                  errors s')
              (fetch_by_admin_key e key (record s { free = suc s.free })) (record s { free = free })
              n l),
      )

  without-All : (c : ℕ) (P : ℕ → Type 0) (text : Bytes) → All P text → All P (without c text)
  unfolding without
  without-All c P [] a = a
  without-All c P (x ∷ xs) (h, a) = elim (Bool-cases (x == c)) [
    | inl k ↦ rw k (without-All c P xs a)
    | inr k ↦ rw k (h, without-All c P xs a)
  ]

  short_prefix : (text : Bytes) → All (λ c. c ≢ b'z') text → has_prefix (codes "z") text ≡ false
  unfolding has_prefix
  short_prefix [] a = refl
  short_prefix (c ∷ text) (h, a) = ground arith

  -- The key that is cached is one that was chosen, from an identifier without the letter z.
  abbrev pub IsRandomKey : Bytes → Type 0
  IsRandomKey key =
      (uuid : Bytes) × (All (λ c. c ≢ b'z') uuid
        × ((key ≡ random_key (codes "a") uuid)
            ⊎ ((key ≡ random_key (codes "r") uuid) ⊎ (key ≡ random_key (codes "z") uuid))))

  random_key-has_prefix : (key : Bytes) → IsRandomKey key → has_prefix (codes "zzz") key ≡ false
  unfolding has_prefix
  random_key-has_prefix key (uuid, (a, inl h)) = rw h refl
  random_key-has_prefix key (uuid, (a, inr (inl h))) = rw h refl
  random_key-has_prefix key (uuid, (a, inr (inr h))) =
      rw h (short_prefix (without b'-' uuid) (without-All b'-' (λ c. c ≢ b'z') uuid a))

  for_each-skips :
      (fn : ℕ → Store → Option StoreError × Store) (cache : List (Bytes × ℕ)) (s : Store)
      → All (λ (c : Bytes × ℕ). IsRandomKey c.0) cache
      → for_each_in_memory e fn cache s ≡ (none, s)
  unfolding for_each_in_memory
  for_each-skips fn [] s a = refl
  for_each-skips fn ((key, p) ∷ cache) s (h, a) =
      rw (random_key-has_prefix key h) (for_each-skips fn cache s a)

  -- The pass that writes mailboxes of the cache to the bucket looks for keys that begin with zzz;
  -- when every cached key was made from a prefix a, r or z and an identifier without the letter z,
  -- it writes none, whatever activity the mailboxes had.
  pub sync_pass-IsRandomKey :
      (s : Store) → All (λ (c : Bytes × ℕ). IsRandomKey c.0) s.in_memory → sync_pass e s ≡ (none, s)
  unfolding sync_pass
  sync_pass-IsRandomKey s a =
      for_each-skips (λ p s'. sync_mailbox e (get_elem? s'.mailboxes p) s') s.in_memory s a
