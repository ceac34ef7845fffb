-- ===== src/Hermes/Misses.antt =====
-- hermes/mailbox-store.go: what becomes of the lookups, whose last test compares two pointers that
-- were allocated one after the other.
use mathlib.Core.Path.{subst, sym}
use godev.Prelude.{ℕ, suc, ◌<◌, ◌≤◌, arith, [], Option, none, some, Bytes, ◌≡◌, refl, ap, get}
use godev.Hermes.Name.{Name, new_name, same-older}
use godev.Hermes.Mailbox.{Mailbox}
use godev.Hermes.Store.{Services, Store, mailbox_of, MailboxFields}
use godev.Hermes.Lookup.{
  fetch_by_admin_key, decode_mailbox, mailbox_lookup, get_kv, lookup_stored, cache, check_decoded,
  lookup_cached,
}

module _ (e : Services) where
  -- The store after a lookup: more names, and nothing else.
  abbrev pub Looked : {A : Type 0} → Store → Option A × Store → Type 0
  Looked s r = (r.0 ≡ none) × ((free : ℕ) × (r.1 ≡ record s { free = free }))

  mailbox_of-later : (f : MailboxFields) (free : ℕ) → free ≤ (mailbox_of f free).0.admin_key.address
  unfolding mailbox_of new_name
  mailbox_of-later f free = ground arith

  check_decoded-Looked :
      (key : Name) (f : Option MailboxFields) (s : Store)
      → key.address < s.free
      → Looked s (check_decoded e key f s)
  check_decoded-Looked key none s h = (refl, (s.free, refl))
  check_decoded-Looked key (some f) s h =
      let m = mailbox_of f s.free in
      (
        rw (same-older m.0.admin_key key (ground (arith, mailbox_of-later f s.free))) refl,
        (m.1, refl),
      )

  decode-Looked :
      (key : Name) (json : Option Bytes) (s : Store)
      → key.address < s.free
      → Looked s (decode_mailbox e key json s)
  decode-Looked key none s h = (refl, (s.free, refl))
  decode-Looked key (some json) s h = check_decoded-Looked key (e.from_json json) s h

  -- A key that was allocated before the call finds no mailbox, whatever the bucket holds.
  pub fetch_by_admin_key-Looked :
      (key : Name) (s : Store) → key.address < s.free → Looked s (fetch_by_admin_key e key s)
  unfolding fetch_by_admin_key
  fetch_by_admin_key-Looked key s h = decode-Looked key (get_kv e key.text s.admin_kv) s h

  cached-Looked :
      (r : Option Mailbox × Store) (s : Store)
      → r.0 ≡ none
      → (free : ℕ) → r.1 ≡ record s { free = free }
      → Looked s (cache e r)
  cached-Looked (none, s') s h free l = (refl, (free, l))
  cached-Looked (some m, s') s h free l = absurd cc

  stored-Looked : (text : Option Bytes) (s : Store) → Looked s (lookup_stored e text s)
  unfolding new_name
  stored-Looked none s = (refl, (s.free, refl))
  stored-Looked (some text) s =
      let key : Name = record { address = s.free; text = text } in
      let (h, (free, l)) =
        fetch_by_admin_key-Looked key (record s { free = suc s.free }) (ground arith) in
      cached-Looked (fetch_by_admin_key e key (record s { free = suc s.free })) s h free l

  -- With nothing cached, every lookup ends without a mailbox and caches nothing.
  pub mailbox_lookup-Looked :
      (get_key : Mailbox → Name) (key : Bytes) (s : Store)
      → s.in_memory ≡ []
      → Looked s (mailbox_lookup e get_key key s)
  unfolding mailbox_lookup get
  mailbox_lookup-Looked get_key key s h =
      subst (λ o. Looked s (lookup_cached e get_key key o s)) (sym (ap (get key) h))
        (stored-Looked (get_kv e key s.rw_kv) s)
