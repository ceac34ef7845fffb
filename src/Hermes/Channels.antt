-- ===== src/Hermes/Channels.antt =====
-- hermes/mailbox.go: `AddChannel` with names that were allocated for a request.
use mathlib.Core.Path.{subst, sym}
use godev.Prelude.{
  ℕ, suc, arith, All, true, false, List, [], ◌∷◌, ◌++◌, Bytes, ◌≡◌, ◌≢◌, refl, ◌∙◌, Bool-cases, inl,
  inr, bytes_eq, append_assoc, append-nil, some, ◌&&◌, if◌then◌else◌,
}
use godev.Hermes.Name.{Allocated-mono, Name, new_name, new_names, Allocated, same, rpc_sent}
use godev.Hermes.Mailbox.{Mailbox, nats_stream_name}
use godev.Hermes.Store.{
  Services, Store, Result, ok, err, make_stream, add_channel, add_channels, or_refuse, is_stream,
}
use godev.Hermes.Fresh.{holds-fresh}

module _ (e : Services) where
  -- The mailbox has the names of the list after the channels that it had.
  abbrev pub Appends : Mailbox → List Name → Result Mailbox × Store → Type 0
  Appends m cs (ok m', s') = m'.channels ≡ m.channels ++ cs
  Appends m cs (err x, s') = ⊥

  Allocated-append :
      (a : ℕ) (xs ys : List Name) → Allocated a xs → Allocated a ys → Allocated a (xs ++ ys)
  Allocated-append a [] ys p q = q
  Allocated-append a (x ∷ xs) ys (h, p) q = (h, Allocated-append a xs ys p q)

  abbrev pub AllStreams : Type 0
  AllStreams = (n : Bytes) → e.add_stream_ok n ≡ true

  make_stream-some :
      (n : Bytes) (s : Store) → AllStreams → (s' : Store) × (make_stream e n s ≡ some s')
  unfolding make_stream
  make_stream-some n s h = elim (Bool-cases (e.info_ok n && is_stream n s.streams)) [
    | inl k ↦ (s, rw k refl)
    | inr k ↦ (record s { streams = n ∷ s.streams }, rw (k, h n) refl)
  ]

  abbrev added : Mailbox → Name → Mailbox
  added m c = record m {
    sent = if same c rpc_sent then some true else m.sent;
    channels = m.channels ++ c ∷ [];
  }

  nonempty : (text : Bytes) → text ≢ [] → bytes_eq text [] ≡ false
  unfolding bytes_eq
  nonempty [] n = absurd (n refl)
  nonempty (c ∷ text) n = refl

  add_channel-fresh :
      (m : Mailbox) (c : Name) (s : Store)
      → Allocated c.address m.channels
      → c.text ≢ []
      → AllStreams
      → (s' : Store) × (add_channel e m c false s ≡ (ok (added m c), s'))
  unfolding add_channel
  add_channel-fresh m c s a n h =
      let (s', k) = make_stream-some (nats_stream_name m c) s h in
      (s', rw (holds-fresh c m.channels a, nonempty c.text n, k) refl)

  Appends-cons :
      (m : Mailbox) (c : Name) (cs : List Name) (r : Result Mailbox × Store)
      → Appends (added m c) cs r
      → Appends m (c ∷ cs) r
  Appends-cons m c cs (ok m', s') h = h ∙ append_assoc m.channels (c ∷ []) cs
  Appends-cons m c cs (err x, s') h = h

  -- The channels of a request are all added, in their order and with their repetitions, when no text
  -- is empty and the server takes every stream: the test for a channel that exists compares pointers,
  -- and the names of a request are allocated after those that the mailbox has.
  pub add_channels-Appends :
      (texts : List Bytes) (free : ℕ) (m : Mailbox) (s : Store)
      → Allocated free m.channels
      → All (λ text. text ≢ []) texts
      → AllStreams
      → Appends m (new_names texts free).0 (add_channels e m (new_names texts free).0 s)
  unfolding add_channels new_names new_name
  add_channels-Appends [] free m s a n h = sym (append-nil m.channels)
  add_channels-Appends (text ∷ texts) free m s a (n, ns) h =
      let c : Name = record { address = free; text = text } in
      let cs = (new_names texts (suc free)).0 in
      let (s', k) = add_channel-fresh m c s a n h in
      Appends-cons m c cs (add_channels e m (c ∷ cs) s) (
        subst (λ q. Appends (added m c) cs (or_refuse e (λ m' s''. add_channels e m' cs s'') q))
          (sym k)
          (add_channels-Appends texts (suc free) (added m c) s'
            (Allocated-append (suc free) m.channels (c ∷ [])
              (Allocated-mono free (suc free) m.channels (ground arith) a) (ground arith, tt))
            ns h))
