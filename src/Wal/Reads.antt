-- ===== src/Wal/Reads.antt =====
-- What a reading function takes from the front of the buffer, and how such facts compose.
use godev.Prelude.{
  ℕ, ◌≡◌, refl, ap, ◌∙◌, Bool, true, false, [], ◌∷◌, reverse, ◌++◌, append-nil, append_assoc, Bytes,
  pos, ◌==◌, ==_iff, if◌then◌else◌, length, take, drop, take-length-append, drop-length-append,
}
use godev.Wal.Outcome.{ok}
use godev.Wal.Buffer.{Buffer, Parse, pure, is_empty, ◌>>=◌, next, next_byte, unread_byte}
use godev.Wal.Reader.{char_is_exists}

-- `m` reads `bs` and gives `a`, whatever follows and whatever was read before.
pub record Reads {A : Type 0} (m : Parse A) (bs : Bytes) (a : A) : Type 0 where
  pub run :
      (b : Buffer) (rest : Bytes)
      → b.rest ≡ bs ++ rest
      → (b' : Buffer) × (m b ≡ ok (a, b')) × (b'.rest ≡ rest)

pub Reads-pure : {A : Type 0} (a : A) → Reads (pure a) [] a
Reads-pure a = record { run = λ b rest h. (b, refl, h) }

module _ {A B : Type 0} (m : Parse A) (f : A → Parse B) {a : A} {c : B} where
  pub Reads-bind : {bs cs : Bytes} → Reads m bs a → Reads (f a) cs c → Reads (m >>= f) (bs ++ cs) c
  unfolding ◌>>=◌
  Reads-bind {bs} {cs} r s = record {
    run = λ b rest h.
        let (b', e, h') = r.run b (cs ++ rest) (h ∙ append_assoc bs cs rest) in
        let (b'', e', h'') = s.run b' rest h' in (b'', (rw (e, ◌>>=◌) e'), h'');
  }

  -- The last step of a `do` block.
  pub Reads-last : {bs : Bytes} → Reads m bs a → Reads (f a) [] c → Reads (m >>= f) bs c
  Reads-last {bs} r s = rw append-nil at (Reads-bind r s)

pub Reads-next : (bs : Bytes) (n : ℕ) → length bs ≡ n → Reads (next (pos n)) bs bs
unfolding next
Reads-next bs n e = record {
  run = λ b rest h. (
    record {
      prev = reverse (take n b.rest) ++ b.prev;
      rest = drop n b.rest;
      last_read = if is_empty (take n b.rest) then false else true;
    },
    rw (h, take-length-append bs rest n e) refl,
    rw h (drop-length-append bs rest n e),
  );
}

pub Reads-next_byte : (x : ℕ) → Reads next_byte (x ∷ []) x
unfolding next_byte ◌>>=◌ next
Reads-next_byte x = record {
  run = λ b rest h. (record { prev = x ∷ b.prev; rest = rest; last_read = true }, rw h refl, refl);
}

pub Reads-hit : (c : ℕ) → Reads (char_is_exists c) (c ∷ []) true
unfolding char_is_exists ◌>>=◌ next next_byte
Reads-hit c = record {
  run = λ b rest h. (
    record { prev = c ∷ b.prev; rest = rest; last_read = true },
    rw (h, (==_iff c c).1 refl) refl,
    refl,
  );
}

char_is_exists_miss :
    (c x : ℕ) (b : Buffer) (tail : Bytes)
    → (x == c) ≡ false
    → char_is_exists c (record b { rest = x ∷ tail })
      ≡ ok (false, record { prev = b.prev; rest = x ∷ tail; last_read = false })
unfolding char_is_exists ◌>>=◌ next next_byte unread_byte
char_is_exists_miss c x b tail h = rw h refl

-- A byte that is not the awaited one is put back, and is there for the rest of the `do` block.
pub Reads-miss :
    {B : Type 0} (f : Bool → Parse B) (c x : ℕ) {bs : Bytes} {a : B}
    → (x == c) ≡ false
    → Reads (f false) (x ∷ bs) a
    → Reads (char_is_exists c >>= f) (x ∷ bs) a
Reads-miss f c x {bs} h r = record {
  run = λ b rest e.
      let back : Buffer = record { prev = b.prev; rest = x ∷ (bs ++ rest); last_read = false } in
      let (b', e', h') = r.run back rest refl in
      let missed =
        ap (λ (r : Bytes). char_is_exists c (record b { rest = r })) e
        ∙ char_is_exists_miss c x b (bs ++ rest) h in
      (b', unfold ◌>>=◌ in rw (missed, ◌>>=◌) e', h');
}
