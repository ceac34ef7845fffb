-- ===== src/Wal/Buffer.antt =====
-- `bytes.Buffer`, as far as wal-listener/listener/parser.go uses it, and functions that read one.
use godev.Prelude.{
  ℕ, Bool, true, false, [], ◌∷◌, ◌++◌, reverse, take, drop, ℤ, pos, negsuc, Bytes, ◌==◌,
  if◌then◌else◌,
}
use godev.Wal.Outcome.{Outcome, ok, err, panic, slice_bounds, index_out_of_range}

-- `prev` is `buf[:off]`, its last byte first, and `rest` is `buf[off:]`; `last_read` says that
-- `lastRead` is not `opInvalid`.
pub record Buffer : Type 0 where
  pub prev : Bytes
  pub rest : Bytes
  pub last_read : Bool

unfoldable pub new_buffer : Bytes → Buffer
new_buffer bs = record { prev = []; rest = bs; last_read = false }

-- A function that reads from the parser's buffer.
abbrev pub Parse : Type 0 → Type 0
Parse A = Buffer → Outcome (A × Buffer)

abbrev pub pure : {A : Type 0} → A → Parse A
pure a b = ok (a, b)

infixl 5 ◌>>=◌
unfoldable pub ◌>>=◌ : {A B : Type 0} → Parse A → (A → Parse B) → Parse B
◌>>=◌ m f b = elim (m b) [ ok (a, b') ↦ f a b' | err e ↦ err e | panic p ↦ panic p ]

abbrev pub is_empty : Bytes → Bool
is_empty [] = true
is_empty (x ∷ xs) = false

-- `Next(n)`: at most `n` bytes, fewer at the end of the buffer; a negative `n` is out of the
-- slice's bounds.
unfoldable pub next : ℤ → Parse Bytes
next (pos n) b =
    let got = take n b.rest in
    ok (
      got,
      record {
        prev = reverse got ++ b.prev;
        rest = drop n b.rest;
        last_read = if is_empty got then false else true;
      },
    )
next (negsuc n) b = panic slice_bounds

-- `bs[0]`
abbrev pub index_zero : Bytes → Parse ℕ
index_zero [] b = panic index_out_of_range
index_zero (x ∷ xs) b = ok (x, b)

-- `Next(1)[0]`
unfoldable pub next_byte : Parse ℕ
next_byte = do bs ← next (pos 1); index_zero bs

abbrev restore : Bytes → Buffer → Buffer
restore [] b = record b { last_read = false }
restore (x ∷ xs) b = record { prev = xs; rest = x ∷ b.rest; last_read = false }

-- `UnreadByte()`, whose error the parser drops: after no read it changes nothing.
unfoldable pub unread_byte : Buffer → Buffer
unread_byte b = if b.last_read then restore b.prev b else b

-- The bytes up to the first `delim`, that byte included, or all if there is none.
unfoldable pub until_delim : ℕ → Bytes → Bytes × Bytes
until_delim delim [] = ([], [])
until_delim delim (x ∷ xs) =
    let (got, rest) = until_delim delim xs in if x == delim then (x ∷ [], xs) else (x ∷ got, rest)

-- `ReadBytes(delim)`, whose io.EOF the parser drops.
unfoldable pub read_bytes : ℕ → Parse Bytes
unfolding until_delim
read_bytes delim b =
    let (got, rest) = until_delim delim b.rest in
    ok (got, record { prev = reverse got ++ b.prev; rest = rest; last_read = true })
