-- ===== src/Wal/Word.antt =====
-- `encoding/binary` as wal-listener/listener/parser.go uses it: fixed-size signed integers in the
-- parser's byte order. An integer of `k` bytes is a number below `256 ^ k`, read in two's complement.
use mathlib.Core.List.{reverse-reverse}
use native.Mathlib.Nat.{pow-suc}
use godev.Prelude.{
  ℕ, zero, suc, ◌+◌, ◌-◌, ◌*◌, ◌/◌, ◌%◌, ◌^◌, ◌≤◌, ◌<◌, ◌≡◌, refl, ap, ◌∙◌, [], ◌∷◌, ◌++◌, reverse,
  Bytes, ℤ, pos, negsuc, pos_part, neg_part, arith, ltb, if◌then◌else◌, length, length-append,
  length-reverse,
}

pub data ByteOrder : Type 0 where
  big_endian little_endian : ByteOrder

abbrev pub from_digits : ℕ → Bytes → ℕ
from_digits acc [] = acc
from_digits acc (x ∷ xs) = from_digits (acc * 256 + x) xs

-- The most significant byte comes first.
abbrev pub in_order : ByteOrder → Bytes → Bytes
in_order big_endian bs = bs
in_order little_endian bs = reverse bs

unfoldable pub word_of : ByteOrder → Bytes → ℕ
word_of o bs = from_digits 0 (in_order o bs)

-- Two's complement over the modulus `m`.
unfoldable pub signed : ℕ → ℕ → ℤ
signed m w = if ltb (2 * w) m then pos w else negsuc (m - w - 1)

unfoldable pub unsigned : ℕ → ℤ → ℕ
unsigned m (pos n) = n
unsigned m (negsuc n) = m - n - 1

abbrev pub u64_mod : ℕ
u64_mod = 2 ^ 64

-- `a * b` on `int64`, which wraps.
unfoldable pub mul64 : ℤ → ℤ → ℤ
unfolding signed unsigned
mul64 a b = signed u64_mod (unsigned u64_mod a * unsigned u64_mod b % u64_mod)

abbrev pub Fits : ℕ → ℤ → Type 0
Fits m z = (2 * pos_part z < m) × (2 * neg_part z ≤ m)

-- The encoder that a PostgreSQL server follows.
unfoldable pub put_digits : ℕ → ℕ → Bytes
put_digits zero w = []
put_digits (suc k) w = put_digits k (w / 256) ++ (w % 256) ∷ []

unfoldable pub put_int : ByteOrder → ℕ → ℤ → Bytes
unfolding put_digits unsigned
put_int o k z = in_order o (put_digits k (unsigned (256 ^ k) z))

from_digits-append :
    (acc : ℕ) (xs : Bytes) (x : ℕ) → from_digits acc (xs ++ x ∷ []) ≡ from_digits acc xs * 256 + x
from_digits-append acc [] x = refl
from_digits-append acc (y ∷ xs) x = from_digits-append (acc * 256 + y) xs x

pub length-put_digits : (k w : ℕ) → length (put_digits k w) ≡ k
unfolding put_digits
length-put_digits zero w = refl
length-put_digits (suc k) w =
    omega (
      arith,
      length-append (put_digits k (w / 256)) ((w % 256) ∷ []),
      length-put_digits k (w / 256),
    )

from_digits-put_digits : (k w : ℕ) → w < 256 ^ k → from_digits 0 (put_digits k w) ≡ w
unfolding put_digits
from_digits-put_digits zero w h = omega arith
from_digits-put_digits (suc k) w h =
    from_digits-append 0 (put_digits k (w / 256)) (w % 256)
    ∙ omega (arith, from_digits-put_digits k (w / 256) (omega (arith, pow-suc 256 k)))

unsigned-lt : (m : ℕ) (z : ℤ) → Fits m z → unsigned m z < m
unfolding unsigned
unsigned-lt m (pos n) h = omega arith
unsigned-lt m (negsuc n) h = omega arith

pub signed-unsigned : (m : ℕ) (z : ℤ) → Fits m z → signed m (unsigned m z) ≡ z
unfolding signed unsigned
signed-unsigned m (pos n) h = ground arith
signed-unsigned m (negsuc n) h = ground arith

pub length-put_int : (o : ByteOrder) (k : ℕ) (z : ℤ) → length (put_int o k z) ≡ k
unfolding put_int
length-put_int big_endian k z = length-put_digits k _
length-put_int little_endian k z = length-reverse _ ∙ length-put_digits k _

-- An integer of `k` bytes in range that is written in two's complement is read back, in both byte
-- orders and at every width.
pub word_of-put_int :
    (o : ByteOrder) (k : ℕ) (z : ℤ)
    → Fits (256 ^ k) z
    → signed (256 ^ k) (word_of o (put_int o k z)) ≡ z
unfolding word_of put_int
word_of-put_int big_endian k z h =
    ap (signed (256 ^ k)) (from_digits-put_digits k _ (unsigned-lt (256 ^ k) z h))
    ∙ signed-unsigned (256 ^ k) z h
word_of-put_int little_endian k z h =
    ap (λ bs. signed (256 ^ k) (from_digits 0 bs)) {y = put_digits k (unsigned (256 ^ k) z)}
      (reverse-reverse _)
    ∙ ap (signed (256 ^ k)) (from_digits-put_digits k _ (unsigned-lt (256 ^ k) z h))
    ∙ signed-unsigned (256 ^ k) z h

-- No wrap-around when the product fits.
pub mul64_thousand :
    (a : ℤ)
    → Fits u64_mod a
    → 2 * (pos_part a * 1000) < u64_mod
    → 2 * (neg_part a * 1000) ≤ u64_mod
    → (pos_part (mul64 a (pos 1000)) ≡ pos_part a * 1000)
      × (neg_part (mul64 a (pos 1000)) ≡ neg_part a * 1000)
unfolding mul64
mul64_thousand (pos n) f h k = ground arith
mul64_thousand (negsuc n) f h k = ground arith
