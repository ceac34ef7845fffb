-- ===== src/Wal/Strconv.antt =====
-- `strconv.ParseBool`, `strconv.Atoi` and `strconv.ParseInt(s, 10, 64)` of Go's library, as
-- `AssertValue` in wal-listener/listener/wal_transaction.go uses them: the value is kept, the error
-- only logged. So each function gives the value that is returned next to the error.
use godev.Prelude.{
  ℕ, ◌+◌, ◌-◌, ◌*◌, ◌^◌, Bool, true, false, ◌&&◌, ◌||◌, [], ◌∷◌, Option, none, some, Bytes, codes,
  ◌≡◌, refl, ℤ, pos, negsuc, bytes_eq, leb, ltb, ◌==◌, if◌then◌else◌,
}

-- False with an error for every other text but the six spellings of false.
unfoldable pub parse_bool : Bytes → Bool
parse_bool s =
    bytes_eq s (codes "1")
    || bytes_eq s (codes "t")
    || bytes_eq s (codes "T")
    || bytes_eq s (codes "true")
    || bytes_eq s (codes "TRUE")
    || bytes_eq s (codes "True")

abbrev pub max_uint64 : ℕ
max_uint64 = 2 ^ 64 - 1

abbrev pub is_digit : ℕ → Bool
is_digit c = leb b'0' c && leb c b'9'

-- `none` is a syntax error; a value out of range ends the loop with the largest one.
unfoldable pub parse_digits : ℕ → Bytes → Option ℕ
parse_digits acc [] = some acc
parse_digits acc (c ∷ cs) =
    let acc' = acc * 10 + (c - b'0') in
    let rest = parse_digits acc' cs in
    if is_digit c then (if ltb max_uint64 acc' then some max_uint64 else rest) else none

unfoldable pub parse_uint : Bytes → Option ℕ
unfolding parse_digits
parse_uint [] = none
parse_uint (c ∷ cs) = parse_digits 0 (c ∷ cs)

-- -n, for n up to the largest magnitude.
abbrev pub negate : ℕ → ℤ
negate n = if n == 0 then pos 0 else negsuc (n - 1)

abbrev pub to_int64 : Bool → Option ℕ → ℤ
to_int64 neg none = pos 0
to_int64 false (some n) = if leb (2 ^ 63) n then pos (2 ^ 63 - 1) else pos n
to_int64 true (some n) = if ltb (2 ^ 63) n then negate (2 ^ 63) else negate n

unfoldable pub parse_int64 : Bytes → ℤ
unfolding parse_uint
parse_int64 [] = pos 0
parse_int64 (c ∷ cs) =
    if c == b'+'
    then to_int64 false (parse_uint cs)
    else if c == b'-'
    then to_int64 true (parse_uint cs)
    else to_int64 false (parse_uint (c ∷ cs))

-- On a 64-bit platform an `int` has the range of an `int64`, and `Atoi` gives what `ParseInt` gives.
abbrev pub atoi : Bytes → ℤ
atoi = parse_int64

samples :
    (parse_int64 (codes "-42") ≡ negsuc 41)
    × (parse_int64 (codes "9223372036854775808") ≡ pos 9223372036854775807)
    × (parse_int64 (codes "99999999999999999999x") ≡ pos 9223372036854775807)
    × (parse_int64 (codes "4x") ≡ pos 0)
unfolding parse_int64
samples = (refl, refl, refl, refl)
