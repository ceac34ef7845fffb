-- ===== src/Wal/Decode/Primitives.antt =====
-- wal-listener/listener/parser.go: each reading method on what a server wrote: integers, strings, rows,
-- columns.
use mathlib.Core.List.{map-id, reverse-append, reverse-cons, reverse-reverse}
use godev.Prelude.{
  ℕ, ◌^◌, ◌<◌, ◌≡◌, refl, ap, ◌∙◌, Bool, true, false, List, [], ◌∷◌, ◌++◌, map, reverse,
  append_assoc, Bytes, ℤ, pos, arith, ◌==◌, ==_iff, if◌then◌else◌, length, All,
}
use godev.Wal.Buffer.{Parse, pure, next, next_byte, read_bytes, until_delim}
use godev.Wal.Word.{
  ByteOrder, signed, word_of, put_int, Fits, length-put_int, word_of-put_int, mul64,
}
use godev.Wal.Protocol.{RelationColumn}
use godev.Wal.Reader.{
  read_int, read_timestamp, trim_left, trim, read_string, read_bool, make_size, read_column, repeat,
  read_columns, read_cell, read_tuple_item, read_tuple_data,
}
use mathlib.Core.Path.{subst}
use godev.Wal.Reads.{Reads, Reads-pure, Reads-bind, Reads-last, Reads-next, Reads-next_byte}
use godev.Wal.Encode.{
  Cell, null_cell, toast_cell, text_cell, Row, cell_data, put_cell, put_all, put_row, put_string,
  put_column, put_columns, Short, CellFits, RowFits, IsText, ColumnFits,
}

Reads-int_value :
    (o : ByteOrder) (k : ℕ) (z : ℤ)
    → Fits (256 ^ k) z
    → Reads
        (pure (
          if length (put_int o k z) == k
          then signed (256 ^ k) (word_of o (put_int o k z))
          else pos 0))
        []
        z
Reads-int_value o k z h =
    rw ((==_iff _ k).1 (length-put_int o k z), word_of-put_int o k z h) (Reads-pure z)

pub Reads-int :
    (o : ByteOrder) (k : ℕ) (z : ℤ) → Fits (256 ^ k) z → Reads (read_int o k) (put_int o k z) z
unfolding read_int
Reads-int o k z h =
    Reads-last (next (pos k)) _ (Reads-next (put_int o k z) k (length-put_int o k z))
      (Reads-int_value o k z h)

pub Reads-timestamp :
    (o : ByteOrder) (z : ℤ)
    → Fits (256 ^ 8) z
    → Reads (read_timestamp o) (put_int o 8 z) (mul64 z (pos 1000))
unfolding read_timestamp
Reads-timestamp o z h = Reads-last (read_int o 8) _ (Reads-int o 8 z h) (Reads-pure _)

-- Strings

until_delim-IsText :
    (s rest : Bytes) → IsText s → until_delim 0 (s ++ 0 ∷ rest) ≡ (put_string s, rest)
unfolding until_delim
until_delim-IsText [] rest h = refl
until_delim-IsText (x ∷ s) rest h = ground (arith, until_delim-IsText s rest h.1)

trim_left-IsText : (s : Bytes) → IsText s → trim_left s ≡ s
trim_left-IsText [] h = refl
trim_left-IsText (x ∷ s) h = ground arith

All-append : (P : ℕ → Type 0) (xs ys : Bytes) → All P xs → All P ys → All P (xs ++ ys)
All-append P [] ys h k = k
All-append P (x ∷ xs) ys h k = (h.0, All-append P xs ys h.1 k)

reverse-IsText : (s : Bytes) → IsText s → IsText (reverse s)
reverse-IsText [] h = tt
reverse-IsText (x ∷ s) h =
    rw (reverse-cons x s)
      (All-append (λ c. 0 < c) (reverse s) (x ∷ []) (reverse-IsText s h.1) (h.0, tt))

trim-put_string : (s : Bytes) → IsText s → trim (put_string s) ≡ s
unfolding trim
trim-put_string s h =
    rw
      (
        reverse-append s (0 ∷ []),
        trim_left-IsText (reverse s) (reverse-IsText s h),
        reverse-reverse s,
      )
      (trim_left-IsText s h)

Reads-bytes : (s : Bytes) → IsText s → Reads (read_bytes 0) (put_string s) (put_string s)
unfolding read_bytes
Reads-bytes s h = record {
  run = λ b rest e.
      let found =
        ap (until_delim 0) (e ∙ append_assoc s (0 ∷ []) rest) ∙ until_delim-IsText s rest h in
      (
        record {
          prev = reverse (until_delim 0 b.rest).0 ++ b.prev;
          rest = (until_delim 0 b.rest).1;
          last_read = true;
        },
        rw found refl,
        rw found refl,
      );
}

pub Reads-string : (s : Bytes) → IsText s → Reads read_string (put_string s) s
unfolding read_string
Reads-string s h =
    Reads-last (read_bytes 0) _ (Reads-bytes s h) (rw (trim-put_string s h) (Reads-pure s))

pub Reads-bool : (k : Bool) → Reads read_bool ((if k then 1 else 0) ∷ []) k
unfolding read_bool
Reads-bool true = Reads-last next_byte _ (Reads-next_byte 1) (Reads-pure true)
Reads-bool false = Reads-last next_byte _ (Reads-next_byte 0) (Reads-pure false)

-- Loops

pub Reads-repeat :
    {A B : Type 0} (m : Parse A) (put : B → Bytes) (get : B → A) (P : B → Type 0)
    → ((x : B) → P x → Reads m (put x) (get x))
    → (xs : List B) → All P xs
    → Reads (repeat m (length xs)) (put_all put xs) (map get xs)
unfolding repeat
Reads-repeat m put get P h [] a = Reads-pure []
Reads-repeat m put get P h (x ∷ xs) a =
    Reads-bind m _ (h x a.0)
      (Reads-last (repeat m (length xs)) _ (Reads-repeat m put get P h xs a.1) (Reads-pure _))

Reads-size : (n : ℕ) → Reads (make_size (pos n)) [] n
Reads-size n = record { run = λ b rest h. (b, refl, h) }

-- Rows

Reads-cell :
    (o : ByteOrder) (c : Cell) → CellFits c → Reads (read_tuple_item o) (put_cell o c) (cell_data c)
unfolding read_tuple_item read_cell
Reads-cell o null_cell h = Reads-last next_byte _ (Reads-next_byte b'n') (Reads-pure _)
Reads-cell o toast_cell h = Reads-last next_byte _ (Reads-next_byte b'u') (Reads-pure _)
Reads-cell o (text_cell v) h = Reads-bind next_byte _ (Reads-next_byte b't') (
    Reads-bind (read_int o 4) _ (Reads-int o 4 (pos (length v)) (omega arith))
      (Reads-last (next (pos (length v))) _ (Reads-next v (length v) refl) (Reads-pure _)))

pub Reads-row :
    (o : ByteOrder) (r : Row)
    → RowFits r
    → Reads (read_tuple_data o) (put_row o r) (map cell_data r)
unfolding read_tuple_data
Reads-row o r h = Reads-bind (read_int o 2) _ (Reads-int o 2 (pos (length r)) (omega arith)) (
    Reads-bind (make_size (pos (length r))) _ (Reads-size (length r))
      (Reads-repeat (read_tuple_item o) (put_cell o) cell_data CellFits (Reads-cell o) r h.1))

-- Columns

Reads-column :
    (o : ByteOrder) (c : RelationColumn) → ColumnFits c → Reads (read_column o) (put_column o c) c
unfolding read_column
Reads-column o c h = Reads-bind read_bool _ (Reads-bool c.key) (
    Reads-bind read_string _ (Reads-string c.name h.0) (
      Reads-bind (read_int o 4) _ (Reads-int o 4 c.type_id h.1)
        (Reads-last (read_int o 4) _ (Reads-int o 4 c.modifier_type h.2) (Reads-pure c))))

pub Reads-columns :
    (o : ByteOrder) (cs : List RelationColumn)
    → Short (length cs)
    → All ColumnFits cs
    → Reads (read_columns o) (put_columns o cs) cs
unfolding read_columns
Reads-columns o cs s h =
    Reads-bind (read_int o 2) _ (Reads-int o 2 (pos (length cs)) (omega arith)) (
      Reads-bind (make_size (pos (length cs))) _ (Reads-size (length cs)) (
        subst (Reads (repeat (read_column o) (length cs)) (put_all (put_column o) cs)) (map-id cs)
          (Reads-repeat (read_column o) (put_column o) (λ c. c) ColumnFits (Reads-column o) cs h)))
