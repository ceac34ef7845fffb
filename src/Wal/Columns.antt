-- ===== src/Wal/Columns.antt =====
-- The columns that `CreateActionData` of wal-listener/listener/wal_transaction.go makes of a row.
use godev.Prelude.{
  ℕ, suc, ◌≡◌, ◌↔◌, refl, ap, ◌∙◌, List, [], ◌∷◌, Option, none, some, Bytes, arith, get_elem?, ℤ,
}
use mathlib.Core.Path.{subst, sym}
use godev.Wal.Outcome.{ok, bind, bind-eq-ok, ok-injective}
use godev.Wal.Protocol.{TupleData}
use godev.Wal.Transaction.{
  Value, nil, Decoders, Column, typed_value, assert_value, column_at, row_columns,
}

module _ {J : Type 0} (d : Decoders J) where
  -- The value of a column of type `t` for the bytes of a row: nil for a nil slice.
  pub Decodes : ℤ → Option Bytes → Value J → Type 0
  Decodes t none v = v ≡ nil
  Decodes t (some src) v = typed_value d t src ≡ ok v

  -- `c` describes the cell `row` by the relation's column `r`.
  pub record Describes (r : Column J) (row : TupleData) (c : Column J) : Type 0 where
    pub same_name : c.name ≡ r.name
    pub same_type : c.value_type ≡ r.value_type
    pub same_key : c.is_key ≡ r.is_key
    pub decodes : Decodes r.value_type row.value c.value

  -- The n-th row is described by the relation's n-th column.
  pub data Rows (columns : List (Column J)) : ℕ → List TupleData → List (Column J) → Type 0 where
    none_left : {n : ℕ} → Rows columns n [] []
    one_more :
        {n : ℕ} {row : TupleData} {rows : List TupleData} {r c : Column J} {cs : List (Column J)}
        → get_elem? columns n ≡ some r
        → Describes r row c
        → Rows columns (suc n) rows cs
        → Rows columns n (row ∷ rows) (c ∷ cs)

  column_at-eq-ok :
      (o : Option (Column J)) {c : Column J}
      → column_at d o ≡ ok c
      → (r : Column J) × (o ≡ some r) × (c ≡ record r { value = nil })
  column_at-eq-ok none h = cc
  column_at-eq-ok (some r) h = (r, refl, sym (ok-injective h))

  value-Describes :
      (r : Column J) (o : Option Bytes) {c : Column J}
      → assert_value d (record r { value = nil }) o ≡ ok c
      → Describes r (record { value = o }) c
  unfolding assert_value Decodes
  value-Describes r none h =
      subst (Describes r (record { value = none })) (ok-injective h)
        (record { same_name = refl; same_type = refl; same_key = refl; decodes = refl })
  value-Describes r (some src) h =
      let (v, e, k) =
        bind-eq-ok (typed_value d r.value_type src) (λ v. ok (record r { value = v })) h in
      subst (Describes r (record { value = some src })) (ok-injective k)
        (record { same_name = refl; same_type = refl; same_key = refl; decodes = e })

  row_columns-Rows :
      (columns : List (Column J)) (n : ℕ) (rows : List TupleData) {cs : List (Column J)}
      → row_columns d columns n rows ≡ ok cs
      → Rows columns n rows cs
  unfolding row_columns
  row_columns-Rows columns n [] h = subst (Rows columns n []) (ok-injective h) none_left
  row_columns-Rows columns n (row ∷ rows) h =
      let (column, e, h1) = bind-eq-ok (column_at d (get_elem? columns n)) _ h in
      let (c, f, h2) = bind-eq-ok (assert_value d column row.value) _ h1 in
      let (cs, g, h3) = bind-eq-ok (row_columns d columns (suc n) rows) (λ cs. ok (c ∷ cs)) h2 in
      let (r, at_n, blank) = column_at-eq-ok (get_elem? columns n) e in
      let described =
        value-Describes r row.value (ap (λ x. assert_value d x row.value) (sym blank) ∙ f) in
      subst (Rows columns n (row ∷ rows)) (ok-injective h3)
        (one_more at_n described (row_columns-Rows columns (suc n) rows g))

  Describes-value :
      (r : Column J) (o : Option Bytes) (c : Column J)
      → Describes r (record { value = o }) c
      → assert_value d (record r { value = nil }) o ≡ ok c
  unfolding assert_value Decodes
  Describes-value r none c h = ground (arith, h.same_name, h.same_type, h.same_key, h.decodes)
  Describes-value r (some src) c h =
      rw h.decodes (ground (arith, h.same_name, h.same_type, h.same_key))

  Rows-row_columns :
      {columns cs : List (Column J)} {n : ℕ} {rows : List TupleData}
      → Rows columns n rows cs
      → row_columns d columns n rows ≡ ok cs
  unfolding row_columns
  Rows-row_columns none_left = refl
  Rows-row_columns {columns = columns} (one_more {n} {row} {rows} {r} {c} {cs} at_n h t) =
      ap
        (λ o. bind (column_at d o) (λ column.
          bind (assert_value d column row.value)
            (λ c. bind (row_columns d columns (suc n) rows) (λ cs. ok (c ∷ cs)))))
        at_n
      ∙ ap (λ x. bind x (λ c. bind (row_columns d columns (suc n) rows) (λ cs. ok (c ∷ cs))))
          (Describes-value r row.value c h)
      ∙ ap (λ x. bind x (λ cs. ok (c ∷ cs))) (Rows-row_columns t)

  -- The loop over a row gives the columns `cs` exactly when each of them carries the name, type and
  -- key flag of the relation's column at the same place, and the value that the row's bytes decode to
  -- at that type.
  pub row_columns_iff :
      (columns : List (Column J)) (rows : List TupleData) (cs : List (Column J))
      → (row_columns d columns 0 rows ≡ ok cs) ↔ Rows columns 0 rows cs
  row_columns_iff columns rows cs = (row_columns-Rows columns 0 rows, Rows-row_columns)
