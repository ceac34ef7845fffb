-- ===== src/Launchy/Views.antt =====
-- launchy/agent.go and nefario/nefario.go: the record that the server lists for a minion and a name,
-- before and after a statement on the table.
use godev.Prelude.{
  true, false, ◌&&◌, List, [], ◌∷◌, ◌++◌, map, Option, none, some, Bytes, bytes_eq, bytes_eq_iff,
  if◌then◌else◌, ◌≡◌, ◌≢◌, ◌∙◌, refl, sym, inl, inr, Bool-cases, Option-cases, arith, ◌⊎◌, ap,
  last_with, last_with, last_with, or_else, or_else, last_with-key, none_right, none_right,
  or_else_assoc,
}
use godev.Slices.{member}
use godev.Slices.Dupes.{IsDistinct}
use godev.Nefario.Crud.{
  ServiceRecord, ServiceRow, Table, Database, has_uid, set_json, record_of_row, records, UnitJson,
}

abbrev pub uids : Table → List Bytes
uids rows = map (λ (r : ServiceRow). r.row_uid) rows

pub has_uid-member : (u : Bytes) (rows : Table) → has_uid u rows ≡ member bytes_eq u (uids rows)
unfolding has_uid member
has_uid-member u [] = refl
has_uid-member u (x ∷ rows) = rw (has_uid-member u rows) refl

module _ (db : Database) (m : Bytes) where
  -- The record that the agent finds under a name in what the server lists.
  abbrev pub view : Bytes → Table → Option ServiceRecord
  view k rows = last_with (λ r. r.name) k (records db m rows)

  pub view-nil : (k : Bytes) → view k [] ≡ none
  unfolding records last_with
  view-nil k = refl

  view-cons :
      (k : Bytes) (r : ServiceRow) (rows : Table)
      → view k (r ∷ rows)
        ≡ or_else (view k rows) (
            if bytes_eq r.row_minion m && bytes_eq r.row_name k
            then some (record_of_row db r)
            else none)
  unfolding records last_with
  view-cons k r rows = elim (Bool-cases (bytes_eq r.row_minion m)) [
    | inl h ↦ rw h refl
    | inr h ↦ rw h (none_right (view k rows))
  ]

  abbrev pub touch : Bytes → Bytes → ServiceRecord → ServiceRecord
  touch u json r = if bytes_eq r.uid u then record r { unit_json = some (db.from_json json) } else r

  abbrev pub touched : Bytes → Bytes → Option ServiceRecord → Option ServiceRecord
  touched u json none = none
  touched u json (some r) = some (touch u json r)

  touched-or_else :
      (u json : Bytes) (a b : Option ServiceRecord)
      → or_else (touched u json a) (touched u json b) ≡ touched u json (or_else a b)
  touched-or_else u json none b = refl
  touched-or_else u json (some r) b = refl

  touched_row :
      (u json k : Bytes) (r : ServiceRow)
      → (let r' = if bytes_eq r.row_uid u then record r { row_json = json } else r in
          if bytes_eq r'.row_minion m && bytes_eq r'.row_name k
          then some (record_of_row db r')
          else none)
        ≡ touched u json (
            if bytes_eq r.row_minion m && bytes_eq r.row_name k
            then some (record_of_row db r)
            else none)
  touched_row u json k r = ground arith

  -- An update changes the record that has the uid, and no name.
  pub view-set_json :
      (u json k : Bytes) (rows : Table)
      → view k (set_json u json rows) ≡ touched u json (view k rows)
  unfolding set_json
  view-set_json u json k [] = rw (view-nil k) refl
  view-set_json u json k (r ∷ rows) =
      rw
        (
          view-cons k (if bytes_eq r.row_uid u then record r { row_json = json } else r)
              (set_json u json rows),
          view-set_json u json k rows,
          touched_row u json k r,
          view-cons k r rows,
        )
        (touched-or_else u json (view k rows) _)

  -- A row at the end is the last one of its minion and its name.
  pub view-append :
      (k : Bytes) (rows : Table) (r : ServiceRow)
      → view k (rows ++ r ∷ [])
        ≡ or_else
            (if bytes_eq r.row_minion m && bytes_eq r.row_name k
              then some (record_of_row db r)
              else none)
            (view k rows)
  view-append k [] r = rw (view-cons k r [], view-nil k) (none_right _)
  view-append k (x ∷ rows) r =
      rw (view-cons k x (rows ++ r ∷ []), view-append k rows r, view-cons k x rows)
        (or_else_assoc _ (view k rows) _)

  -- The uids of a table are those of its rows.
  pub view-has_uid :
      (k : Bytes) (rows : Table) (r : ServiceRecord)
      → view k rows ≡ some r
      → has_uid r.uid rows ≡ true
  unfolding has_uid
  view-has_uid k [] r h = let e : none ≡ some r = sym (view-nil k) ∙ h in absurd (cc)
  view-has_uid k (x ∷ rows) r h = elim (Option-cases (view k rows)) [
    | inl e ↦
        let f : (if bytes_eq x.row_minion m && bytes_eq x.row_name k
              then some (record_of_row db x)
              else none)
            ≡ some r =
          rw (view-cons k x rows, e) at h in
        ground (arith, f, bytes_eq_iff x.row_uid r.uid)
    | inr (z, e) ↦
        let f : some z ≡ some r = rw (view-cons k x rows, e) at h in
        ground (arith, view-has_uid k rows r (e ∙ f))
  ]

  pub view-name : (k : Bytes) (rows : Table) (r : ServiceRecord) → view k rows ≡ some r → r.name ≡ k
  view-name k rows r h = last_with-key (λ r. r.name) k (records db m rows) r h

  own_row :
      (k : Bytes) (x : ServiceRow) (q : ServiceRecord)
      → (if bytes_eq x.row_minion m && bytes_eq x.row_name k
          then some (record_of_row db x)
          else none)
        ≡ some q
      → (record_of_row db x ≡ q) × (x.row_name ≡ k)
  own_row k x q h = ground (arith, bytes_eq_iff x.row_name k)

  -- What a view with one more row shows is in the rows or is the new row.
  view_cases :
      (k : Bytes) (x : ServiceRow) (rows : Table) (q : ServiceRecord)
      → view k (x ∷ rows) ≡ some q
      → (view k rows ≡ some q) ⊎ ((record_of_row db x ≡ q) × (x.row_name ≡ k))
  view_cases k x rows q h = elim (Option-cases (view k rows)) [
    | inl e ↦ inr (own_row k x q (rw (view-cons k x rows, e) at h))
    | inr (z, e) ↦ inl (e ∙ (rw (view-cons k x rows, e) at h))
  ]

  not_both :
      (k : Bytes) (x : ServiceRow) (rows : Table) (q : ServiceRecord)
      → member bytes_eq x.row_uid (uids rows) ≡ false
      → view k rows ≡ some q
      → x.row_uid ≢ q.uid
  not_both k x rows q new h e =
      let f : has_uid x.row_uid rows ≡ true = rw e (view-has_uid k rows q h) in
      absurd (cc (has_uid-member x.row_uid rows))

  -- Where no uid stands twice, it leads to one name.
  pub view-uid :
      (j k : Bytes) (rows : Table) (q r : ServiceRecord)
      → IsDistinct bytes_eq (uids rows)
      → view j rows ≡ some q
      → view k rows ≡ some r
      → q.uid ≡ r.uid
      → j ≡ k
  view-uid j k [] q r d hq hr u = let e : none ≡ some r = sym (view-nil k) ∙ hr in absurd (cc)
  view-uid j k (x ∷ rows) q r d hq hr u = elim (view_cases j x rows q hq) [
    | inl a ↦ elim (view_cases k x rows r hr) [
      | inl b ↦ view-uid j k rows q r d.1 a b u
      | inr b ↦ absurd (not_both j x rows q d.0 a (ap (λ (z : ServiceRecord). z.uid) b.0 ∙ sym u))
    ]
    | inr a ↦ elim (view_cases k x rows r hr) [
      | inl b ↦ absurd (not_both k x rows r d.0 b (ap (λ (z : ServiceRecord). z.uid) a.0 ∙ u))
      | inr b ↦ sym a.1 ∙ b.1
    ]
  ]

  -- Every record that the server lists has its unit.
  pub view-json :
      (k : Bytes) (rows : Table) (r : ServiceRecord)
      → view k rows ≡ some r
      → (j : UnitJson) × (r.unit_json ≡ some j)
  view-json k [] r h = let e : none ≡ some r = sym (view-nil k) ∙ h in absurd (cc)
  view-json k (x ∷ rows) r h = elim (view_cases k x rows r h) [
    | inl a ↦ view-json k rows r a
    | inr b ↦ (db.from_json x.row_json, sym (ap (λ (z : ServiceRecord). z.unit_json) b.0))
  ]
