-- ===== src/Launchy/Listing.antt =====
-- The records that nefario/nefario.go lists for a minion where no name stands twice among them: their
-- order, which PostgreSQL does not promise, does not matter then.
use godev.Prelude.{
  true, false, List, [], ◌∷◌, ◌++◌, map, none, some, Bytes, bytes_eq, bytes_eq_iff, ◌≡◌, ◌∙◌, refl,
  sym, ap, inl, inr, Bool-cases, Option-cases, arith, ◌⊎◌, All, last_with,
}
use godev.Slices.{member}
use godev.Slices.Dupes.{IsDistinct}
use godev.Nefario.Crud.{ServiceRecord, ServiceRow, Table, Database, set_json, records}
use godev.Launchy.Views.{view}
use godev.Launchy.Distinct.{append-IsDistinct}

-- A record is one of the list.
unfoldable pub Listed : ServiceRecord → List ServiceRecord → Type 0
Listed r [] = ⊥
Listed r (x ∷ xs) = (x ≡ r) ⊎ Listed r xs

abbrev names_of : List ServiceRecord → List Bytes
names_of rs = map (λ (r : ServiceRecord). r.name) rs

pub All-Listed :
    (P : ServiceRecord → Type 0) (rs : List ServiceRecord)
    → ((r : ServiceRecord) → Listed r rs → P r)
    → All P rs
unfolding Listed
All-Listed P [] f = tt
All-Listed P (x ∷ rs) f = (f x (inl refl), All-Listed P rs λ r h. f r (inr h))

named_none :
    (k : Bytes) (rs : List ServiceRecord)
    → member bytes_eq k (names_of rs) ≡ false
    → last_with (λ r. r.name) k rs ≡ none
unfolding member last_with
named_none k [] h = refl
named_none k (x ∷ rs) h =
    let later : last_with (λ (r : ServiceRecord). r.name) k rs ≡ none =
      named_none k rs (ground arith) in
    let here : bytes_eq x.name k ≡ false = ground arith in rw (later, here) refl

none-named :
    (k : Bytes) (rs : List ServiceRecord)
    → last_with (λ r. r.name) k rs ≡ none
    → member bytes_eq k (names_of rs) ≡ false
unfolding member last_with
none-named k [] h = refl
none-named k (x ∷ rs) h = elim (Option-cases (last_with (λ (r : ServiceRecord). r.name) k rs)) [
  | inl e ↦ elim (Bool-cases (bytes_eq x.name k)) [
    | inl a ↦ let f : some x ≡ none = rw (e, a) at h in absurd (cc)
    | inr a ↦ rw a (none-named k rs e)
  ]
  | inr (z, e) ↦ let f : some z ≡ none = rw e at h in absurd (cc)
]

Listed-named :
    (r : ServiceRecord) (rs : List ServiceRecord)
    → Listed r rs
    → member bytes_eq r.name (names_of rs) ≡ true
unfolding member Listed
Listed-named r [] h = absurd h
Listed-named r (x ∷ rs) (inl e) =
    rw ((bytes_eq_iff x.name r.name).1 (ap (λ (z : ServiceRecord). z.name) e)) refl
Listed-named r (x ∷ rs) (inr h) = let later = Listed-named r rs h in ground arith

Listed-last_with :
    (r : ServiceRecord) (rs : List ServiceRecord)
    → IsDistinct bytes_eq (names_of rs)
    → Listed r rs
    → last_with (λ r. r.name) r.name rs ≡ some r
unfolding Listed last_with
Listed-last_with r [] d h = absurd h
Listed-last_with r (x ∷ rs) d (inl e) =
    let same = ap (λ (z : ServiceRecord). z.name) e in
    let later : last_with (λ (r : ServiceRecord). r.name) r.name rs ≡ none =
      named_none r.name rs (ap (λ k. member bytes_eq k (names_of rs)) (sym same) ∙ d.0) in
    rw (later, (bytes_eq_iff x.name r.name).1 same) (ap some e)
Listed-last_with r (x ∷ rs) d (inr h) = rw (Listed-last_with r rs d.1 h) refl

last_with-Listed :
    (k : Bytes) (r : ServiceRecord) (rs : List ServiceRecord)
    → last_with (λ r. r.name) k rs ≡ some r
    → Listed r rs
unfolding Listed last_with
last_with-Listed k r [] h = cc
last_with-Listed k r (x ∷ rs) h =
    elim (Option-cases (last_with (λ (r : ServiceRecord). r.name) k rs)) [
      | inl e ↦ elim (Bool-cases (bytes_eq x.name k)) [
        | inl a ↦ let f : some x ≡ some r = rw (e, a) at h in inl cc
        | inr a ↦ let f : none ≡ some r = rw (e, a) at h in absurd (cc)
      ]
      | inr (z, e) ↦ let f : some z ≡ some r = rw e at h in inr (last_with-Listed k r rs (e ∙ f))
    ]

module _ (db : Database) (m : Bytes) where
  -- The names of the minion's records.
  abbrev pub listed_names : Table → List Bytes
  listed_names t = names_of (records db m t)

  pub Listed-view :
      (t : Table) (r : ServiceRecord)
      → IsDistinct bytes_eq (listed_names t)
      → Listed r (records db m t)
      → view db m r.name t ≡ some r
  Listed-view t r d h = Listed-last_with r (records db m t) d h

  pub view-Listed :
      (t : Table) (k : Bytes) (r : ServiceRecord)
      → view db m k t ≡ some r
      → Listed r (records db m t)
  view-Listed t k r h = last_with-Listed k r (records db m t) h

  -- Each record is the one that its name leads to.
  pub All-Listed-view :
      (t : Table)
      → IsDistinct bytes_eq (listed_names t)
      → All (λ r. view db m r.name t ≡ some r) (records db m t)
  All-Listed-view t d =
      All-Listed (λ r. view db m r.name t ≡ some r) (records db m t) λ r h. Listed-view t r d h

  names-set_json : (u json : Bytes) (t : Table) → listed_names (set_json u json t) ≡ listed_names t
  unfolding set_json records
  names-set_json u json [] = refl
  names-set_json u json (r ∷ t) = elim (Bool-cases (bytes_eq r.row_uid u)) [
    | inl e ↦ elim (Bool-cases (bytes_eq r.row_minion m)) [
      | inl a ↦ rw (e, a) (ap (◌∷◌ r.row_name) (names-set_json u json t))
      | inr a ↦ rw (e, a) (names-set_json u json t)
    ]
    | inr e ↦ elim (Bool-cases (bytes_eq r.row_minion m)) [
      | inl a ↦ rw (e, a) (ap (◌∷◌ r.row_name) (names-set_json u json t))
      | inr a ↦ rw (e, a) (names-set_json u json t)
    ]
  ]

  pub set_json_unique :
      (u json : Bytes) (t : Table)
      → IsDistinct bytes_eq (listed_names t)
      → IsDistinct bytes_eq (listed_names (set_json u json t))
  set_json_unique u json t d = rw (names-set_json u json t) d

  names-append :
      (t : Table) (r : ServiceRow)
      → bytes_eq r.row_minion m ≡ true
      → listed_names (t ++ r ∷ []) ≡ listed_names t ++ r.row_name ∷ []
  unfolding records
  names-append [] r h = rw h refl
  names-append (x ∷ t) r h = elim (Bool-cases (bytes_eq x.row_minion m)) [
    | inl a ↦ rw a (ap (◌∷◌ x.row_name) (names-append t r h))
    | inr a ↦ rw a (names-append t r h)
  ]

  pub append_unique :
      (t : Table) (r : ServiceRow)
      → bytes_eq r.row_minion m ≡ true
      → view db m r.row_name t ≡ none
      → IsDistinct bytes_eq (listed_names t)
      → IsDistinct bytes_eq (listed_names (t ++ r ∷ []))
  append_unique t r h new d =
      rw (names-append t r h) (
        append-IsDistinct (listed_names t) r.row_name d
          (none-named r.row_name (records db m t) new))
