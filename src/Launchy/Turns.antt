-- ===== src/Launchy/Turns.antt =====
-- A turn of the loop of RunServiceSlurpLoopOnce in launchy/agent.go, with what its actions do to the
-- table of nefario/nefario.go.
use godev.Prelude.{
  ℕ, ◌≤◌, true, false, ◌||◌, List, [], ◌∷◌, ◌++◌, Option, none, some, Bytes, bytes_eq, bytes_eq_iff,
  ◌≡◌, refl, ap, inl, inr, Bool-cases, arith, ◌≢◌, ◌∙◌, Option-cases, sym, if◌then◌else◌, ◌<◌,
}
use godev.Slices.Dupes.{IsDistinct}
use godev.Nefario.Crud.{
  UnitJson, ServiceRecord, ServiceRow, Table, Database, has_uid, set_json, RecordCrud, crud_all,
  update_service, any_bad,
}
use godev.Launchy.Slurp.{
  Host, SystemdUnit, random_uid, to_service_unit_json, compare_service, turn, update_record,
  not_showing,
}
use godev.Launchy.Listing.{listed_names, set_json_unique}
use godev.Launchy.Views.{uids, view, view, has_uid-member, view-set_json, view-uid}

-- The server refuses no statement, and reads back the message that it wrote.
pub record IsHealthy (db : Database) : Type 0 where
  pub inserts : (r : ServiceRow) → db.insert_ok r ≡ true
  pub updates : (u json : Bytes) → db.update_ok u json ≡ true
  pub lists : (m : Bytes) → db.list_ok m ≡ true
  pub reads_back : (j : UnitJson) → db.from_json (db.to_json (some j)) ≡ j

-- No uid stands twice in the table, and those still to be made are new.
pub record IsReady (h : Host) (n : ℕ) (t : Table) : Type 0 where
  pub distinct : IsDistinct bytes_eq (uids t)
  pub fresh : (i : ℕ) → n ≤ i → has_uid (random_uid h i) t ≡ false

-- The record of a name after a pass, from the unit that systemctl shows and the record before: the
-- state of the unit, in a new record where there was none; or the record as it was, but for saying that
-- there is no such unit.
abbrev pub Shows : Option SystemdUnit → Option ServiceRecord → Option ServiceRecord → Type 0
Shows (some u) (some r) now = now ≡ some (record r { unit_json = some (to_service_unit_json u) })
Shows (some u) none now =
    (r : ServiceRecord) × (now ≡ some r) × (r.unit_json ≡ some (to_service_unit_json u))
Shows none (some r) now =
    (j : UnitJson) × (r.unit_json ≡ some j)
    × (now ≡ some (record r { unit_json = some (if j.unit_exists then not_showing j else j) }))
Shows none none now = now ≡ none

uids-set_json : (u json : Bytes) (t : Table) → uids (set_json u json t) ≡ uids t
unfolding set_json
uids-set_json u json [] = refl
uids-set_json u json (r ∷ t) = elim (Bool-cases (bytes_eq r.row_uid u)) [
  | inl e ↦ rw (e, uids-set_json u json t) refl
  | inr e ↦ rw (e, uids-set_json u json t) refl
]

pub has_uid-append :
    (v : Bytes) (t : Table) (r : ServiceRow)
    → has_uid v (t ++ r ∷ []) ≡ (has_uid v t || bytes_eq r.row_uid v)
unfolding has_uid
has_uid-append v [] r = ground arith
has_uid-append v (x ∷ t) r = ground (arith, has_uid-append v t r)

pub uids-append : (t : Table) (r : ServiceRow) → uids (t ++ r ∷ []) ≡ uids t ++ r.row_uid ∷ []
uids-append [] r = refl
uids-append (x ∷ t) r = ap (◌∷◌ x.row_uid) (uids-append t r)

-- What the actions of a turn do to the table: the name shows its unit, the others are as before.
pub record Handled (h : Host) (db : Database) (k : Bytes) (o : Option SystemdUnit)
    (d : Option ServiceRecord) (n : ℕ) (t : Table) : Type 0 where
  pub actions : List RecordCrud
  pub service : ServiceRecord
  pub count : ℕ
  pub after : Table
  pub turned : compare_service h k o d n ≡ turn actions service count
  pub accepted : any_bad actions ≡ false
  pub applied : crud_all db actions t ≡ (none, after)
  pub counted : n ≤ count
  pub shown : Shows o d (view db h.minion_uid k after)
  pub others : (j : Bytes) → j ≢ k → view db h.minion_uid j after ≡ view db h.minion_uid j t
  pub ready : IsReady h count after
  pub unique :
      IsDistinct bytes_eq (listed_names db h.minion_uid t)
      → IsDistinct bytes_eq (listed_names db h.minion_uid after)
  pub inserted :
      d ≡ none
      → (service.uid ≡ random_uid h n) × (n < count) × (view db h.minion_uid k after ≡ some service)

module _ (h : Host) (db : Database) (ok : IsHealthy db) where
  module _ (k : Bytes) (r : ServiceRecord) (j : UnitJson) (t : Table) where
    abbrev pub update_of : Table
    update_of = set_json r.uid (db.to_json (some j)) t

    pub update_applied : crud_all db (update_record r j ∷ []) t ≡ (none, update_of)
    unfolding crud_all update_service
    update_applied = rw (ok.updates r.uid (db.to_json (some j))) refl

    pub update-view :
        view db h.minion_uid k t ≡ some r
        → view db h.minion_uid k update_of ≡ some (record r { unit_json = some j })
    update-view e =
        rw
          (
            view-set_json db h.minion_uid r.uid (db.to_json (some j)) k t,
            e,
            (bytes_eq_iff r.uid r.uid).1 refl,
            ok.reads_back j,
          )
          refl

    pub update_others :
        (n : ℕ)
        → IsReady h n t
        → view db h.minion_uid k t ≡ some r
        → (i : Bytes) → i ≢ k
        → view db h.minion_uid i update_of ≡ view db h.minion_uid i t
    update_others n w e i ne = elim (Option-cases (view db h.minion_uid i t)) [
      | inl a ↦ rw (view-set_json db h.minion_uid r.uid (db.to_json (some j)) i t, a) refl
      | inr (q, a) ↦
          let differ : bytes_eq q.uid r.uid ≡ false = elim (Bool-cases (bytes_eq q.uid r.uid)) [
            | inl b ↦ absurd (
                ne (
                  view-uid db h.minion_uid i k t q r w.distinct a e
                    ((bytes_eq_iff q.uid r.uid).0 b)))
            | inr b ↦ b
          ] in
          rw (view-set_json db h.minion_uid r.uid (db.to_json (some j)) i t, a, differ) refl
    ]

    pub update-IsReady : (n : ℕ) → IsReady h n t → IsReady h n update_of
    update-IsReady n w = record {
      distinct = rw (uids-set_json r.uid (db.to_json (some j)) t) w.distinct;
      fresh = λ i le.
          has_uid-member (random_uid h i) update_of
          ∙ (rw (uids-set_json r.uid (db.to_json (some j)) t)
              (sym (has_uid-member (random_uid h i) t) ∙ w.fresh i le));
    }

    pub update_unique :
        IsDistinct bytes_eq (listed_names db h.minion_uid t)
        → IsDistinct bytes_eq (listed_names db h.minion_uid update_of)
    update_unique = set_json_unique db h.minion_uid r.uid (db.to_json (some j)) t
