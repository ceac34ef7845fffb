-- ===== src/Launchy/Insertion.antt =====
-- A new record that RunServiceSlurpLoopOnce of launchy/agent.go sends, in the table of nefario/nefario.go.
use godev.Prelude.{
  ℕ, ◌+◌, [], ◌∷◌, ◌++◌, none, some, Bytes, bytes_eq, bytes_eq_iff, ◌≡◌, ◌≢◌, ◌∙◌, refl, sym, inl,
  inr, Bool-cases, arith,
}
use godev.Nefario.Crud.{RecordCrud, insert, Table, Database, insert_service, crud_all, row_of}
use godev.Launchy.Slurp.{Host, SystemdUnit, random_uid, new_record, to_service_unit_json}
use godev.Launchy.Views.{view, view-append, uids, has_uid-member}
use godev.Launchy.Turns.{IsHealthy, IsReady, has_uid-append, uids-append}
use godev.Launchy.Distinct.{append-IsDistinct}
use godev.Launchy.Listing.{listed_names, append_unique}
use godev.Slices.Dupes.{IsDistinct}

module _ (h : Host) (db : Database) (ok : IsHealthy db) (k : Bytes) (u : SystemdUnit) (n : ℕ)
    (t : Table) (w : IsReady h n t) where
  abbrev pub added : Table
  added = t ++ row_of db (new_record h k u n) ∷ []

  abbrev pub insert_record : RecordCrud
  insert_record = record { action = insert; record_of = some (new_record h k u n) }

  pub insert_applied : crud_all db (insert_record ∷ []) t ≡ (none, added)
  unfolding crud_all insert_service
  insert_applied = rw (w.fresh n (omega arith), ok.inserts (row_of db (new_record h k u n))) refl

  pub insert-view : view db h.minion_uid k added ≡ some (new_record h k u n)
  insert-view =
      rw
        (
          view-append db h.minion_uid k t (row_of db (new_record h k u n)),
          (bytes_eq_iff h.minion_uid h.minion_uid).1 refl,
          (bytes_eq_iff k k).1 refl,
          ok.reads_back (to_service_unit_json u),
        )
        refl

  pub insert_others : (i : Bytes) → i ≢ k → view db h.minion_uid i added ≡ view db h.minion_uid i t
  insert_others i ne = elim (Bool-cases (bytes_eq k i)) [
    | inl e ↦ absurd (ne (sym ((bytes_eq_iff k i).0 e)))
    | inr e ↦
        rw
          (
            view-append db h.minion_uid i t (row_of db (new_record h k u n)),
            (bytes_eq_iff h.minion_uid h.minion_uid).1 refl,
            e,
          )
          refl
  ]

  pub insert_unique :
      view db h.minion_uid k t ≡ none
      → IsDistinct bytes_eq (listed_names db h.minion_uid t)
      → IsDistinct bytes_eq (listed_names db h.minion_uid added)
  insert_unique new =
      append_unique db h.minion_uid t (row_of db (new_record h k u n))
        ((bytes_eq_iff h.minion_uid h.minion_uid).1 refl) new

  pub insert-IsReady :
      ((i j : ℕ) → random_uid h i ≡ random_uid h j → i ≡ j) → IsReady h (n + 1) added
  insert-IsReady injective = record {
    distinct = rw (uids-append t (row_of db (new_record h k u n))) (
        append-IsDistinct (uids t) (random_uid h n) w.distinct
          (sym (has_uid-member (random_uid h n) t) ∙ w.fresh n (omega arith)));
    fresh = λ i le.
        rw
          (
            has_uid-append (random_uid h i) t (row_of db (new_record h k u n)),
            w.fresh i (omega arith),
          )
          (elim (Bool-cases (bytes_eq (random_uid h n) (random_uid h i))) [
            | inl e ↦
                let f : n ≡ i =
                  injective n i ((bytes_eq_iff (random_uid h n) (random_uid h i)).0 e) in
                absurd (omega arith)
            | inr e ↦ e
          ]);
  }
