-- ===== src/Launchy/Passing.antt =====
-- RunServiceSlurpLoopOnce of launchy/agent.go with the server of nefario/nefario.go: what the records of
-- a minion are after a pass.
use mathlib.Core.Path.{subst}
use godev.Prelude.{
  All, ◌↔◌, false, List, [], ◌∷◌, Option, none, some, Bytes, bytes_eq, get, ◌≡◌, ◌∙◌, refl, sym, ap,
  inl, inr, Bool-cases, arith, if◌then◌else◌,
}
use godev.Slices.{member}
use godev.Nefario.Crud.{
  ServiceRecord, RecordCrud, Table, Database, records, crud_all, any_bad, systemd_service_crud,
  list_systemd_services, Written, UnitJson, UnitJson,
}
use godev.Launchy.Slurp.{
  Host, Agent, SystemdUnit, CommandOutput, slurped, slurp, all_keys, actual_by_name, in_db_by_name,
  to_service_unit_json, to_service_unit_json, not_showing,
}
use godev.Launchy.Fleet.{Passed, done, carried, run_service_slurp_loop_once, send_actions, sent}
use godev.Launchy.Keys.{
  GivesKeys, unit_shown, listed, pass-Slurps, listed-view, unit-get, member-all_keys,
  names_in_absent,
}
use godev.Launchy.Views.{view}
use godev.Launchy.Listing.{Listed, listed_names, Listed-view, view-Listed, All-Listed-view}
use godev.Slices.Dupes.{IsDistinct}
use godev.Launchy.Turns.{IsHealthy, IsReady, Shows}
use godev.Launchy.Handles.{IsSound}
use godev.Launchy.Converge.{Slurps}

module _ (h : Host) (db : Database) (c : CommandOutput) (a : Agent) (t : Table) where
  pub send_all :
      (b : Agent) (cs : List RecordCrud) (u : Table)
      → any_bad cs ≡ false
      → crud_all db cs t ≡ (none, u)
      → send_actions db carried t a (slurped b cs) ≡ record { ended = done; agent = b; table = u }
  unfolding crud_all systemd_service_crud
  send_all b [] u good applied =
      ap (λ (w : Written). record { ended = done; agent = b; table = w.1 }) applied
  send_all b (x ∷ cs) u good applied = rw (good) (ap (λ w. sent db b carried w t) applied)

  -- What a name shows after the pass.
  pub shown_after :
      (s : Slurps h db
        (actual_by_name h c)
        (in_db_by_name (listed h db t))
        (all_keys h c (listed h db t))
        a
        t)
      → GivesKeys h
      → (k : Bytes)
      → Shows (unit_shown h c k) (view db h.minion_uid k t) (view db h.minion_uid k s.after)
  shown_after s keys k =
      rw (unit-get h db c a t k, listed-view h db c a t k)
        (elim (Bool-cases (member bytes_eq k (all_keys h c (listed h db t)))) [
          | inl m ↦ s.shown k m
          | inr m ↦
              let none_in = sym (member-all_keys h keys c (listed h db t) k) ∙ m in
              let no_unit : get k (actual_by_name h c) ≡ none =
                names_in_absent k (actual_by_name h c) (ground arith) in
              let no_record : get k (in_db_by_name (listed h db t)) ≡ none =
                names_in_absent k (in_db_by_name (listed h db t)) (ground arith) in
              rw (no_unit, no_record) (s.others k m ∙ listed-view h db c a t k ∙ no_record)
        ])

-- Bringing a record to the state that it shows leaves it.
settled_unit :
    (u : SystemdUnit) (d e : Option ServiceRecord)
    → Shows (some u) d e
    → (r : ServiceRecord) × (e ≡ some r) × (r.unit_json ≡ some (to_service_unit_json u))
settled_unit u (some r) e x = (record r { unit_json = some (to_service_unit_json u) }, x, refl)
settled_unit u none e x = x

marked : UnitJson → UnitJson
marked j = if j.unit_exists then not_showing j else j

marked_twice : (j : UnitJson) → marked (marked j) ≡ marked j
unfolding marked
marked_twice j = ground arith

Shows-stable :
    (o : Option SystemdUnit) (d e f : Option ServiceRecord) → Shows o d e → Shows o e f → f ≡ e
unfolding marked
Shows-stable (some u) d e f x y =
    let (r, now, state) = settled_unit u d e x in
    let again : f ≡ some (record r { unit_json = some (to_service_unit_json u) }) =
      subst (λ v. Shows (some u) v f) now y in
    again ∙ ap (λ (v : Option UnitJson). some (record r { unit_json = v })) (sym state) ∙ sym now
Shows-stable none none e f x y = subst (λ v. Shows none v f) x y ∙ sym x
Shows-stable none (some r) e f (j, _, now) y =
    let r' : ServiceRecord = record r { unit_json = some (marked j) } in
    let (i, state, again) = missing_record r' f (subst (λ v. Shows none v f) now y) in
    again
    ∙ ap (λ (v : UnitJson). some (record r { unit_json = some v }))
        (ap marked (some_injective i (marked j) state) ∙ marked_twice j)
    ∙ sym now
  where
    missing_record :
        (r' : ServiceRecord) (f : Option ServiceRecord)
        → Shows none (some r') f
        → (j : UnitJson) × (r'.unit_json ≡ some j)
          × (f ≡ some (record r' { unit_json = some (marked j) }))
    missing_record r' f y = y

    some_injective : (i k : UnitJson) → some k ≡ some i → i ≡ k
    some_injective i k h = cc

pub run_carried :
    (h : Host) (db : Database) (c : CommandOutput) (a : Agent) (t : Table)
    → IsHealthy db
    → (s : Slurps h db
        (actual_by_name h c)
        (in_db_by_name (listed h db t))
        (all_keys h c (listed h db t))
        a
        t)
    → run_service_slurp_loop_once db h c carried carried a t
      ≡ record { ended = done; agent = s.agent; table = s.after }
unfolding run_service_slurp_loop_once slurp list_systemd_services
run_carried h db c a t ok s =
    rw (ok.lists h.minion_uid, s.slurps)
      (send_all h db c a t s.agent s.actions s.after s.accepted s.applied)

-- A pass whose calls and answers are carried and whose statements the server takes, from any table
-- where no uid stands twice, nor a name among the minion's records, and the uids to come are new. It
-- ends without an error, and again no name stands twice: each record that the server lists is the one
-- that its name leads to. And every name shows what systemctl shows: the record that it had, with the
-- unit's state; a new record with that state; the record that it had, which now says that there is
-- no unit; or no record where neither side had the name. No uid stands twice in the table, and the
-- uids to come are still new.
pub run_service_slurp_loop_once-Shows :
    (h : Host) (db : Database) (c : CommandOutput) (a : Agent) (t : Table)
    → IsSound h
    → GivesKeys h
    → IsHealthy db
    → IsReady h a.uuids t
    → IsDistinct bytes_eq (listed_names db h.minion_uid t)
    → (p : Passed) × (run_service_slurp_loop_once db h c carried carried a t ≡ p)
      × (p.ended ≡ done)
      × IsDistinct bytes_eq (listed_names db h.minion_uid p.table)
      × All (λ r. view db h.minion_uid r.name p.table ≡ some r) (records db h.minion_uid p.table)
      × ((k : Bytes)
          → Shows (unit_shown h c k) (view db h.minion_uid k t) (view db h.minion_uid k p.table))
      × IsReady h p.agent.uuids p.table
run_service_slurp_loop_once-Shows h db c a t sound keys ok w one =
    let s = pass-Slurps h db c a t sound keys ok w in
    (
      record { ended = done; agent = s.agent; table = s.after },
      run_carried h db c a t ok s,
      refl,
      s.unique one,
      All-Listed-view db h.minion_uid s.after (s.unique one),
      shown_after h db c a t s keys,
      s.ready,
    )

-- Two passes on the same output of systemctl, whose calls and answers are carried and whose
-- statements the server takes, from any table where no uid stands twice, nor a name among the minion's
-- records, and the uids to come are new; the output may be any number of new units, updates and
-- missing units away from the table. The second one ends without an error, and after it the server
-- lists the very records for the minion that it listed before it, whole, none more and none less.
pub run_service_slurp_loop_once_twice :
    (h : Host) (db : Database) (c : CommandOutput) (a : Agent) (t : Table) (r : ServiceRecord)
    → IsSound h
    → GivesKeys h
    → IsHealthy db
    → IsReady h a.uuids t
    → IsDistinct bytes_eq (listed_names db h.minion_uid t)
    → (let p = run_service_slurp_loop_once db h c carried carried a t in
        let q = run_service_slurp_loop_once db h c carried carried p.agent p.table in
        (q.ended ≡ done)
        × (Listed r (records db h.minion_uid q.table) ↔ Listed r (records db h.minion_uid p.table)))
run_service_slurp_loop_once_twice h db c a t r sound keys ok w one =
    let (p, e, _, d, _, shown, ready) =
      run_service_slurp_loop_once-Shows h db c a t sound keys ok w one in
    let (q, f, ended, d', _, again, _) =
      run_service_slurp_loop_once-Shows h db c p.agent p.table sound keys ok ready d in
    let same = Shows-stable (unit_shown h c r.name) _ _ _ (shown r.name) (again r.name) in
    rw (e, f)
      (
        ended,
        (
          (λ l.
              view-Listed db h.minion_uid p.table r.name r
                (sym same ∙ Listed-view db h.minion_uid q.table r d' l)),
          (λ l.
              view-Listed db h.minion_uid q.table r.name r
                (same ∙ Listed-view db h.minion_uid p.table r d l)),
        ),
      )
