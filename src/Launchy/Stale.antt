-- ===== src/Launchy/Stale.antt =====
-- RunServiceSlurpLoopOnce of launchy/agent.go where systemctl fails, and where the request to the server is
-- lost.
use mathlib.Core.Path.{subst}
use godev.Prelude.{
  All, sym, bytes_eq, false, List, [], Option, none, some, Bytes, ◌≡◌, ◌≢◌, ◌∙◌, refl, ap, inl, inr,
  arith, ◌⊎◌, if◌then◌else◌, last_with,
}
use godev.Nefario.Crud.{UnitJson, ServiceRecord, Table, Database, records}
use godev.Launchy.Slurp.{
  Host, Agent, SystemdUnit, CommandOutput, rpc_systemctl_list, list_response, not_showing,
}
use godev.Launchy.Fleet.{done, carried, run_service_slurp_loop_once}
use godev.Launchy.Keys.{GivesKeys, unit_shown}
use godev.Launchy.Views.{view}
use godev.Launchy.Listing.{Listed, listed_names, Listed-view, view-Listed, All-Listed}
use godev.Slices.Dupes.{IsDistinct}
use godev.Launchy.Turns.{IsHealthy, IsReady, Shows}
use godev.Launchy.Handles.{IsSound}
use godev.Launchy.Passing.{run_service_slurp_loop_once-Shows}

no_services :
    (h : Host) (out : Bytes) (failure : Option Bytes) (items : Option (List SystemdUnit))
    → (failure ≢ none) ⊎ (items ≡ none)
    → (list_response h out failure items).services ≡ []
no_services h out (some e) items bad = refl
no_services h out none none bad = refl
no_services h out none (some items) (inl bad) = absurd (bad refl)
no_services h out none (some items) (inr bad) = absurd (cc)

no_units :
    (h : Host) (c : CommandOutput)
    → (c.failure ≢ none) ⊎ (h.parse_output c.output ≡ none)
    → (k : Bytes) → unit_shown h c k ≡ none
unfolding last_with rpc_systemctl_list
no_units h c bad k =
    ap (λ us. last_with (λ (u : SystemdUnit). u.unit) k us)
      (no_services h c.output c.failure (h.parse_output c.output) bad)

missing_shown :
    (d e : Option ServiceRecord) (r : ServiceRecord)
    → Shows none d e
    → d ≡ some r
    → (j : UnitJson) × (e ≡ some (record r { unit_json = some j })) × (j.unit_exists ≡ false)
missing_shown none e r x h = absurd (cc)
missing_shown (some q) e r (j, state, now) h =
    let same : q ≡ r = cc in
    (
      if j.unit_exists then not_showing j else j,
      now
          ∙ ap
              (λ (x : ServiceRecord).
                some (record x { unit_json = some (if j.unit_exists then not_showing j else j) }))
              same,
      ground arith,
    )

-- A record says that its unit does not exist.
abbrev pub Gone : ServiceRecord → Type 0
Gone r = (j : UnitJson) × (r.unit_json ≡ some j) × (j.unit_exists ≡ false)

missing-Gone :
    (d e : Option ServiceRecord) (q : ServiceRecord) → Shows none d e → e ≡ some q → Gone q
missing-Gone none e q x h = absurd (cc)
missing-Gone (some r) e q x h =
    let (j, now, gone) = missing_shown (some r) e r x refl in
    let same : record r { unit_json = some j } ≡ q = some_same (sym now ∙ h) in
    (j, sym (ap (λ (z : ServiceRecord). z.unit_json) same), gone)
  where
    some_same : {x y : ServiceRecord} → some x ≡ some y → x ≡ y
    some_same f = cc

-- Where systemctl fails, or its output is not parsed, a pass whose calls and answers are carried and
-- whose statements the server takes gives no error, and every record that the server had for the
-- minion is still there, but says that its unit does not exist; so do all records that it then lists
-- for the minion. The table is one where no uid stands twice, nor a name among the minion's records,
-- and the uids to come are new.
pub run_service_slurp_loop_once-failed_command :
    (h : Host) (db : Database) (c : CommandOutput) (a : Agent) (t : Table) (r : ServiceRecord)
    → IsSound h
    → GivesKeys h
    → IsHealthy db
    → IsReady h a.uuids t
    → IsDistinct bytes_eq (listed_names db h.minion_uid t)
    → (c.failure ≢ none) ⊎ (h.parse_output c.output ≡ none)
    → Listed r (records db h.minion_uid t)
    → (let p = run_service_slurp_loop_once db h c carried carried a t in
        (p.ended ≡ done)
        × ((j : UnitJson) × Listed
              (record r { unit_json = some j })
              (records db h.minion_uid p.table)
            × (j.unit_exists ≡ false))
        × All Gone (records db h.minion_uid p.table))
run_service_slurp_loop_once-failed_command h db c a t r sound keys ok w one bad had =
    let (p, e, ended, d, _, shown, _) =
      run_service_slurp_loop_once-Shows h db c a t sound keys ok w one in
    let shown' : (k : Bytes)
        → Shows none (view db h.minion_uid k t) (view db h.minion_uid k p.table) =
      λ k.
        subst (λ o. Shows o (view db h.minion_uid k t) (view db h.minion_uid k p.table))
          (no_units h c bad k) (shown k) in
    let (j, now, gone) =
      missing_shown (view db h.minion_uid r.name t) (view db h.minion_uid r.name p.table) r
        (shown' r.name) (Listed-view db h.minion_uid t r one had) in
    rw e (
      ended,
      (j, view-Listed db h.minion_uid p.table r.name (record r { unit_json = some j }) now, gone),
      All-Listed Gone (records db h.minion_uid p.table) λ q l.
          missing-Gone (view db h.minion_uid q.name t) (view db h.minion_uid q.name p.table) q
            (shown' q.name) (Listed-view db h.minion_uid p.table q d l),
    )
