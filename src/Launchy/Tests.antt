-- ===== src/Launchy/Tests.antt =====
-- Tests of the pass of launchy/agent.go, and the theorems at a concrete machine and table.
use godev.Prelude.{
  All, ◌↔◌, bytes_eq, ℕ, none, some, Bytes, codes, ◌≡◌, ◌≢◌, ◌⊎◌, inl, refl, get, false,
}
use godev.Nefario.Crud.{UnitJson, ServiceRecord, records}
use godev.Launchy.Slurp.{ServiceDto}
use godev.Launchy.Fleet.{
  Passed, done, crud_failed, carried, request_lost, run_service_slurp_loop_once,
}
use godev.Launchy.Keys.{unit_shown}
use godev.Launchy.Views.{view}
use godev.Launchy.Listing.{Listed, listed_names}
use godev.Slices.Dupes.{IsDistinct}
use godev.Launchy.Turns.{IsReady, Shows}
use godev.Launchy.Passing.{run_service_slurp_loop_once-Shows, run_service_slurp_loop_once_twice}
use godev.Launchy.Stale.{Gone, run_service_slurp_loop_once-failed_command}
use godev.Launchy.Orphan.{run_service_slurp_loop_once-orphan}
use godev.Launchy.Fixtures.{
  machine, database, one_unit, broken_command, new_agent, one_row, alpha, machine-IsSound,
  machine-GivesKeys, database-IsHealthy, one_row-IsReady, one_row_names, beta,
}

abbrev first_pass : Passed
first_pass = run_service_slurp_loop_once database machine one_unit carried carried new_agent one_row

abbrev second_pass : Passed
second_pass =
    run_service_slurp_loop_once database machine one_unit carried carried first_pass.agent
      first_pass.table

abbrev broken_pass : Passed
broken_pass =
    run_service_slurp_loop_once database machine broken_command carried carried new_agent one_row

abbrev lost_pass : Passed
lost_pass =
    run_service_slurp_loop_once database machine one_unit carried request_lost new_agent one_row

abbrev next_pass : Passed
next_pass =
    run_service_slurp_loop_once database machine one_unit carried carried lost_pass.agent
      lost_pass.table

run_service_slurp_loop_once-Shows_example :
    (p : Passed) × (first_pass ≡ p)
    × (p.ended ≡ done)
    × IsDistinct bytes_eq (listed_names database machine.minion_uid p.table)
    × All
        (λ r. view database machine.minion_uid r.name p.table ≡ some r)
        (records database machine.minion_uid p.table)
    × ((k : Bytes)
        → Shows
            (unit_shown machine one_unit k)
            (view database machine.minion_uid k one_row)
            (view database machine.minion_uid k p.table))
    × IsReady machine p.agent.uuids p.table
run_service_slurp_loop_once-Shows_example =
    run_service_slurp_loop_once-Shows machine database one_unit new_agent one_row machine-IsSound
      machine-GivesKeys database-IsHealthy one_row-IsReady one_row_names

run_service_slurp_loop_once_twice_example :
    (second_pass.ended ≡ done)
    × (Listed beta (records database machine.minion_uid second_pass.table)
        ↔ Listed beta (records database machine.minion_uid first_pass.table))
run_service_slurp_loop_once_twice_example =
    run_service_slurp_loop_once_twice machine database one_unit new_agent one_row beta
      machine-IsSound machine-GivesKeys database-IsHealthy one_row-IsReady one_row_names

some_failure : broken_command.failure ≢ none
some_failure h = cc

beta-Listed : Listed beta (records database machine.minion_uid one_row)
unfolding Listed records bytes_eq
beta-Listed = inl refl

run_service_slurp_loop_once-failed_command_example :
    (broken_pass.ended ≡ done)
    × ((j : UnitJson) × Listed
          (record beta { unit_json = some j })
          (records database machine.minion_uid broken_pass.table)
        × (j.unit_exists ≡ false))
    × All Gone (records database machine.minion_uid broken_pass.table)
run_service_slurp_loop_once-failed_command_example =
    run_service_slurp_loop_once-failed_command machine database broken_command new_agent one_row
      beta machine-IsSound machine-GivesKeys database-IsHealthy one_row-IsReady one_row_names
      (inl some_failure) beta-Listed

alpha_shown : unit_shown machine one_unit (codes "alpha.service") ≡ some alpha
unfolding godev.Prelude.last_with godev.Launchy.Slurp.rpc_systemctl_list godev.Prelude.bytes_eq
alpha_shown = refl

alpha_new : view database machine.minion_uid (codes "alpha.service") one_row ≡ none
unfolding godev.Prelude.last_with godev.Nefario.Crud.records godev.Prelude.bytes_eq
alpha_new = refl

alpha_uncached : get (codes "alpha.service") new_agent.services_by_name ≡ none
unfolding get
alpha_uncached = refl

run_service_slurp_loop_once-orphan_example :
    (lost_pass.ended ≡ crud_failed)
    × (next_pass.ended ≡ done)
    × (r : ServiceRecord) × (d : ServiceDto) × (view database machine.minion_uid
          (codes "alpha.service")
          next_pass.table
        ≡ some r)
    × (get (codes "alpha.service") next_pass.agent.services_by_name ≡ some d)
    × (d.dto_uid ≢ r.uid)
run_service_slurp_loop_once-orphan_example =
    run_service_slurp_loop_once-orphan machine database one_unit new_agent one_row
      (codes "alpha.service") alpha machine-IsSound machine-GivesKeys database-IsHealthy
      one_row-IsReady alpha_shown alpha_new alpha_uncached
