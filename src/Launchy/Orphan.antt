-- ===== src/Launchy/Orphan.antt =====
-- RunServiceSlurpLoopOnce of launchy/agent.go where its request to the server is lost: the map
-- ServicesByName is filled before the request is sent.
use godev.Prelude.{
  true, List, [], ◌∷◌, none, some, Bytes, bytes_eq, get, ◌≡◌, ◌≢◌, ◌∙◌, refl, sym, ap, arith,
}
use godev.Slices.{member}
use godev.Nefario.Crud.{
  ServiceRecord, RecordCrud, Table, Database, crud_all, list_systemd_services, Written,
}
use godev.Launchy.Slurp.{
  Host, Agent, SystemdUnit, CommandOutput, ServiceDto, dto_of, slurped, slurp, all_keys,
  actual_by_name, in_db_by_name,
}
use godev.Launchy.Fleet.{
  done, crud_failed, carried, request_lost, send_actions, run_service_slurp_loop_once,
}
use godev.Launchy.Keys.{
  GivesKeys, unit_shown, listed, listed-view, unit-get, member-all_keys, member-names_in,
  pass-Slurps,
}
use godev.Launchy.Views.{view}
use godev.Launchy.Turns.{IsHealthy, IsReady}
use godev.Launchy.Handles.{IsSound}
use godev.Launchy.Converge.{Slurps}
use godev.Launchy.Passing.{run_carried}

module _ (h : Host) (db : Database) (c : CommandOutput) (a : Agent) (t : Table) where
  -- The name of a unit is among the keys.
  unit-all_keys :
      GivesKeys h
      → (k : Bytes) (u : SystemdUnit) → unit_shown h c k ≡ some u
      → member bytes_eq k (all_keys h c (listed h db t)) ≡ true
  unit-all_keys keys k u e =
      let here : get k (actual_by_name h c) ≢ none =
        λ f. let g : some u ≡ none = sym e ∙ unit-get h db c a t k ∙ f in absurd (cc) in
      rw (member-all_keys h keys c (listed h db t) k, member-names_in k (actual_by_name h c) here)
        refl

  send_lost :
      (b : Agent) (cs : List RecordCrud) (u : Table)
      → crud_all db cs t ≡ (none, u)
      → t ≢ u
      → send_actions db request_lost t a (slurped b cs)
        ≡ record { ended = crud_failed; agent = b; table = t }
  unfolding crud_all
  send_lost b [] u applied ne = absurd (ne (ap (λ (w : Written). w.1) applied))
  send_lost b (x ∷ cs) u applied ne = refl

  run_lost :
      IsHealthy db
      → (s : Slurps h db
          (actual_by_name h c)
          (in_db_by_name (listed h db t))
          (all_keys h c (listed h db t))
          a
          t)
      → t ≢ s.after
      → run_service_slurp_loop_once db h c carried request_lost a t
        ≡ record { ended = crud_failed; agent = s.agent; table = t }
  unfolding run_service_slurp_loop_once slurp list_systemd_services
  run_lost ok s ne =
      rw (ok.lists h.minion_uid, s.slurps) (send_lost s.agent s.actions s.after s.applied ne)

-- A unit that neither the server nor the agent's map knows, and a pass whose request to the server is
-- lost: the pass gives an error, and the next one, which goes well, gives no error and makes the
-- record, but the agent's map keeps for it the uid that the lost request had, which is another.
pub run_service_slurp_loop_once-orphan :
    (h : Host) (db : Database) (c : CommandOutput) (a : Agent) (t : Table) (k : Bytes)
    (u : SystemdUnit)
    → IsSound h
    → GivesKeys h
    → IsHealthy db
    → IsReady h a.uuids t
    → unit_shown h c k ≡ some u
    → view db h.minion_uid k t ≡ none
    → get k a.services_by_name ≡ none
    → (let p = run_service_slurp_loop_once db h c carried request_lost a t in
        let q = run_service_slurp_loop_once db h c carried carried p.agent p.table in
        (p.ended ≡ crud_failed)
        × (q.ended ≡ done)
        × (r : ServiceRecord) × (d : ServiceDto) × (view db h.minion_uid k q.table ≡ some r)
        × (get k q.agent.services_by_name ≡ some d)
        × (d.dto_uid ≢ r.uid))
run_service_slurp_loop_once-orphan h db c a t k u sound keys ok w shows new uncached =
    let s = pass-Slurps h db c a t sound keys ok w in
    let m = unit-all_keys h db c a t keys k u shows in
    let absent : get k (in_db_by_name (listed h db t)) ≡ none =
      sym (listed-view h db c a t k) ∙ new in
    let (n, r, above, below, uid, viewed, cached) = s.inserted k m absent in
    let later : IsReady h s.agent.uuids t = record {
      distinct = w.distinct;
      fresh = λ i le. w.fresh i (omega (arith, s.counted));
    } in
    let s' = pass-Slurps h db c s.agent t sound keys ok later in
    let (n', r', above', below', uid', viewed', _) = s'.inserted k m absent in
    let changed : t ≢ s.after = λ e.
      let f : none ≡ some r = sym new ∙ ap (view db h.minion_uid k) e ∙ viewed in absurd (cc) in
    rw (run_lost h db c a t ok s changed, run_carried h db c s.agent t ok s')
      (
        refl,
        refl,
        r',
        dto_of r,
        viewed',
        s'.kept_cache k (dto_of r) (cached uncached),
        λ e. let f : n ≡ n' = sound.injective n n' (sym uid ∙ e ∙ uid') in absurd (omega arith),
      )
