-- ===== src/Launchy/Fleet.antt =====
-- A pass of launchy/agent.go together with nefario/nefario.go: the records that the agent reads and
-- the actions that it sends. The broker between them either carries a call and its answer, or loses
-- the request or the answer, which the caller sees as an error. That an answer reaches the caller needs
-- an inbox that finds the caller's correlation, which that of hermes/mailbox.go does not: a pass whose
-- calls are `carried` is one as the protocol means it.
use godev.Prelude.{List, [], ◌∷◌, Option, none, some}
use godev.Nefario.Crud.{
  ServiceRecord, Table, Database, Written, systemd_service_crud, list_systemd_services,
}
use godev.Launchy.Slurp.{Host, Agent, CommandOutput, Slurped, panicked, slurped, slurp}

-- What the broker does with a call.
pub data Carried : Type 0 where
  carried request_lost answer_lost : Carried

pub data Ended : Type 0 where
  done list_failed crud_failed panic : Ended

-- What a pass leaves.
pub record Passed : Type 0 where
  pub ended : Ended
  pub agent : Agent
  pub table : Table

module _ (db : Database) where
  abbrev pub sent : Agent → Carried → Written → Table → Passed
  sent a carried (none, t) before = record { ended = done; agent = a; table = t }
  sent a carried (some e, t) before = record { ended = crud_failed; agent = a; table = t }
  sent a request_lost w before = record { ended = crud_failed; agent = a; table = before }
  sent a answer_lost (e, t) before = record { ended = crud_failed; agent = a; table = t }

  -- `NefarioSystemdServiceRecordCrud`, which is called if there is an action.
  abbrev pub send_actions : Carried → Table → Agent → Slurped → Passed
  send_actions way t a panicked = record { ended = panic; agent = a; table = t }
  send_actions way t a (slurped b []) = record { ended = done; agent = b; table = t }
  send_actions way t a (slurped b (c ∷ cs)) = sent b way (systemd_service_crud db (c ∷ cs) t) t

  abbrev pub with_listing :
      Host → CommandOutput → Carried → Table → Agent → Option (List ServiceRecord) → Passed
  with_listing h c way t a none = record { ended = list_failed; agent = a; table = t }
  with_listing h c way t a (some rs) = send_actions way t a (slurp h c rs a)

  abbrev pub listing_of : Host → Carried → Table → Option (List ServiceRecord)
  listing_of h carried t = list_systemd_services db h.minion_uid t
  listing_of h request_lost t = none
  listing_of h answer_lost t = none

  -- `RunServiceSlurpLoopOnce`
  unfoldable pub run_service_slurp_loop_once :
      Host → CommandOutput → Carried → Carried → Agent → Table → Passed
  run_service_slurp_loop_once h c list_way crud_way a t =
      with_listing h c crud_way t a (listing_of h list_way t)
