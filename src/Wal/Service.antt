-- ===== src/Wal/Service.antt =====
-- The loop and the start of wal-listener/listener/listener.go: `Stream`, `slotIsExists`, `Process` up to
-- the two goroutines, `checkConnection`, `Stop`, and the steps that the goroutines interleave.
use godev.Prelude.{ℕ, Bool, true, false, List, [], ◌∷◌, Option, none, some, Bytes, if◌then◌else◌}
use godev.Wal.Outcome.{
  Outcome, ok, err, panic, bind, wait_failed, slot_not_read, slot_not_created, bad_lsn,
  start_failed, repl_connection_is_lost, connection_is_lost, repository_not_closed,
  replicator_not_closed,
}
use godev.Wal.Transaction.{new_wal_transaction}
use godev.Wal.Listener.{
  Setup, State, ReplicationMessage, beat_status, report_position, process_message,
  process_heart_beat,
}

-- What a round of `Stream` meets: a cancelled context, or an answer of `WaitForReplicationMessage`.
pub data Wait : Type 0 where
  cancelled failed empty : Wait
  message : ReplicationMessage → Wait

-- How `Stream` goes on: another round, or the outcome with which it returns.
pub data Round : Type 0 where
  again : Round
  returns : Outcome (Unit {0}) → Round

module _ {J : Type 0} (e : Setup J) where
  -- An error of `processMessage` is logged and dropped; a panic ends the process.
  abbrev pub heart_beat_after : ReplicationMessage → Outcome (Unit {0}) × State J → Round × State J
  heart_beat_after msg (ok u, s) = (again, process_heart_beat e msg s)
  heart_beat_after msg (err x, s) = (again, process_heart_beat e msg s)
  heart_beat_after msg (panic p, s) = (returns (panic p), s)

  unfoldable pub stream_round : Wait → State J → Round × State J
  stream_round cancelled s = (returns (ok tt), s)
  stream_round failed s = (returns (err wait_failed), s)
  stream_round empty s = (again, s)
  stream_round (message msg) s = heart_beat_after msg (process_message e msg s)

  -- The rounds that the given waits allow.
  unfoldable pub stream_loop : List Wait → State J → Round × State J
  stream_loop [] s = (again, s)
  stream_loop (w ∷ ws) s =
      let (r, s') = stream_round w s in
      elim r [ again ↦ stream_loop ws s' | returns x ↦ (returns x, s') ]

  -- `Stream`, by whether `StartReplication` succeeds.
  unfoldable pub stream : Bool → List Wait → State J → Round × State J
  stream false ws s = (returns (err start_failed), s)
  stream true ws s = stream_loop ws (record s { tx = new_wal_transaction })

-- `slotIsExists`: the answer of `GetSlotLSN` (`none` for an error), and `pgx.ParseLSN`. The result is
-- the LSN that is set, if the slot exists.
unfoldable pub slot_is_exists : (Bytes → Option ℕ) → Option Bytes → Outcome (Option ℕ)
slot_is_exists parse_lsn none = err slot_not_read
slot_is_exists parse_lsn (some []) = ok none
slot_is_exists parse_lsn (some (c ∷ cs)) = elim (parse_lsn (c ∷ cs)) [
  | none ↦ err bad_lsn
  | some lsn ↦ ok (some lsn)
]

abbrev pub created_lsn : (Bytes → Option ℕ) → Option Bytes → Outcome ℕ
created_lsn parse_lsn none = err slot_not_created
created_lsn parse_lsn (some point) = elim (parse_lsn point) [
  | none ↦ err bad_lsn
  | some lsn ↦ ok lsn
]

abbrev pub start_from : (Bytes → Option ℕ) → Option Bytes → Option ℕ → Outcome ℕ
start_from parse_lsn created (some lsn) = ok lsn
start_from parse_lsn created none = created_lsn parse_lsn created

-- `Process` before it starts its goroutines: the LSN that the listener begins with. `created` is the
-- answer of `CreateReplicationSlotEx`, which is asked only if there is no slot.
unfoldable pub process_start : (Bytes → Option ℕ) → Option Bytes → Option Bytes → Outcome ℕ
process_start parse_lsn slot created =
    bind (slot_is_exists parse_lsn slot) (start_from parse_lsn created)

-- A tick of `checkConnection`, by the two `IsAlive`.
unfoldable pub check_connection : Bool → Bool → Outcome (Unit {0})
check_connection replicator repository =
    if replicator
    then (if repository then ok tt else err connection_is_lost)
    else err repl_connection_is_lost

-- `Stop`, by whether the two `Close` succeed.
unfoldable pub stop : Bool → Bool → Outcome (Unit {0})
stop repository replicator =
    if repository
    then (if replicator then ok tt else err replicator_not_closed)
    else err repository_not_closed

-- The listener with the position that a heartbeat has read and not yet reported.
abbrev pub Shared : Type 0 → Type 0
Shared J = State J × Option ℕ

-- The goroutines: a round of `Stream`; or a tick of `SendPeriodicHeartbeats`, which drops the error. A
-- heartbeat reads the position under the lock and reports it after it has released the lock.
pub data Step {J : Type 0} (e : Setup J) : Shared J → Shared J → Type 0 where
  streams : (w : Wait) (s : State J) (p : Option ℕ) → Step e (s, p) ((stream_round e w s).1, p)
  reads : (s : State J) → Step e (s, none) (s, some s.lsn)
  reports : (s : State J) (l : ℕ) → Step e (s, some l) ((report_position e beat_status l s).1, none)

pub data Reach {J : Type 0} (e : Setup J) (s : Shared J) : Shared J → Type 0 where
  here : Reach e s s
  moves : {t u : Shared J} → Reach e s t → Step e t u → Reach e s u
