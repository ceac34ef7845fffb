-- ===== src/Wal/Listener.antt =====
-- wal-listener/listener/listener.go: the listener's state, what it does to its collaborators, and its
-- operations. A collaborator's answer may depend on all that happened before.
use godev.Prelude.{
  ℕ, ◌+◌, Bool, true, false, List, [], ◌∷◌, Option, none, some, Bytes, ltb, ◌==◌, if◌then◌else◌,
  length,
}
use godev.Wal.Outcome.{Outcome, ok, err, panic, publish_failed, status_not_built, status_not_sent}
use godev.Wal.Protocol.{Time}
use godev.Wal.Word.{ByteOrder}
use godev.Wal.Transaction.{Value, Decoders, WalTransaction, clear}
use godev.Wal.Parser.{parse_wal_message}
use godev.Wal.Event.{Event, subject_name, create_events}

pub data Problem : Type 0 where
  parse_problem publish_problem ack_problem : Problem

-- What the listener does to its collaborators, with the answer where there is one. The reports of the
-- periodic heartbeats (`beat_status`) are told apart from those of the stream.
pub data Action (J : Type 0) : Type 0 where
  publish : Bytes → Event J → Bool → Action J
  send_status beat_status : ℕ → Bool → Action J
  inc_published : Bytes → Bytes → Action J
  inc_skipped : Bytes → Action J
  inc_problematic : Problem → Action J

-- The parts of the configuration that are read, and the collaborators: the publisher, the repository
-- (`pgx.NewStandbyStatus`), the replicator and `uuid.New`. Each is asked with the actions so far,
-- the latest first.
pub record Setup (J : Type 0) : Type 0 where
  pub order : ByteOrder
  pub topic : Bytes
  pub tables : List (Bytes × List Bytes)
  pub decoders : Decoders J
  pub lower_format : Value J → Bytes
  pub new_uuid : ℕ → Bytes
  pub publish_ok : List (Action J) → Bytes → Event J → Bool
  pub status_built : List (Action J) → ℕ → Bool
  pub status_ok : List (Action J) → ℕ → Bool

-- `lsn` is the field of `Listener` under the mutex, `tx` the transaction of `Stream`, `uuids` the
-- number of calls of `uuid.New`.
pub record State (J : Type 0) : Type 0 where
  pub lsn : ℕ
  pub tx : WalTransaction J
  pub uuids : ℕ
  pub trace : List (Action J)

-- An operation gives its outcome and the state that it leaves behind.
abbrev pub Op : Type 0 → Type 0
Op J = State J → Outcome (Unit {0}) × State J

abbrev pub emit : {J : Type 0} → Action J → State J → State J
emit a s = record s { trace = a ∷ s.trace }

-- Runs the second operation if the first one succeeds.
abbrev pub after : {J : Type 0} → Outcome (Unit {0}) × State J → Op J → Outcome (Unit {0}) × State J
after (ok u, s) k = k s
after (err e, s) k = (err e, s)
after (panic p, s) k = (panic p, s)

-- Runs a handler on an error.
abbrev pub on_error :
    {J : Type 0} → Outcome (Unit {0}) × State J → (State J → State J) → Outcome (Unit {0}) × State J
on_error (ok u, s) h = (ok u, s)
on_error (err e, s) h = (err e, h s)
on_error (panic p, s) h = (panic p, s)

pub record WalMessage : Type 0 where
  pub wal_start : ℕ
  pub wal_data : Bytes

pub record ServerHeartbeat : Type 0 where
  pub server_wal_end : ℕ
  pub server_time : ℕ
  pub reply_requested : ℕ

-- `pgx.ReplicationMessage`, with `none` for nil.
pub record ReplicationMessage : Type 0 where
  pub wal_message : Option WalMessage
  pub server_heartbeat : Option ServerHeartbeat

abbrev pub set_lsn : {J : Type 0} → ℕ → State J → State J
set_lsn lsn s = record s { lsn = lsn }

abbrev pub count_skipped : {J : Type 0} → List Bytes → List (Action J) → List (Action J)
count_skipped [] trace = trace
count_skipped (t ∷ ts) trace = count_skipped ts (inc_skipped t ∷ trace)

abbrev pub clear_tx : {J : Type 0} → Op J
clear_tx s = (ok tt, record s { tx = clear s.tx })

abbrev pub with_tx : {J : Type 0} → Outcome (Unit {0}) × WalTransaction J → Op J
with_tx (r, tx) s = (r, record s { tx = tx })

module _ {J : Type 0} (e : Setup J) where
  -- `SendStandbyStatus` from where it has read the position.
  abbrev pub report_position : (ℕ → Bool → Action J) → ℕ → Op J
  report_position tag lsn s =
      if e.status_built s.trace lsn
      then (if e.status_ok s.trace lsn
          then (ok tt, emit (tag lsn true) s)
          else (err status_not_sent, emit (tag lsn false) s))
      else (err status_not_built, s)

  unfoldable pub send_standby_status : Op J
  send_standby_status s = report_position send_status s.lsn s

  unfoldable pub ack_wal_message : ℕ → Op J
  ack_wal_message lsn s = send_standby_status (set_lsn lsn s)

  -- The loop over the events of a transaction.
  unfoldable pub publish_events : List (Event J) → Op J
  publish_events [] s = (ok tt, s)
  publish_events (event ∷ events) s =
      let subject = subject_name e.lower_format e.topic event in
      let answer = e.publish_ok s.trace subject event in
      let asked = emit (publish subject event answer) s in
      let rest = publish_events events (emit (inc_published subject event.table) asked) in
      if answer then rest else (err publish_failed, emit (inc_problematic publish_problem) asked)

  -- `CreateEventsWithFilter` draws an identifier and counts a skipped table as it goes.
  abbrev pub publish_created : Outcome (List (Event J) × List Bytes) → Op J
  publish_created (ok (events, skipped)) s =
      publish_events events
        (record s { uuids = s.uuids + length s.tx.actions; trace = count_skipped skipped s.trace })
  publish_created (err x) s = (err x, s)
  publish_created (panic p) s = (panic p, s)

  -- `if tx.CommitTime != nil { … }`
  unfoldable pub publish_commit : Option Time → Op J
  publish_commit none s = (ok tt, s)
  publish_commit (some t) s =
      after (publish_created (create_events e.new_uuid e.tables (some t) s.uuids s.tx.actions) s)
        clear_tx

  unfoldable pub ack_if_newer : ℕ → Op J
  ack_if_newer wal_start s =
      if ltb s.lsn wal_start
      then on_error (ack_wal_message wal_start s) (emit (inc_problematic ack_problem))
      else (ok tt, s)

  unfoldable pub parse_into : Bytes → Op J
  parse_into bytes s =
      on_error (with_tx (parse_wal_message e.decoders e.order bytes s.tx) s)
        (emit (inc_problematic parse_problem))

  unfoldable pub process_wal_message : WalMessage → Op J
  process_wal_message m s =
      after (after (parse_into m.wal_data s) (λ s'. publish_commit s'.tx.commit_time s'))
        (ack_if_newer m.wal_start)

  abbrev pub process_message_of : Option WalMessage → Op J
  process_message_of none s = (ok tt, s)
  process_message_of (some m) s = process_wal_message m s

  unfoldable pub process_message : ReplicationMessage → Op J
  process_message msg s = process_message_of msg.wal_message s

  -- An error of `SendStandbyStatus` is logged and dropped.
  abbrev pub heart_beat_of : Option ServerHeartbeat → State J → State J
  heart_beat_of none s = s
  heart_beat_of (some h) s = if h.reply_requested == 1 then (send_standby_status s).1 else s

  unfoldable pub process_heart_beat : ReplicationMessage → State J → State J
  process_heart_beat msg s = heart_beat_of msg.server_heartbeat s
