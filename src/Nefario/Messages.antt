-- ===== src/Nefario/Messages.antt =====
-- nefario/nefario.go: runNefarioConsumer, which reads the messages of the programs that run processes
-- from a work queue and hands each to one of the operations of the service.
use godev.Prelude.{
  refl, false, ◌≢◌, Bool, true, List, [], ◌∷◌, map, Option, none, Bytes, codes, ◌≡◌, ◌⊎◌, inl, inr,
  All, ap, sym, ◌∙◌, some,
}
use godev.WorkQueue.{
  WorkQueueConfig, Msg, QueueRound, Server, Settlement, ack, QueueEnded, prepare, proto_by,
  run_proto_work_queue,
}
use godev.WorkQueue.Settles.{
  due, Justified, succeeded, task_failed, not_decoded, JustifiedAll, run_proto_work_queue-Settles,
}

-- `MessageFromLaunchy`: one of six requests, or none that the program knows.
pub data MessageFromLaunchy : Type 0 where
  process_started_request process_ping_request update_mailbox_request : Bytes → MessageFromLaunchy
  process_completed_request stream_write_request ping_request : Bytes → MessageFromLaunchy
  no_request : MessageFromLaunchy

-- The operations of `NefarioServiceImpl`, which tell whether there was no error.
pub record NefarioService (S : Type 0) : Type 1 where
  pub start_process : Bytes → S → Bool × S
  pub ping_process : Bytes → S → Bool × S
  pub change_mailbox : Bytes → S → Bool × S
  pub complete_process : Bytes → S → Bool × S
  pub write_stream : Bytes → S → Bool × S
  pub answer_ping : Bytes → S → Bool × S

-- The `WorkQueueConfig` of a consumer.
abbrev pub nefario_config : WorkQueueConfig
nefario_config = record {
  subject = codes "nefario-central";
  stream_name = codes "nefario-central";
  consumer_name = codes "nefario-central";
  create_stream = true;
  start_seq = [];
  batch_size = 0;
  assume_proto = true;
}

module _ {S : Type 0} (service : NefarioService S) where
  abbrev pub process_by : MessageFromLaunchy → S → Bool × S
  process_by (process_started_request r) s = service.start_process r s
  process_by (process_ping_request r) s = service.ping_process r s
  process_by (update_mailbox_request r) s = service.change_mailbox r s
  process_by (process_completed_request r) s = service.complete_process r s
  process_by (stream_write_request r) s = service.write_stream r s
  process_by (ping_request r) s = service.answer_ping r s
  process_by no_request s = (true, s)

  -- `processMessageFromLaunchy`: an error is logged, and nil is returned.
  abbrev pub process_message_from_launchy : MessageFromLaunchy → S → Bool × S
  process_message_from_launchy m s = (true, (process_by m s).1)

  abbrev pub run_nefario_consumer :
      (Bytes → Bool → Option MessageFromLaunchy)
      → Server
      → List QueueRound
      → S
      → List (Msg × Settlement) × (QueueEnded × S)
  run_nefario_consumer unmarshal_bytes v rounds s =
      run_proto_work_queue unmarshal_bytes process_message_from_launchy v nefario_config rounds s

true-false : true ≢ false
true-false e = cc

module _ {S : Type 0} (service : NefarioService S)
    (unmarshal_bytes : Bytes → Bool → Option MessageFromLaunchy) where
  -- The message is acknowledged, or it is not decoded.
  abbrev pub IsAcknowledged : Msg × Settlement → Type 0
  IsAcknowledged (msg, k) =
      (k ≡ ack) ⊎ (unmarshal_bytes msg.data_bytes (proto_by true msg.content_type) ≡ none)

  Justified-IsAcknowledged :
      (msg : Msg) (s : S) (k : Settlement) (t : S)
      → Justified unmarshal_bytes (process_message_from_launchy service) true msg s k t
      → IsAcknowledged (msg, k)
  Justified-IsAcknowledged msg s k t (succeeded a u e f) = inl refl
  Justified-IsAcknowledged msg s k t (task_failed a u e f) = absurd (true-false (ap (λ p. p.0) f))
  Justified-IsAcknowledged msg s k t (not_decoded e) = inr e

  All-IsAcknowledged :
      (out : List (Msg × Settlement)) (s t : S)
      → JustifiedAll unmarshal_bytes (process_message_from_launchy service) true out s t
      → All IsAcknowledged out
  All-IsAcknowledged [] s t h = tt
  All-IsAcknowledged ((msg, k) ∷ out) s t (u, j, h) =
      (Justified-IsAcknowledged msg s k u j, All-IsAcknowledged out u t h)

  -- What a due message does to the state: a decoded one is handed to the operation for its request,
  -- whose result is dropped, and one that is not decoded does nothing.
  abbrev handed : Option MessageFromLaunchy → S → S
  handed none s = s
  handed (some m) s = (process_by service m s).1

  abbrev pub handed_all : List Msg → S → S
  handed_all [] s = s
  handed_all (msg ∷ msgs) s =
      handed_all msgs (handed (unmarshal_bytes msg.data_bytes (proto_by true msg.content_type)) s)

  Justified-handed :
      (msg : Msg) (s : S) (k : Settlement) (t : S)
      → Justified unmarshal_bytes (process_message_from_launchy service) true msg s k t
      → handed (unmarshal_bytes msg.data_bytes (proto_by true msg.content_type)) s ≡ t
  Justified-handed msg s k t (succeeded a u e f) =
      ap (λ o. handed o s) e ∙ ap (λ (p : Bool × S). p.1) f
  Justified-handed msg s k t (task_failed a u e f) = absurd (true-false (ap (λ p. p.0) f))
  Justified-handed msg s k t (not_decoded e) = ap (λ o. handed o s) e

  JustifiedAll-handed_all :
      (out : List (Msg × Settlement)) (s t : S)
      → JustifiedAll unmarshal_bytes (process_message_from_launchy service) true out s t
      → handed_all (map (λ (p : Msg × Settlement). p.0) out) s ≡ t
  JustifiedAll-handed_all [] s t h = h
  JustifiedAll-handed_all ((msg, k) ∷ out) s t (u, j, h) =
      ap (handed_all (map (λ (p : Msg × Settlement). p.0) out)) (Justified-handed msg s k u j)
      ∙ JustifiedAll-handed_all out u t h

  -- A consumer whose connection, stream and subscription were made, for any operations of the service,
  -- whatever errors they give: every message that is due is settled once, in order, and the settlement
  -- of each that is decoded is an acknowledgement. The last state is what the operations for the
  -- requests of the due and decoded messages, each run once and in order, make of the first. An error of
  -- an acknowledgement itself is dropped.
  pub run_nefario_consumer-IsAcknowledged :
      (v : Server) (rounds : List QueueRound) (s : S)
      → prepare v (nefario_config) ≡ none
      → (let out = run_nefario_consumer service unmarshal_bytes v rounds s in
          (map (λ (p : Msg × Settlement). p.0) out.0 ≡ due rounds)
          × All IsAcknowledged out.0
          × (out.1.1 ≡ handed_all (due rounds) s))
  run_nefario_consumer-IsAcknowledged v rounds s e =
      let (same, all) =
        run_proto_work_queue-Settles unmarshal_bytes (process_message_from_launchy service) v
          (nefario_config) rounds s e in
      (
        same,
        All-IsAcknowledged _ s _ all,
        sym (JustifiedAll-handed_all _ s _ all) ∙ ap (λ msgs. handed_all msgs s) same,
      )
