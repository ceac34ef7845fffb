-- ===== src/WorkQueue/Settles.antt =====
-- RunProtoWorkQueue of a8nats/a8nats.go: what becomes of the messages that are fetched.
use mathlib.Core.Path.{subst}
use mathlib.Core.List.{map-append}
use godev.Prelude.{
  Bool, true, false, List, [], ◌∷◌, ◌++◌, map, Option, none, some, Bytes, ◌≡◌, ◌∙◌, inl, inr, refl,
  sym, ap, Option-cases,
}
use godev.WorkQueue.{
  WorkQueueConfig, Msg, timeout, other_error, QueueRound, context_done, fetched, Server, Settlement,
  ack, nak, QueueEnded, settlement, prepare, process_messages, queue_loop, run_work_queue, proto_by,
  proto_task_fn, run_proto_work_queue, after_round,
}

-- The messages that are to be settled: those of each turn until the queue ends. A turn with an error has
-- none, unless the context has ended.
abbrev pub due : List QueueRound → List Msg
due [] = []
due (context_done ∷ rounds) = []
due (fetched none ended msgs ∷ rounds) = msgs ++ due rounds
due (fetched (some timeout) ended msgs ∷ rounds) = due rounds
due (fetched (some other_error) true msgs ∷ rounds) = msgs ++ due rounds
due (fetched (some other_error) false msgs ∷ rounds) = []

module _ {S A : Type 0} (unmarshal_bytes : Bytes → Bool → Option A) (task_fn : A → S → Bool × S)
    (assume : Bool) where
  -- What justifies that a message is settled so, from one state to the next: it is decoded and the
  -- task succeeds, and it is acknowledged; or the task fails, or the message is not decoded and no task
  -- sees it, and it is refused.
  pub data Justified (msg : Msg) (s : S) : Settlement → S → Type 0 where
    succeeded :
        (a : A) (t : S)
        → unmarshal_bytes msg.data_bytes (proto_by assume msg.content_type) ≡ some a
        → task_fn a s ≡ (true, t)
        → Justified msg s ack t
    task_failed :
        (a : A) (t : S)
        → unmarshal_bytes msg.data_bytes (proto_by assume msg.content_type) ≡ some a
        → task_fn a s ≡ (false, t)
        → Justified msg s nak t
    not_decoded :
        unmarshal_bytes msg.data_bytes (proto_by assume msg.content_type) ≡ none
        → Justified msg s nak s

  -- The settlements in their order, each from the state that those before it left.
  abbrev pub JustifiedAll : List (Msg × Settlement) → S → S → Type 0
  JustifiedAll [] s t = s ≡ t
  JustifiedAll ((msg, k) ∷ rest) s t = (u : S) × Justified msg s k u × JustifiedAll rest u t

  task-Justified :
      (msg : Msg) (s : S)
      → Justified msg s
          (settlement (proto_task_fn unmarshal_bytes task_fn assume msg s).0)
          (proto_task_fn unmarshal_bytes task_fn assume msg s).1
  unfolding proto_task_fn
  task-Justified msg s =
      elim (Option-cases (unmarshal_bytes msg.data_bytes (proto_by assume msg.content_type))) [
        | inl e ↦ rw e (not_decoded e)
        | inr (a, e) ↦ rw e (by_result a (task_fn a s) e refl)
      ]
    where
      by_result :
          (a : A) (r : Bool × S)
          → unmarshal_bytes msg.data_bytes (proto_by assume msg.content_type) ≡ some a
          → task_fn a s ≡ r
          → Justified msg s (settlement r.0) r.1
      by_result a (true, t) e f = succeeded a t e f
      by_result a (false, t) e f = task_failed a t e f

  append-JustifiedAll :
      (xs ys : List (Msg × Settlement)) (s t u : S)
      → JustifiedAll xs s t
      → JustifiedAll ys t u
      → JustifiedAll (xs ++ ys) s u
  append-JustifiedAll [] ys s t u h k = subst (λ x. JustifiedAll ys x u) (sym h) k
  append-JustifiedAll ((msg, x) ∷ xs) ys s t u (v, j, h) k =
      (v, j, append-JustifiedAll xs ys v t u h k)

  process_messages-JustifiedAll :
      (msgs : List Msg) (s : S)
      → (let out = process_messages (proto_task_fn unmarshal_bytes task_fn assume) msgs s in
          (map (λ (p : Msg × Settlement). p.0) out.0 ≡ msgs) × JustifiedAll out.0 s out.1)
  unfolding process_messages
  process_messages-JustifiedAll [] s = (refl, refl)
  process_messages-JustifiedAll (msg ∷ msgs) s =
      let t = (proto_task_fn unmarshal_bytes task_fn assume msg s).1 in
      let (same, all) = process_messages-JustifiedAll msgs t in
      (ap (◌∷◌ msg) same, (t, task-Justified msg s, all))

  -- What a run of the loop is to give.
  abbrev pub Settles : List Msg → S → List (Msg × Settlement) × (QueueEnded × S) → Type 0
  Settles msgs s out =
      (map (λ (p : Msg × Settlement). p.0) out.0 ≡ msgs) × JustifiedAll out.0 s out.1.1

  batch-Settles :
      (msgs : List Msg) (rounds : List QueueRound) (s : S)
      → (let t = (process_messages (proto_task_fn unmarshal_bytes task_fn assume) msgs s).1 in
          Settles
            (due rounds)
            t
            (queue_loop (proto_task_fn unmarshal_bytes task_fn assume) rounds t))
      → Settles (msgs ++ due rounds) s (
          after_round
            (proto_task_fn unmarshal_bytes task_fn assume)
            (λ t. queue_loop (proto_task_fn unmarshal_bytes task_fn assume) rounds t)
            (process_messages (proto_task_fn unmarshal_bytes task_fn assume) msgs s))
  batch-Settles msgs rounds s (same, all) =
      let out = process_messages (proto_task_fn unmarshal_bytes task_fn assume) msgs s in
      let rest = queue_loop (proto_task_fn unmarshal_bytes task_fn assume) rounds out.1 in
      let (first, before) = process_messages-JustifiedAll msgs s in
      (
        map-append (λ (p : Msg × Settlement). p.0) out.0 rest.0 ∙ (rw (first, same) refl),
        append-JustifiedAll out.0 rest.0 s out.1 rest.1.1 before all,
      )

  queue_loop-Settles :
      (rounds : List QueueRound) (s : S)
      → Settles (due rounds) s (queue_loop (proto_task_fn unmarshal_bytes task_fn assume) rounds s)
  unfolding queue_loop
  queue_loop-Settles [] s = (refl, refl)
  queue_loop-Settles (context_done ∷ rounds) s = (refl, refl)
  queue_loop-Settles (fetched none ended msgs ∷ rounds) s =
      batch-Settles msgs rounds s (queue_loop-Settles rounds _)
  queue_loop-Settles (fetched (some timeout) ended msgs ∷ rounds) s = queue_loop-Settles rounds s
  queue_loop-Settles (fetched (some other_error) true msgs ∷ rounds) s =
      batch-Settles msgs rounds s (queue_loop-Settles rounds _)
  queue_loop-Settles (fetched (some other_error) false msgs ∷ rounds) s = (refl, refl)

module _ {S A : Type 0} (unmarshal_bytes : Bytes → Bool → Option A)
    (task_fn : A → S → Bool × S) where
  -- A queue whose connection, stream and subscription were made, for any turns of its loop: exactly the
  -- messages that are due are settled, once each and in their order, and the task sees each decoded
  -- one once. A message is acknowledged when it was decoded and the task succeeded on it, and is
  -- refused when it was not decoded, which leaves the state, or when the task failed.
  pub run_proto_work_queue-Settles :
      (v : Server) (c : WorkQueueConfig) (rounds : List QueueRound) (s : S)
      → prepare v c ≡ none
      → Settles unmarshal_bytes task_fn c.assume_proto
          (due rounds)
          s
          (run_proto_work_queue unmarshal_bytes task_fn v c rounds s)
  unfolding run_work_queue
  run_proto_work_queue-Settles v c rounds s e =
      rw e (queue_loop-Settles unmarshal_bytes task_fn c.assume_proto rounds s)
