-- ===== src/Journal/Flow.antt =====
-- SubmitChanPublisher of launchy/journalctl-utils.go: every buffer is sent once, in order, or waits.
use mathlib.Core.List.{map-append}
use godev.Prelude.{
  ℕ, ◌+◌, ◌<◌, Bool, true, false, List, [], ◌∷◌, ◌++◌, map, Option, none, some, length, leb,
  if◌then◌else◌, replicate, ◌≡◌, ◌⊎◌, refl, ◌∙◌, sym, append_assoc, append-nil, inl, inr,
  Bool-cases,
}
use godev.Journal.Batches.{
  RpcBuffer, CaptureWindow, Publisher, new_publisher, send_buffers, send_current_buffers, Select,
  context_done, from_chan, time_over, Batch, with_buffer, take_buffer, select_from, publish_round,
  publish_loop,
}
use godev.Journal.Delivery.{
  flow, send_buffers-flow, buffers_of, arrivals, Sound, publish_loop-Sound,
}

-- A publisher that has ended holds no buffer.
abbrev Emptied : Publisher → Type 0
Emptied p = (p.ended ≡ false) ⊎ (p.current_buffers ≡ [])

send-flow : (t : ℕ) (p : Publisher) → flow (send_current_buffers t p) ≡ flow p
send-flow t p = send_buffers-flow t p.current_buffers p refl

send-empty : (t : ℕ) (p : Publisher) → (send_current_buffers t p).current_buffers ≡ []
send-empty t p = by_list p.current_buffers refl
  where
    by_list :
        (bs : List (Option RpcBuffer))
        → p.current_buffers ≡ bs
        → (send_buffers t bs p).current_buffers ≡ []
    by_list [] e = e
    by_list (b ∷ bs) e = refl

module _ (w : CaptureWindow) where
  taken-flow :
      (t : ℕ) (b : RpcBuffer) (bs : List RpcBuffer) (p : Publisher)
      → p.chan ≡ b ∷ bs
      → flow (take_buffer w t b bs p) ≡ flow p
  taken-flow t b bs p e = elim (Bool-cases (leb w.max_bytes (p.byte_count + length b.text))) [
    | inl l ↦ rw l (send-flow t (with_buffer b bs p) ∙ moved)
    | inr l ↦ rw l moved
  ]
    where
      moved :
          buffers_of p.sent_records ++ ((p.current_buffers ++ (some b ∷ [])) ++ map some bs)
          ≡ flow p
      moved = rw (e, append_assoc p.current_buffers (some b ∷ []) (map some bs)) refl

  taken-Emptied :
      (t : ℕ) (b : RpcBuffer) (bs : List RpcBuffer) (p : Publisher)
      → p.ended ≡ false
      → Emptied (take_buffer w t b bs p)
  taken-Emptied t b bs p n = elim (Bool-cases (leb w.max_bytes (p.byte_count + length b.text))) [
    | inl l ↦ rw l (inr (send-empty t (with_buffer b bs p)))
    | inr l ↦ rw l (inl n)
  ]

  selected :
      (c : Select) (t : ℕ) (bs : List RpcBuffer) (p : Publisher)
      → p.chan ≡ bs
      → p.ended ≡ false
      → (flow (select_from w c t bs p) ≡ flow p) × Emptied (select_from w c t bs p)
  selected context_done t bs p e n = (send-flow t p, inr (send-empty t p))
  selected from_chan t [] p e n = (refl, inl n)
  selected from_chan t (b ∷ bs) p e n = (taken-flow t b bs p e, taken-Emptied t b bs p n)
  selected time_over t bs p e n = (send-flow t p, inr (send-empty t p))

  filled-flow :
      (p : Publisher) (bs : List RpcBuffer)
      → flow (record p { chan = p.chan ++ bs }) ≡ flow p ++ map some bs
  filled-flow p bs =
      rw
        (
          map-append some p.chan bs,
          append_assoc (buffers_of p.sent_records) (p.current_buffers ++ map some p.chan)
              (map some bs),
          append_assoc p.current_buffers (map some p.chan) (map some bs),
        )
        refl

  round-flow :
      (r : Batch) (p : Publisher)
      → Emptied p
      → (flow (publish_round w r p) ≡ flow p ++ map some r.arrived) × Emptied (publish_round w r p)
  round-flow r p i = by_end p.ended (leb (p.start + w.max_time) r.now) refl
    where
      q : Publisher
      q = record p { chan = p.chan ++ r.arrived }

      by_end :
          (e l : Bool)
          → p.ended ≡ e
          → (let out =
                if e
                then q
                else if l
                then send_current_buffers r.later q
                else select_from w r.chosen r.later q.chan q in
              (flow out ≡ flow p ++ map some r.arrived) × Emptied out)
      by_end true l h = (filled-flow p r.arrived, i)
      by_end false true h =
          (send-flow r.later q ∙ filled-flow p r.arrived, inr (send-empty r.later q))
      by_end false false h =
          let (same, empty) = selected r.chosen r.later q.chan q refl h in
          (same ∙ filled-flow p r.arrived, empty)

  publish_loop-flow :
      (rs : List Batch) (p : Publisher)
      → Emptied p
      → (flow (publish_loop w rs p) ≡ flow p ++ map some (arrivals rs))
        × Emptied (publish_loop w rs p)
  unfolding publish_loop
  publish_loop-flow [] p i = (sym (append-nil (flow p)), i)
  publish_loop-flow (r ∷ rs) p i =
      let (same, empty) = round-flow r p i in
      let (rest, last) = publish_loop-flow rs (publish_round w r p) empty in
      (
        rest
            ∙ (rw
                (
                  same,
                  map-append some r.arrived (arrivals rs),
                  append_assoc (flow p) (map some r.arrived) (map some (arrivals rs)),
                )
                refl),
        last,
      )

-- The publisher of a process, for any capture window that is not of zero bytes, and any rounds of its
-- loop: the buffers of the records sent, those that wait and those in the channel are, in this order, four
-- nil pointers and all that arrived, each once. It counts the bytes that wait, which stay below the
-- window's, and those sent, modulo 2^64; every record has the sequence number 0; and once it has
-- returned, none waits outside the channel.
pub publish_loop-Delivers :
    (w : CaptureWindow) (rs : List Batch) (now : ℕ)
    → 0 < w.max_bytes
    → (let p = publish_loop w rs (new_publisher now) in
        (flow p ≡ replicate 4 none ++ map some (arrivals rs))
        × Sound w p
        × ((p.ended ≡ false) ⊎ (p.current_buffers ≡ [])))
publish_loop-Delivers w rs now m =
    let (same, empty) = publish_loop-flow w rs (new_publisher now) (inl refl) in
    let start : Sound w (new_publisher now) = record {
      counted = refl;
      bounded = m;
      sized = refl;
      numbered = refl;
      unnumbered = tt;
    } in
    (same, publish_loop-Sound w m rs (new_publisher now) start, empty)
