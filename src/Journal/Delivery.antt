-- ===== src/Journal/Delivery.antt =====
-- SubmitChanPublisher of launchy/journalctl-utils.go: what becomes of the buffers.
use godev.Prelude.{
  ℕ, ◌+◌, ◌%◌, ◌^◌, ◌<◌, Bool, true, false, List, [], ◌∷◌, ◌++◌, map, Option, none, some, length,
  leb, if◌then◌else◌, ◌≡◌, refl, ◌∙◌, ap, sym, append_assoc, append-nil, arith, inl, inr,
  Bool-cases, All,
}
use godev.Journal.Batches.{
  RpcBuffer, StreamRecord, CaptureWindow, Publisher, send_current_buffers, Select, context_done,
  from_chan, time_over, Batch, take_buffer, select_from, publish_round, publish_loop, send_buffers,
  send_buffers,
}

abbrev pub buffers_of : List StreamRecord → List (Option RpcBuffer)
buffers_of [] = []
buffers_of (r ∷ rs) = r.buffers ++ buffers_of rs

abbrev pub arrivals : List Batch → List RpcBuffer
arrivals [] = []
arrivals (r ∷ rs) = r.arrived ++ arrivals rs

abbrev pub bytes_of : List (Option RpcBuffer) → ℕ
bytes_of [] = 0
bytes_of (none ∷ bs) = bytes_of bs
bytes_of (some b ∷ bs) = length b.text + bytes_of bs

abbrev pub SequenceZero : StreamRecord → Type 0
SequenceZero r = r.sequence ≡ 0

-- The buffers that were sent, then those that wait, then the channel.
abbrev pub flow : Publisher → List (Option RpcBuffer)
flow p = buffers_of p.sent_records ++ (p.current_buffers ++ map some p.chan)

buffers_of-append :
    (xs ys : List StreamRecord) → buffers_of (xs ++ ys) ≡ buffers_of xs ++ buffers_of ys
buffers_of-append [] ys = refl
buffers_of-append (r ∷ xs) ys =
    rw (buffers_of-append xs ys) (sym (append_assoc r.buffers (buffers_of xs) (buffers_of ys)))

bytes_of-append :
    (xs ys : List (Option RpcBuffer)) → bytes_of (xs ++ ys) ≡ bytes_of xs + bytes_of ys
bytes_of-append [] ys = omega arith
bytes_of-append (none ∷ xs) ys = bytes_of-append xs ys
bytes_of-append (some b ∷ xs) ys = omega (arith, bytes_of-append xs ys)

pub send_buffers-flow :
    (t : ℕ) (bs : List (Option RpcBuffer)) (p : Publisher)
    → p.current_buffers ≡ bs
    → flow (send_buffers t bs p) ≡ flow p
send_buffers-flow t [] p e = refl
send_buffers-flow t (b ∷ bs) p e =
    rw
      (
        e,
        buffers_of-append p.sent_records
            (record { sequence = p.sequence_number; buffers = b ∷ bs } ∷ []),
        append-nil bs,
      )
      (append_assoc (buffers_of p.sent_records) (b ∷ bs) (map some p.chan))

-- What holds between the rounds.
pub record Sound (w : CaptureWindow) (p : Publisher) : Type 0 where
  pub counted : p.byte_count ≡ bytes_of p.current_buffers
  pub bounded : p.byte_count < w.max_bytes
  pub sized : p.size ≡ bytes_of (buffers_of p.sent_records) % 2 ^ 64
  pub numbered : p.sequence_number ≡ 0
  pub unnumbered : All SequenceZero p.sent_records

All-append :
    (xs ys : List StreamRecord)
    → All SequenceZero xs
    → All SequenceZero ys
    → All SequenceZero (xs ++ ys)
All-append [] ys h k = k
All-append (x ∷ xs) ys (h, hs) k = (h, All-append xs ys hs k)

wrapped :
    (size count before after : ℕ)
    → size ≡ before % 2 ^ 64
    → after ≡ before + count
    → (size + count) % 2 ^ 64 ≡ after % 2 ^ 64
wrapped size count before after s e = omega arith

-- Sending needs the counts, and not the bound.
send_buffers-Sound :
    (w : CaptureWindow) (t : ℕ) (bs : List (Option RpcBuffer)) (p : Publisher)
    → 0 < w.max_bytes
    → p.current_buffers ≡ bs
    → p.byte_count ≡ bytes_of p.current_buffers
    → p.size ≡ bytes_of (buffers_of p.sent_records) % 2 ^ 64
    → p.sequence_number ≡ 0
    → All SequenceZero p.sent_records
    → Sound w (send_buffers t bs p)
send_buffers-Sound w t [] p m e c s n a = record {
  counted = c;
  bounded = rw (c, e) m;
  sized = s;
  numbered = n;
  unnumbered = a;
}
send_buffers-Sound w t (b ∷ bs) p m e c s n a = record {
  counted = refl;
  bounded = m;
  sized =
      let one = record { sequence = p.sequence_number; buffers = b ∷ bs } ∷ [] in
      wrapped p.size p.byte_count (bytes_of (buffers_of p.sent_records)) _ s (
        ap bytes_of (buffers_of-append p.sent_records one)
        ∙ (bytes_of-append (buffers_of p.sent_records) (buffers_of one)
            ∙ ap (◌+◌ (bytes_of (buffers_of p.sent_records)))
                (ap bytes_of (append-nil (b ∷ bs)) ∙ sym (rw e at c))));
  numbered = n;
  unnumbered = All-append p.sent_records _ a (n, tt);
}

module _ (w : CaptureWindow) (m : 0 < w.max_bytes) where
  send-Sound : (t : ℕ) (p : Publisher) → Sound w p → Sound w (send_current_buffers t p)
  send-Sound t p i =
      send_buffers-Sound w t p.current_buffers p m refl i.counted i.sized i.numbered i.unnumbered

  taken-Sound :
      (t : ℕ) (b : RpcBuffer) (bs : List RpcBuffer) (p : Publisher)
      → Sound w p
      → Sound w (take_buffer w t b bs p)
  taken-Sound t b bs p i = elim (Bool-cases (leb w.max_bytes (p.byte_count + length b.text))) [
    | inl e ↦ rw e (send_buffers-Sound w t _ _ m refl count i.sized i.numbered i.unnumbered)
    | inr e ↦ rw e (record {
      counted = count;
      bounded = ground arith;
      sized = i.sized;
      numbered = i.numbered;
      unnumbered = i.unnumbered;
    })
  ]
    where
      count : p.byte_count + length b.text ≡ bytes_of (p.current_buffers ++ (some b ∷ []))
      count = omega (arith, bytes_of-append p.current_buffers (some b ∷ []), i.counted)

  ended-Sound : (p : Publisher) → Sound w p → Sound w (record p { ended = true })
  ended-Sound p i = record {
    counted = i.counted;
    bounded = i.bounded;
    sized = i.sized;
    numbered = i.numbered;
    unnumbered = i.unnumbered;
  }

  selected-Sound :
      (c : Select) (t : ℕ) (bs : List RpcBuffer) (p : Publisher)
      → Sound w p
      → Sound w (select_from w c t bs p)
  selected-Sound context_done t bs p i = ended-Sound _ (send-Sound t p i)
  selected-Sound from_chan t [] p i = i
  selected-Sound from_chan t (b ∷ bs) p i = taken-Sound t b bs p i
  selected-Sound time_over t bs p i = send-Sound t p i

  round-Sound : (r : Batch) (p : Publisher) → Sound w p → Sound w (publish_round w r p)
  round-Sound r p i = by_end p.ended (leb (p.start + w.max_time) r.now)
    where
      q : Publisher
      q = record p { chan = p.chan ++ r.arrived }

      filled : Sound w q
      filled = record {
        counted = i.counted;
        bounded = i.bounded;
        sized = i.sized;
        numbered = i.numbered;
        unnumbered = i.unnumbered;
      }

      by_end :
          (e l : Bool)
          → Sound w (
              if e
              then q
              else if l
              then send_current_buffers r.later q
              else select_from w r.chosen r.later q.chan q)
      by_end true l = filled
      by_end false true = send-Sound r.later q filled
      by_end false false = selected-Sound r.chosen r.later q.chan q filled

  pub publish_loop-Sound :
      (rs : List Batch) (p : Publisher) → Sound w p → Sound w (publish_loop w rs p)
  unfolding publish_loop
  publish_loop-Sound [] p i = i
  publish_loop-Sound (r ∷ rs) p i = publish_loop-Sound rs (publish_round w r p) (round-Sound r p i)
