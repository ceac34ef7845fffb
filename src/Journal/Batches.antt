-- ===== src/Journal/Batches.antt =====
-- launchy/journalctl-utils.go: SubmitChanPublisher, which takes the buffers of a process from a channel
-- and sends them in records. proto.Marshal of NefarioServiceClientStruct.Publish writes a record out
-- before StreamWrite returns, so that `clear` of the slice does not reach it; the error of StreamWrite
-- is dropped. Times are in milliseconds.
use godev.Prelude.{
  ℕ, ◌+◌, ◌%◌, ◌^◌, Bool, true, false, List, [], ◌∷◌, ◌++◌, Option, none, some, Bytes, length, leb,
  if◌then◌else◌, replicate,
}

-- `rpc.Buffer`: its timestamp and its data.
pub record RpcBuffer : Type 0 where
  pub written_at : ℕ
  pub text : Bytes

-- `rpc.StreamRecord` without its timestamp. A nil pointer stands among the buffers as none.
pub record StreamRecord : Type 0 where
  pub sequence : ℕ
  pub buffers : List (Option RpcBuffer)

-- `CaptureWindow`, the default where the service has none.
pub record CaptureWindow : Type 0 where
  pub max_bytes : ℕ
  pub max_time : ℕ

abbrev pub window_or_default : Option CaptureWindow → CaptureWindow
window_or_default none = record { max_bytes = 1000000; max_time = 3000 }
window_or_default (some w) = w

-- The variables of the goroutine, the fields of the slurp that it changes, the channel, and the records
-- that were sent. `ended` is set when it has returned; the channel is filled all the same.
pub record Publisher : Type 0 where
  pub sequence_number : ℕ
  pub size : ℕ
  pub byte_count : ℕ
  pub current_buffers : List (Option RpcBuffer)
  pub start : ℕ
  pub chan : List RpcBuffer
  pub sent_records : List StreamRecord
  pub ended : Bool

-- `make([]*rpc.Buffer, 4)` has four nil pointers.
abbrev pub new_publisher : ℕ → Publisher
new_publisher now = record {
  sequence_number = 0;
  size = 0;
  byte_count = 0;
  current_buffers = replicate 4 none;
  start = now;
  chan = [];
  sent_records = [];
  ended = false;
}

-- `sendCurrentBuffers`, with the clock at its end.
abbrev pub send_buffers : ℕ → List (Option RpcBuffer) → Publisher → Publisher
send_buffers t [] p = record p { start = t }
send_buffers t (b ∷ bs) p = record p {
  sent_records = p.sent_records ++ (record { sequence = p.sequence_number; buffers = b ∷ bs } ∷ []);
  size = (p.size + p.byte_count) % 2 ^ 64;
  byte_count = 0;
  current_buffers = [];
  start = t;
}

abbrev pub send_current_buffers : ℕ → Publisher → Publisher
send_current_buffers t p = send_buffers t p.current_buffers p

-- What the select finds: the context done, a buffer in the channel, or the time over.
pub data Select : Type 0 where
  context_done from_chan time_over : Select

-- One round of the loop: what the reader put into the channel before it, the clock at its head, what
-- the select chooses, and the clock where the buffers are sent.
pub record Batch : Type 0 where
  pub arrived : List RpcBuffer
  pub now : ℕ
  pub chosen : Select
  pub later : ℕ

-- `byteCount += len(buffer.Data)` and the append.
abbrev pub with_buffer : RpcBuffer → List RpcBuffer → Publisher → Publisher
with_buffer b rest p = record p {
  byte_count = p.byte_count + length b.text;
  current_buffers = p.current_buffers ++ some b ∷ [];
  chan = rest;
}

module _ (w : CaptureWindow) where
  -- `byteCount` is below `MaxBytes` before a buffer is added to it.
  abbrev pub take_buffer : ℕ → RpcBuffer → List RpcBuffer → Publisher → Publisher
  take_buffer t b rest p =
      if leb w.max_bytes (with_buffer b rest p).byte_count
      then send_current_buffers t (with_buffer b rest p)
      else with_buffer b rest p

  -- A channel with nothing in it is not chosen.
  abbrev pub select_from : Select → ℕ → List RpcBuffer → Publisher → Publisher
  select_from context_done t bs p = record (send_current_buffers t p) { ended = true }
  select_from from_chan t [] p = p
  select_from from_chan t (b ∷ bs) p = take_buffer t b bs p
  select_from time_over t bs p = send_current_buffers t p

  abbrev pub publish_round : Batch → Publisher → Publisher
  publish_round r p =
      let q = record p { chan = p.chan ++ r.arrived } in
      if q.ended
      then q
      else if leb (q.start + w.max_time) r.now
      then send_current_buffers r.later q
      else select_from r.chosen r.later q.chan q

  unfoldable pub publish_loop : List Batch → Publisher → Publisher
  publish_loop [] p = p
  publish_loop (r ∷ rs) p = publish_loop rs (publish_round r p)
