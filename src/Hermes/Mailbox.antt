-- ===== src/Hermes/Mailbox.antt =====
-- hermes/mailbox.go: a mailbox and its methods. A method that changes the mailbox gives the new one.
use godev.Prelude.{
  ℕ, suc, Bool, true, false, ◌||◌, List, [], ◌∷◌, ◌++◌, Option, none, some, Bytes, codes, ℤ, pos,
  ◌-ℤ◌, ltb_ℤ, if◌then◌else◌,
}
use godev.Hermes.Message.{
  FrameType, unspecified, request, error_response, success_response, RpcHeader,
}
use godev.Hermes.Name.{Name, same, new_name, rpc_sent}

pub record MailboxKeys : Type 0 where
  pub mailbox_address : Name
  pub reader_key : Name
  pub admin_key : Name

-- `sent` is the pointer `hasSent`. `correlations` is a SyncMap from identifiers to channels; a channel
-- is a number.
pub record Mailbox : Type 0 where
  pub keys : MailboxKeys
  pub open keys use *
  pub last_activity : ℤ
  pub channels : List Name
  pub public_metadata : Bytes
  pub private_metadata : Bytes
  pub purge_timeout_in_millis : ℤ
  pub close_timeout_in_millis : ℤ
  pub sent : Option Bool
  pub correlations : List (Name × ℕ)
  pub is_named : Bool
  pub needs_update : Bool

-- The loop of `IsValidChannel`, which is that of `HasSent` too.
unfoldable pub holds : Name → List Name → Bool
holds n [] = false
holds n (c ∷ cs) = same c n || holds n cs

abbrev pub is_valid_channel : Mailbox → Name → Bool
is_valid_channel m channel = holds channel m.channels

abbrev pub sent_of : Mailbox → Option Bool → Bool × Mailbox
sent_of m none = (holds rpc_sent m.channels, record m { sent = some (holds rpc_sent m.channels) })
sent_of m (some b) = (b, m)

unfoldable pub has_sent : Mailbox → Bool × Mailbox
has_sent m = sent_of m m.sent

-- `time.Duration(…)` keeps the number; the default is in milliseconds.
abbrev pub limit : ℤ → ℤ → ℤ
limit default timeout = if ltb_ℤ (pos 0) timeout then timeout else default

unfoldable pub is_purgable : ℤ → Mailbox → Bool
is_purgable now m =
    ltb_ℤ (now -ℤ m.last_activity) (limit (pos 43_200_000) m.purge_timeout_in_millis)

unfoldable pub is_active : ℤ → Mailbox → Bool
is_active now m = ltb_ℤ (now -ℤ m.last_activity) (limit (pos 3_600_000) m.close_timeout_in_millis)

unfoldable pub update_last_activity : ℤ → Mailbox → Mailbox
update_last_activity now m = record m { last_activity = now; needs_update = true }

-- `Store`, `Delete` and `Load` of the SyncMap: its keys are pointers.
unfoldable pub remove_correlation : Name → List (Name × ℕ) → List (Name × ℕ)
remove_correlation id [] = []
remove_correlation id ((k, ch) ∷ cs) =
    if same k id then remove_correlation id cs else (k, ch) ∷ remove_correlation id cs

unfoldable pub register_correlation : Name → ℕ → List (Name × ℕ) → List (Name × ℕ)
register_correlation id ch cs = (id, ch) ∷ remove_correlation id cs

unfoldable pub load_correlation : Name → List (Name × ℕ) → Option ℕ
load_correlation id [] = none
load_correlation id ((k, ch) ∷ cs) = if same k id then some ch else load_correlation id cs

-- `fmt.Sprintf("hermes.%s.%s", …)` and `fmt.Sprintf("hermes-%s-%s", …)`
unfoldable pub nats_subject : Mailbox → Name → Bytes
nats_subject m channel = codes "hermes." ++ (m.admin_key.text ++ (b'.' ∷ channel.text))

unfoldable pub nats_stream_name : Mailbox → Name → Bytes
nats_stream_name m channel = codes "hermes-" ++ (m.admin_key.text ++ (b'-' ∷ channel.text))

pub record Stream : Type 0 where
  pub channel : Name
  pub subject : Bytes
  pub stream_name : Bytes
  pub start_seq : Bytes
  pub consumer_name : Bytes

-- `none` is the error that the channel does not exist.
unfoldable pub stream : Mailbox → Name → Option Stream
stream m channel =
    if is_valid_channel m channel
    then some (record {
      channel = channel;
      subject = nats_subject m channel;
      stream_name = nats_stream_name m channel;
      start_seq = [];
      consumer_name = [];
    })
    else none

-- What the handler of `RunRpcInboxReader` does with a message: `delivers ch` sends it to a waiting
-- call, `requests` hands it to the request handler, `no_handler` is the error that there is none.
pub data Handled : Type 0 where
  ignores no_correlation requests no_handler nil_dereference : Handled
  delivers : ℕ → Handled

abbrev pub deliver : Option ℕ → Handled
deliver none = no_correlation
deliver (some ch) = delivers ch

-- The identifier is allocated anew for each message, by `CorrelationIdO`.
unfoldable pub handle_response : Bytes → ℕ → List (Name × ℕ) → Handled × ℕ
handle_response [] free cs = (ignores, suc free)
handle_response (c ∷ text) free cs =
    let (id, free') = new_name (c ∷ text) free in (deliver (load_correlation id cs), free')

abbrev pub handle_frame : FrameType → Bytes → Bool → ℕ → Mailbox → Handled × ℕ
handle_frame error_response id has_handler free m = handle_response id free m.correlations
handle_frame success_response id has_handler free m = handle_response id free m.correlations
handle_frame request id has_handler free m = ((if has_handler then requests else no_handler), free)
handle_frame unspecified id has_handler free m = (ignores, free)

-- A field of the RPC header is read through the pointer, which may be nil.
unfoldable pub handle_inbox : Option RpcHeader → Bool → ℕ → Mailbox → Handled × ℕ
handle_inbox none has_handler free m = (nil_dereference, free)
handle_inbox (some h) has_handler free m =
    handle_frame h.frame_type h.correlation_id has_handler free m
