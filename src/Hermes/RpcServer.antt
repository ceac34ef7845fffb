-- ===== src/Hermes/RpcServer.antt =====
-- hermes/rpcserver/hermes_rpcserver.go. A handler is what `Handler` makes: the decoding of a request,
-- the function that serves it, which may change a state of the program, and the encoding of its answer. No
-- `Data` is written for empty bytes, so bytes that are empty stand for nil.
pub mod Answers
pub mod Calls
pub mod Ping
mod Tests
use godev.Prelude.{
  Bool, true, false, List, [], ◌∷◌, Option, none, some, Bytes, codes, get, put, to_lower,
  if◌then◌else◌,
}
use godev.Hermes.Message.{
  ContentType, protobuf, unspecified_content, FrameType, success_response, error_response,
  RpcHeader, MessageHeader, Message, rpc_header_of, SendMessageRequest,
}
use godev.Hermes.Publish.{correlation_id_of, end_point_of}

-- A result, or the text of an error.
pub data Tried (A : Type 0) : Type 0 where
  given : A → Tried A
  error : Bytes → Tried A

-- `HandlerS`, with the parts that `Handler` puts into its function; true is for protobuf, false for JSON.
-- `server` is nil until `RegisterHandlers` sets it; of the server, the function reads the sender.
pub record HandlerS (S : Type 0) : Type 1 where
  pub Req : Type 0
  pub Resp : Type 0
  pub end_point : Bytes
  pub unmarshal : Bool → Bytes → Tried Req
  pub call : Req → S → Tried Resp × S
  pub marshal : Bool → Resp → Tried Bytes
  pub server : Option Bytes

-- `RpcServerS`
pub record RpcServer (S : Type 0) : Type 1 where
  pub handler_by_end_point : List (Bytes × HandlerS S)
  pub sender : Bytes

-- What a call of a handler comes to.
pub data Reply : Type 0 where
  replies : SendMessageRequest → Reply
  nil_dereference : Reply

-- `GetHeader().GetContentType()`
abbrev pub content_type_of : Option MessageHeader → ContentType
content_type_of none = unspecified_content
content_type_of (some h) = h.content_type

abbrev pub is_protobuf : ContentType → Bool
is_protobuf protobuf = true
is_protobuf _ = false

abbrev pub reply_message : Bytes → Option RpcHeader → FrameType → Option Bytes → Bytes → Message
reply_message sender h frame info body = record {
  header = some (record {
    sender = sender;
    content_type = unspecified_content;
    rpc_header = some (record {
      correlation_id = correlation_id_of h;
      end_point = end_point_of h;
      frame_type = frame;
      error_info = info;
    });
  });
  created = none;
  data_bytes = body;
}

abbrev pub reply_to : Bytes → Bytes → Message → SendMessageRequest
reply_to to id m = record {
  to = to ∷ [];
  message = some m;
  channel = codes "rpc-inbox";
  idempotent_id = id;
}

-- `ErrorResp`, which reads `msg.Header.Sender` without a test for nil.
abbrev pub error_resp : Bytes → Option MessageHeader → Bytes → Reply
error_resp id none text = nil_dereference
error_resp id (some h) text =
    replies
      (reply_to h.sender id (reply_message h.sender h.rpc_header error_response (some text) []))

abbrev pub success_resp : Option Bytes → Bytes → Option MessageHeader → Bytes → Reply
success_resp none id h body = nil_dereference
success_resp (some sender) id none body = nil_dereference
success_resp (some sender) id (some h) body =
    replies (reply_to h.sender id (reply_message sender h.rpc_header success_response none body))

-- The bytes that are decoded: JSON has an empty object for nil.
abbrev pub body_of : Bool → Bytes → Bytes
body_of true body = body
body_of false [] = codes "{}"
body_of false (b ∷ bs) = b ∷ bs

module _ {S : Type 0} where
  abbrev pub marshalled : HandlerS S → Bytes → Option MessageHeader → Tried Bytes → Reply
  marshalled h id hd (given body) = success_resp h.server id hd body
  marshalled h id hd (error text) = error_resp id hd text

  abbrev pub called :
      (h : HandlerS S) → Bool → Bytes → Option MessageHeader → Tried h.Resp × S → Reply × S
  called h b id hd (given resp, s) = (marshalled h id hd (h.marshal b resp), s)
  called h b id hd (error text, s) = (error_resp id hd text, s)

  abbrev pub decoded :
      (h : HandlerS S) → Bool → Bytes → Option MessageHeader → S → Tried h.Req → Reply × S
  decoded h b id hd s (given req) = called h b id hd (h.call req s)
  decoded h b id hd s (error text) = (error_resp id hd text, s)

  -- The function that `Handler` makes; `id` is the identifier that it makes for its answer.
  unfoldable pub handle : HandlerS S → Bytes → Message → S → Reply × S
  handle h id msg s =
      let b = is_protobuf (content_type_of msg.header) in
      decoded h b id msg.header s (h.unmarshal b (body_of b msg.data_bytes))

  -- `RegisterHandler`
  unfoldable pub register_handler : HandlerS S → RpcServer S → RpcServer S
  register_handler h rs = record rs {
    handler_by_end_point = put (to_lower h.end_point) h (put h.end_point h rs.handler_by_end_point);
  }

  -- `RegisterHandlers`. The map holds the handler that is given its server right after.
  unfoldable pub register_handlers : List (HandlerS S) → RpcServer S → RpcServer S
  register_handlers [] rs = rs
  register_handlers (h ∷ hs) rs =
      register_handlers hs (register_handler (record h { server = some rs.sender }) rs)

  abbrev pub found_handler : (Bytes → Bytes) → Bytes → Message → S → Option (HandlerS S) → Reply × S
  found_handler no_handler id msg s none =
      (error_resp id msg.header (no_handler (end_point_of (rpc_header_of msg.header))), s)
  found_handler no_handler id msg s (some h) = handle h id msg s

  -- `ProcessRpcCall`; `no_handler` is the text of its error.
  unfoldable pub process_rpc_call : (Bytes → Bytes) → RpcServer S → Bytes → Message → S → Reply × S
  process_rpc_call no_handler rs id msg s =
      found_handler no_handler id msg s
        (get (to_lower (end_point_of (rpc_header_of msg.header))) rs.handler_by_end_point)

  -- The handler of `ping`, which answers with the payload of the request.
  abbrev pub ping_handler : (Bool → Bytes → Tried Bytes) → (Bool → Bytes → Tried Bytes) → HandlerS S
  ping_handler unmarshal_ping marshal_pong = record {
    Req = Bytes;
    Resp = Bytes;
    end_point = codes "ping";
    unmarshal = unmarshal_ping;
    call = λ payload s. (given payload, s);
    marshal = marshal_pong;
    server = none;
  }

  -- `NewRpcServer`
  unfoldable pub new_rpc_server :
      (Bool → Bytes → Tried Bytes) → (Bool → Bytes → Tried Bytes) → Bytes → RpcServer S
  new_rpc_server unmarshal_ping marshal_pong sender =
      register_handler (ping_handler unmarshal_ping marshal_pong)
        (record { handler_by_end_point = []; sender = sender })

  abbrev pub then_answer :
      (S → List SendMessageRequest × Option S) → Reply × S → List SendMessageRequest × Option S
  then_answer next (replies smr, s) = (smr ∷ (next s).0, (next s).1)
  then_answer next (nil_dereference, s) = ([], none)

  -- `RunMessageReaderLoop`, for the messages that the inbox's reader hands on, each with the identifier
  -- that is made for its answer: the requests for publication, and the state, or none where the lookup
  -- or the handler of ping panics; a function that a handler calls gives a result and does not panic.
  -- An error of a publication is only logged, so that a request may publish nothing.
  unfoldable pub run_message_reader_loop :
      (Bytes → Bytes)
      → RpcServer S
      → List (Bytes × Message)
      → S
      → List SendMessageRequest × Option S
  run_message_reader_loop no_handler rs [] s = ([], some s)
  run_message_reader_loop no_handler rs ((id, msg) ∷ msgs) s =
      then_answer (λ s'. run_message_reader_loop no_handler rs msgs s')
        (process_rpc_call no_handler rs id msg s)
