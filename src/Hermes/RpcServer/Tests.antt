-- ===== src/Hermes/RpcServer/Tests.antt =====
-- Tests of hermes/rpcserver/hermes_rpcserver.go: a server that counts the calls of its clock.
use godev.Prelude.{
  ℕ, suc, Bool, List, [], ◌∷◌, none, some, Bytes, codes, to_lower, last_with, bytes_eq, ◌≡◌, ◌≢◌,
  refl, if◌then◌else◌, bytes_ne, bytes_ne,
}
use godev.Hermes.Message.{protobuf, request, MessageHeader, Message}
use godev.Hermes.RpcServer.{
  Tried, given, error, HandlerS, replies, nil_dereference, process_rpc_call,
  run_message_reader_loop,
}
use godev.Hermes.RpcServer.Answers.{lower_name, serve, answer_to}
use godev.Hermes.RpcServer.Calls.{
  server, handler_named, AnswersEach, process_rpc_call-answer_to,
  run_message_reader_loop-AnswersEach,
}
use godev.Hermes.RpcServer.Ping.{process_rpc_call-nil_dereference}

abbrev plain : Bool → Bytes → Tried Bytes
plain b body = given body

-- A handler that refuses an empty request.
abbrev clock : HandlerS ℕ
clock = record {
  Req = Bytes;
  Resp = Bytes;
  end_point = codes "Clock";
  unmarshal = plain;
  call = λ req n. (if bytes_eq req [] then error (codes "empty") else given (codes "noon"), suc n);
  marshal = plain;
  server = none;
}

abbrev call_header : Bytes → MessageHeader
call_header name = record {
  sender = codes "alice";
  content_type = protobuf;
  rpc_header = some (record {
    correlation_id = codes "c1";
    end_point = name;
    frame_type = request;
    error_info = none;
  });
}

abbrev call_of : Bytes → Message
call_of name = record { header = some (call_header name); created = none; data_bytes = codes "now" }

abbrev unknown : Bytes → Bytes
unknown name = codes "no handler"

-- The end point is found in another case of letters.
clock_named :
    handler_named plain plain (codes "bob") (clock ∷ []) (codes "CLOCK")
    ≡ some (record clock { server = some (codes "bob") })
unfolding last_with to_lower bytes_eq
clock_named = refl

not_ping : to_lower (codes "CLOCK") ≢ codes "ping"
unfolding to_lower bytes_eq
not_ping = bytes_ne (to_lower (codes "CLOCK")) (codes "ping") refl

not_ping_either : to_lower (codes "date") ≢ codes "ping"
unfolding to_lower bytes_eq
not_ping_either = bytes_ne (to_lower (codes "date")) (codes "ping") refl

process_rpc_call-answer_to_example :
    (let out =
        serve unknown
          (handler_named plain plain (codes "bob") (clock ∷ []) (codes "CLOCK"))
          (call_of (codes "CLOCK"))
          (call_header (codes "CLOCK"))
          0 in
      process_rpc_call unknown
        (server plain plain (codes "bob") (clock ∷ []))
        (codes "i1")
        (call_of (codes "CLOCK"))
        0
      ≡ (replies (answer_to (codes "bob") (codes "i1") (call_header (codes "CLOCK")) out.0), out.1))
process_rpc_call-answer_to_example =
    process_rpc_call-answer_to plain plain (codes "bob") (clock ∷ []) unknown (codes "i1")
      (call_of (codes "CLOCK")) (call_header (codes "CLOCK")) 0 refl not_ping

abbrev two_calls : List (Bytes × Message)
two_calls = (codes "i1", call_of (codes "CLOCK")) ∷ (codes "i2", call_of (codes "date")) ∷ []

run_message_reader_loop-AnswersEach_example :
    (let out =
        run_message_reader_loop unknown
          (server plain plain (codes "bob") (clock ∷ []))
          two_calls
          0 in
      AnswersEach plain plain (codes "bob") (clock ∷ []) unknown two_calls out.0 0 out.1)
run_message_reader_loop-AnswersEach_example =
    run_message_reader_loop-AnswersEach plain plain (codes "bob") (clock ∷ []) unknown two_calls 0 (
      (call_header (codes "CLOCK"), refl, not_ping),
      ((call_header (codes "date"), refl, not_ping_either), tt),
    )

no_other : last_with lower_name (codes "ping") (clock ∷ []) ≡ none
unfolding last_with to_lower bytes_eq
no_other = refl

is_ping : to_lower (codes "Ping") ≡ codes "ping"
unfolding to_lower
is_ping = refl

process_rpc_call-nil_dereference_example :
    (process_rpc_call unknown
      (server plain plain (codes "bob") (clock ∷ []))
      (codes "i1")
      (call_of (codes "Ping"))
      0).0
    ≡ nil_dereference
process_rpc_call-nil_dereference_example =
    process_rpc_call-nil_dereference plain plain (codes "bob") (clock ∷ []) unknown (codes "i1")
      (call_of (codes "Ping")) (call_header (codes "Ping")) 0 (codes "now") (codes "now") no_other
      refl is_ping refl refl
