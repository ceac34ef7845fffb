-- ===== src/Hermes/RpcServer/Ping.antt =====
-- The handler of ping that NewRpcServer of hermes/rpcserver/hermes_rpcserver.go registers.
use mathlib.Core.Path.{subst}
use godev.Prelude.{
  Bool, List, Option, none, some, Bytes, codes, get, to_lower, last_with, bytes_eq_iff, ◌≡◌, ◌∙◌,
  refl, sym, ap,
}
use godev.Hermes.Message.{MessageHeader, Message, rpc_header_of}
use godev.Hermes.Publish.{end_point_of}
use godev.Hermes.RpcServer.{
  Tried, given, HandlerS, nil_dereference, handle, content_type_of, is_protobuf, body_of,
  process_rpc_call, found_handler, ping_handler, decoded,
}
use godev.Hermes.RpcServer.Answers.{lower_name}
use godev.Hermes.RpcServer.Calls.{server, get-server}

module _ {S : Type 0} (unmarshal_ping marshal_pong : Bool → Bytes → Tried Bytes) (sender : Bytes)
    (hs : List (HandlerS S)) where
  -- A ping whose request is decoded and whose answer is encoded, on a server where no other handler was
  -- registered under that name, in any case of letters: the handler was made without a server, which it
  -- reads for the answer, so the call panics instead of answering.
  pub process_rpc_call-nil_dereference :
      (no_handler : Bytes → Bytes) (id : Bytes) (msg : Message) (hd : MessageHeader) (s : S)
      (payload out : Bytes)
      → last_with lower_name (codes "ping") hs ≡ none
      → msg.header ≡ some hd
      → to_lower (end_point_of hd.rpc_header) ≡ codes "ping"
      → unmarshal_ping
          (is_protobuf hd.content_type)
          (body_of (is_protobuf hd.content_type) msg.data_bytes)
        ≡ given payload
      → marshal_pong (is_protobuf hd.content_type) payload ≡ given out
      → (process_rpc_call no_handler (server unmarshal_ping marshal_pong sender hs) id msg s).0
        ≡ nil_dereference
  unfolding process_rpc_call handle
  process_rpc_call-nil_dereference no_handler id msg hd s payload out only e named decodes encodes =
      let ping : HandlerS S = ping_handler unmarshal_ping marshal_pong in
      let name = end_point_of hd.rpc_header in
      let found : get (to_lower name)
            (server unmarshal_ping marshal_pong sender hs).handler_by_end_point
          ≡ some ping =
        get-server unmarshal_ping marshal_pong sender hs name
        ∙ (rw (named, only, (bytes_eq_iff (codes "ping") (codes "ping")).1 refl) refl) in
      let panics : (handle ping id msg s).0 ≡ nil_dereference =
        subst
          (λ (o : Option MessageHeader).
            (decoded ping (is_protobuf (content_type_of o)) id o s (
              unmarshal_ping (is_protobuf (content_type_of o))
                (body_of (is_protobuf (content_type_of o)) msg.data_bytes))).0
            ≡ nil_dereference)
          (sym e) (rw (decodes, encodes) refl) in
      ap
        (λ (o : Option MessageHeader).
          (found_handler no_handler id msg s (
            get (to_lower (end_point_of (rpc_header_of o)))
              (server unmarshal_ping marshal_pong sender hs).handler_by_end_point)).0)
        e
      ∙ (rw found panics)
