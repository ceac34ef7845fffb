-- ===== src/Hermes/RpcServer/Calls.antt =====
-- ProcessRpcCall and RunMessageReaderLoop of hermes/rpcserver/hermes_rpcserver.go on a server that
-- NewRpcServer made and that has further handlers.
use godev.Prelude.{
  Bool, false, List, [], ◌∷◌, Option, none, some, Bytes, codes, bytes_eq, bytes_eq_iff, get, All,
  to_lower, to_lower_twice, last_with, or_else, none_right, if◌then◌else◌, ◌≡◌, ◌≢◌, ◌∙◌, refl, sym,
  ap, inl, inr, Bool-cases,
}
use godev.Hermes.Message.{MessageHeader, Message, rpc_header_of, SendMessageRequest}
use godev.Hermes.Publish.{end_point_of}
use godev.Hermes.RpcServer.{
  Tried, HandlerS, RpcServer, Reply, replies, register_handlers, process_rpc_call, found_handler,
  run_message_reader_loop, then_answer, new_rpc_server, ping_handler,
}
use godev.Hermes.RpcServer.Answers.{
  lower_name, get-register_handler, get-register_handlers, with_server, serve, answer_to,
  found-answer,
}

module _ {S : Type 0} (unmarshal_ping marshal_pong : Bool → Bytes → Tried Bytes) (sender : Bytes)
    (hs : List (HandlerS S)) where
  -- A server with the handler of ping and those of the list.
  abbrev pub server : RpcServer S
  server = register_handlers hs (new_rpc_server unmarshal_ping marshal_pong sender)

  -- The handler of a name: the last one registered under it in any case of letters.
  abbrev pub handler_named : Bytes → Option (HandlerS S)
  handler_named name = with_server sender (last_with lower_name (to_lower name) hs)

  pub get-server :
      (name : Bytes)
      → get (to_lower name) server.handler_by_end_point
        ≡ or_else (handler_named name) (
            if bytes_eq (codes "ping") (to_lower name)
            then some (ping_handler unmarshal_ping marshal_pong)
            else none)
  unfolding new_rpc_server get to_lower godev.Hermes.RpcServer.register_handler
  get-server name =
      get-register_handlers hs (new_rpc_server unmarshal_ping marshal_pong sender) (to_lower name)
        (to_lower_twice name)
      ∙ ap (or_else (handler_named name)) (
          get-register_handler (ping_handler unmarshal_ping marshal_pong)
            (record { handler_by_end_point = []; sender = sender }) (to_lower name)
            (to_lower_twice name))

  module _ (no_handler : Bytes → Bytes) where
    -- A call that has a header, of an end point other than ping: it is served by the handler that was
    -- registered last under the end point's name in any case of letters, and by none other; the answer
    -- goes to the sender of the call, under its correlation identifier, and carries the encoded result as
    -- a success, or the text of the error of decoding, serving or encoding, or of the lookup, as an error. The state is
    -- what serving leaves, or as it was where there is no handler.
    pub process_rpc_call-answer_to :
        (id : Bytes) (msg : Message) (hd : MessageHeader) (s : S)
        → msg.header ≡ some hd
        → to_lower (end_point_of hd.rpc_header) ≢ codes "ping"
        → (let out = serve no_handler (handler_named (end_point_of hd.rpc_header)) msg hd s in
            process_rpc_call no_handler server id msg s
            ≡ (replies (answer_to sender id hd out.0), out.1))
    unfolding process_rpc_call
    process_rpc_call-answer_to id msg hd s e ne =
        let name = end_point_of hd.rpc_header in
        let other : bytes_eq (codes "ping") (to_lower name) ≡ false =
          elim (Bool-cases (bytes_eq (codes "ping") (to_lower name))) [
            | inl f ↦ absurd (ne (sym ((bytes_eq_iff (codes "ping") (to_lower name)).0 f)))
            | inr f ↦ f
          ] in
        let found : get (to_lower name) server.handler_by_end_point ≡ handler_named name =
          get-server name ∙ (rw other (sym (none_right (handler_named name)))) in
        ap
          (λ (o : Option MessageHeader).
            found_handler no_handler id msg s
              (get (to_lower (end_point_of (rpc_header_of o))) server.handler_by_end_point))
          e
        ∙ (rw found (
            found-answer no_handler sender id (last_with lower_name (to_lower name) hs) msg hd s e))

    -- A message with a header that is not for ping.
    abbrev pub IsCall : Bytes × Message → Type 0
    IsCall c =
        (hd : MessageHeader) × (c.1.header ≡ some hd)
        × (to_lower (end_point_of hd.rpc_header) ≢ codes "ping")

    -- The publications that are asked for are those of the answers to the messages in their places, each
    -- from what its handler gives on the state that those before it left; and the last state.
    abbrev pub AnswersEach :
        List (Bytes × Message) → List SendMessageRequest → S → Option S → Type 0
    AnswersEach [] [] s o = o ≡ some s
    AnswersEach [] (smr ∷ out) s o = ⊥
    AnswersEach (c ∷ cs) [] s o = ⊥
    AnswersEach (c ∷ cs) (smr ∷ out) s o =
        (hd : MessageHeader) × (c.1.header ≡ some hd)
        × (let served = serve no_handler (handler_named (end_point_of hd.rpc_header)) c.1 hd s in
            (smr ≡ answer_to sender c.0 hd served.0) × AnswersEach cs out served.1 o)

    -- On messages with a header that are not for ping, and with handlers that do not panic, the loop
    -- asks for one publication for each message, in their order. It is that of the answer to the
    -- message's own sender, under its correlation identifier, with what the handler of its end point's
    -- name gives on the state that the messages before it left, be it a result or an error; and the loop
    -- ends in the state that the last message left. An error of a publication is only logged.
    pub run_message_reader_loop-AnswersEach :
        (cs : List (Bytes × Message)) (s : S)
        → All IsCall cs
        → (let out = run_message_reader_loop no_handler server cs s in AnswersEach cs out.0 s out.1)
    unfolding run_message_reader_loop
    run_message_reader_loop-AnswersEach [] s h = refl
    run_message_reader_loop-AnswersEach ((id, msg) ∷ cs) s ((hd, e, ne), rest) =
        let out = serve no_handler (handler_named (end_point_of hd.rpc_header)) msg hd s in
        rw (process_rpc_call-answer_to id msg hd s e ne)
          (hd, e, (refl, run_message_reader_loop-AnswersEach cs out.1 rest))
