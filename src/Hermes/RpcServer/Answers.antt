-- ===== src/Hermes/RpcServer/Answers.antt =====
-- ProcessRpcCall and RunMessageReaderLoop of hermes/rpcserver/hermes_rpcserver.go: which handler serves a
-- call, and what the answer carries.
use mathlib.Core.Path.{subst}
use godev.Prelude.{
  Bool, false, List, [], ◌∷◌, Option, none, some, Bytes, bytes_eq, bytes_eq_iff, get, put,
  get-put_if, to_lower, last_with, or_else, or_else_assoc, if_named, if◌then◌else◌, ◌≡◌, ◌∙◌, refl,
  sym, ap, inl, inr, Bool-cases,
}
use godev.Hermes.Message.{
  success_response, error_response, MessageHeader, Message, rpc_header_of, SendMessageRequest,
}
use godev.Hermes.Publish.{end_point_of}
use godev.Hermes.RpcServer.{
  Tried, given, error, HandlerS, RpcServer, Reply, replies, content_type_of, is_protobuf,
  reply_message, reply_to, body_of, handle, register_handler, register_handlers, found_handler,
  decoded, called, marshalled, error_resp,
}

-- The message that answers a call: it goes to the sender of the call, under the call's correlation
-- identifier and end point, and carries the bytes or the error.
abbrev pub answer_to : Bytes → Bytes → MessageHeader → Tried Bytes → SendMessageRequest
answer_to sender id hd (given body) =
    reply_to hd.sender id (reply_message sender hd.rpc_header success_response none body)
answer_to sender id hd (error text) =
    reply_to hd.sender id (reply_message hd.sender hd.rpc_header error_response (some text) [])

module _ {S : Type 0} where
  abbrev pub lower_name : HandlerS S → Bytes
  lower_name h = to_lower h.end_point

  pub get-register_handler :
      (h : HandlerS S) (rs : RpcServer S) (k : Bytes)
      → to_lower k ≡ k
      → get k (register_handler h rs).handler_by_end_point
        ≡ (if bytes_eq (lower_name h) k then some h else get k rs.handler_by_end_point)
  unfolding register_handler
  get-register_handler h rs k low =
      get-put_if k (lower_name h) h (put h.end_point h rs.handler_by_end_point)
      ∙ elim (Bool-cases (bytes_eq (lower_name h) k)) [
        | inl e ↦ rw e refl
        | inr e ↦ rw (e, get-put_if k h.end_point h rs.handler_by_end_point, other e) refl
      ]
    where
      other : bytes_eq (lower_name h) k ≡ false → bytes_eq h.end_point k ≡ false
      other e = elim (Bool-cases (bytes_eq h.end_point k)) [
        | inl f ↦
            let g : lower_name h ≡ k = ap to_lower ((bytes_eq_iff h.end_point k).0 f) ∙ low in
            absurd (cc (sym e ∙ (bytes_eq_iff (lower_name h) k).1 g))
        | inr f ↦ f
      ]

  abbrev pub with_server : Bytes → Option (HandlerS S) → Option (HandlerS S)
  with_server sender none = none
  with_server sender (some h) = some (record h { server = some sender })

  with_server-or_else :
      (sender : Bytes) (a b : Option (HandlerS S))
      → with_server sender (or_else a b) ≡ or_else (with_server sender a) (with_server sender b)
  with_server-or_else sender none b = refl
  with_server-or_else sender (some h) b = refl

  -- The handler that the names of a registration lead to.
  pub get-register_handlers :
      (hs : List (HandlerS S)) (rs : RpcServer S) (k : Bytes)
      → to_lower k ≡ k
      → get k (register_handlers hs rs).handler_by_end_point
        ≡ or_else
            (with_server rs.sender (last_with lower_name k hs))
            (get k rs.handler_by_end_point)
  unfolding register_handlers register_handler last_with
  get-register_handlers [] rs k low = refl
  get-register_handlers (h ∷ hs) rs k low =
      let h' : HandlerS S = record h { server = some rs.sender } in
      get-register_handlers hs (register_handler h' rs) k low
      ∙ (rw
          (
            get-register_handler h' rs k low,
            with_server-or_else rs.sender (last_with lower_name k hs) (if_named lower_name k h),
          )
          (elim (Bool-cases (bytes_eq (lower_name h) k)) [
            | inl e ↦
                rw
                  (
                    e,
                    or_else_assoc (with_server rs.sender (last_with lower_name k hs)) (some h')
                        (get k rs.handler_by_end_point),
                  )
                  refl
            | inr e ↦
                rw
                  (
                    e,
                    or_else_assoc (with_server rs.sender (last_with lower_name k hs)) none
                        (get k rs.handler_by_end_point),
                  )
                  refl
          ]))

  -- The bytes of the answer that a handler is to give, or the text of an error, and the state: the
  -- request is decoded, served and its answer encoded.
  abbrev encoded : (h : HandlerS S) → Bool → Tried h.Resp × S → Tried Bytes × S
  encoded h b (given resp, s) = (h.marshal b resp, s)
  encoded h b (error text, s) = (error text, s)

  abbrev served_request : (h : HandlerS S) → Bool → S → Tried h.Req → Tried Bytes × S
  served_request h b s (given req) = encoded h b (h.call req s)
  served_request h b s (error text) = (error text, s)

  abbrev pub serve :
      (Bytes → Bytes) → Option (HandlerS S) → Message → MessageHeader → S → Tried Bytes × S
  serve no_handler none msg hd s = (error (no_handler (end_point_of hd.rpc_header)), s)
  serve no_handler (some h) msg hd s =
      let b = is_protobuf hd.content_type in
      served_request h b s (h.unmarshal b (body_of b msg.data_bytes))

  marshalled-answer :
      (h : HandlerS S) (sender id : Bytes) (hd : MessageHeader) (t : Tried Bytes)
      → marshalled (record h { server = some sender }) id (some hd) t
        ≡ replies (answer_to sender id hd t)
  marshalled-answer h sender id hd (given body) = refl
  marshalled-answer h sender id hd (error text) = refl

  called-answer :
      (h : HandlerS S) (sender id : Bytes) (b : Bool) (hd : MessageHeader) (t : Tried h.Resp × S)
      → (let h' : HandlerS S = record h { server = some sender } in
          called h' b id (some hd) t
          ≡ (replies (answer_to sender id hd (encoded h' b t).0), (encoded h' b t).1))
  called-answer h sender id b hd (given resp, s) =
      ap (λ (r : Reply). (r, s)) (marshalled-answer h sender id hd (h.marshal b resp))
  called-answer h sender id b hd (error text, s) = refl

  decoded-answer :
      (h : HandlerS S) (sender id : Bytes) (b : Bool) (hd : MessageHeader) (s : S) (t : Tried h.Req)
      → (let h' : HandlerS S = record h { server = some sender } in
          decoded h' b id (some hd) s t ≡ (
            replies (answer_to sender id hd (served_request h' b s t).0),
            (served_request h' b s t).1,
          ))
  decoded-answer h sender id b hd s (given req) = called-answer h sender id b hd (h.call req s)
  decoded-answer h sender id b hd s (error text) = refl

  handle-serve :
      (no_handler : Bytes → Bytes) (sender id : Bytes) (h : HandlerS S) (msg : Message)
      (hd : MessageHeader) (s : S)
      → msg.header ≡ some hd
      → (let out = serve no_handler (some (record h { server = some sender })) msg hd s in
          handle (record h { server = some sender }) id msg s
          ≡ (replies (answer_to sender id hd out.0), out.1))
  unfolding handle
  handle-serve no_handler sender id h msg hd s e =
      let b = is_protobuf hd.content_type in
      let h' : HandlerS S = record h { server = some sender } in
      let t = h.unmarshal b (body_of b msg.data_bytes) in
      subst
        (λ (o : Option MessageHeader).
          decoded h' (is_protobuf (content_type_of o)) id o s (
            h.unmarshal (is_protobuf (content_type_of o))
              (body_of (is_protobuf (content_type_of o)) msg.data_bytes))
          ≡ (
            replies (answer_to sender id hd (served_request h' b s t).0),
            (served_request h' b s t).1,
          ))
        (sym e) (decoded-answer h sender id b hd s t)

  pub found-answer :
      (no_handler : Bytes → Bytes) (sender id : Bytes) (o : Option (HandlerS S)) (msg : Message)
      (hd : MessageHeader) (s : S)
      → msg.header ≡ some hd
      → (let out = serve no_handler (with_server sender o) msg hd s in
          found_handler no_handler id msg s (with_server sender o)
          ≡ (replies (answer_to sender id hd out.0), out.1))
  found-answer no_handler sender id (some h) msg hd s e =
      handle-serve no_handler sender id h msg hd s e
  found-answer no_handler sender id none msg hd s e =
      ap
        (λ (o : Option MessageHeader).
          (error_resp id o (no_handler (end_point_of (rpc_header_of o))), s))
        e
