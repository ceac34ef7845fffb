-- ===== src/Hermes/Timeouts.antt =====
-- hermes/api/hermes-api.go: what becomes of an RPC call, with the reader of hermes/mailbox.go.
use mathlib.Core.Path.{subst, sym}
use godev.Prelude.{
  ℕ, suc, ◌≤◌, arith, Bool, List, [], ◌∷◌, map, Option, none, some, Bytes, ◌≡◌, ◌≢◌, refl, ap, ◌∙◌,
  ℤ, ==_iff, ◌<◌, without,
}
use godev.Hermes.Name.{Name, Allocated-mono, new_name, Allocated, same-fresh}
use godev.Hermes.Message.{
  FrameType, unspecified, request, error_response, success_response, RpcHeader, Message,
  rpc_header_of, SendMessageRequest,
}
use godev.Hermes.Mailbox.{
  Mailbox, Handled, handle_inbox, handle_frame, handle_response, delivers, ignores, no_correlation,
  requests, no_handler, nil_dereference, register_correlation, remove_correlation, has_sent,
  sent_of,
}
use godev.Hermes.Store.{Services, Store}
use godev.Hermes.Publish.{Sent, direct_publish, send_request, send_message, set_sender}
use godev.Hermes.Fresh.{Drops, handle_inbox-Drops}
use godev.Hermes.Rpc.{
  RpcRequest, Awaited, responds, await_handled, await, registered, wait_for, raw_rpc_call,
  call_request,
}
use godev.Hermes.Growth.{direct_publish-Grows}

abbrev pub NoResponse : Awaited → Type 0
NoResponse a = (msg : Message) → a ≢ responds msg

abbrev pub ids : List (Name × ℕ) → List Name
ids = map (λ (c : Name × ℕ). c.0)

handled-NoResponse :
    (ch : ℕ) (msg : Message) (rest : Awaited) (h : Handled)
    → Drops h
    → NoResponse rest
    → NoResponse (await_handled ch msg rest h)
handled-NoResponse ch msg rest (delivers ch') d r m = absurd (d ch' refl)
handled-NoResponse ch msg rest ignores d r m = r m
handled-NoResponse ch msg rest no_correlation d r m = r m
handled-NoResponse ch msg rest requests d r m = r m
handled-NoResponse ch msg rest no_handler d r m = r m
handled-NoResponse ch msg rest nil_dereference d r m = cc

response-later :
    (text : Bytes) (free : ℕ) (cs : List (Name × ℕ)) → free ≤ (handle_response text free cs).1
unfolding handle_response new_name
response-later [] free cs = ground arith
response-later (c ∷ text) free cs = ground arith

frame-later :
    (f : FrameType) (id : Bytes) (b : Bool) (free : ℕ) (m : Mailbox)
    → free ≤ (handle_frame f id b free m).1
frame-later unspecified id b free m = ground arith
frame-later request id b free m = ground arith
frame-later error_response id b free m = response-later id free m.correlations
frame-later success_response id b free m = response-later id free m.correlations

handle_inbox-later :
    (h : Option RpcHeader) (b : Bool) (free : ℕ) (m : Mailbox) → free ≤ (handle_inbox h b free m).1
unfolding handle_inbox
handle_inbox-later none b free m = ground arith
handle_inbox-later (some h) b free m = frame-later h.frame_type h.correlation_id b free m

await-NoResponse :
    (ch : ℕ) (b : Bool) (inbox : List Message) (free : ℕ) (m : Mailbox)
    → Allocated free (ids m.correlations)
    → NoResponse (await ch b inbox free m)
unfolding await
await-NoResponse ch b [] free m a = λ msg. cc
await-NoResponse ch b (x ∷ inbox) free m a =
    let q = handle_inbox (rpc_header_of x.header) b free m in
    handled-NoResponse ch x (await ch b inbox q.1 m) q.0
      (handle_inbox-Drops (rpc_header_of x.header) b free m a)
      (await-NoResponse ch b inbox q.1 m (
        Allocated-mono free q.1 (ids m.correlations)
          (handle_inbox-later (rpc_header_of x.header) b free m) a))

-- Removing a pointer that was just allocated changes nothing else.
remove-fresh :
    (n : Name) (cs : List (Name × ℕ)) → Allocated n.address (ids cs) → remove_correlation n cs ≡ cs
unfolding remove_correlation
remove-fresh n [] a = refl
remove-fresh n ((k, ch) ∷ cs) (h, a) = rw (same-fresh n k h, remove-fresh n cs a) refl

register-fresh :
    (n : Name) (ch : ℕ) (cs : List (Name × ℕ))
    → Allocated n.address (ids cs)
    → register_correlation n ch cs ≡ (n, ch) ∷ cs
unfolding register_correlation
register-fresh n ch cs a = rw (remove-fresh n cs a) refl

remove-register :
    (n : Name) (ch : ℕ) (cs : List (Name × ℕ))
    → Allocated n.address (ids cs)
    → remove_correlation n (register_correlation n ch cs) ≡ cs
unfolding remove_correlation register_correlation
remove-register n ch cs a =
    rw ((==_iff n.address n.address).1 refl, remove-fresh n cs a) (remove-fresh n cs a)

module _ (e : Services) where
  abbrev Keeps : Mailbox → Option Sent → Type 0
  Keeps m none = Unit {0}
  Keeps m (some sent) = sent.sender.correlations ≡ m.correlations

  has_sent-correlations : (m : Mailbox) → (has_sent m).1.correlations ≡ m.correlations
  unfolding has_sent
  has_sent-correlations m = go m.sent
    where
      go : (o : Option Bool) → (sent_of m o).1.correlations ≡ m.correlations
      go none = refl
      go (some b) = refl

  message-Keeps :
      (now : ℤ) (r : SendMessageRequest) (m : Mailbox) (msg : Option Message) (s : Store)
      → Keeps m (send_message e now r m msg s).0
  message-Keeps now r m none s = tt
  message-Keeps now r m (some msg) s = has_sent-correlations m

  direct_publish-Keeps :
      (now : ℤ) (r : SendMessageRequest) (m : Mailbox) (s : Store)
      → Keeps m (direct_publish e now r m s).0
  unfolding direct_publish
  direct_publish-Keeps now r m s = go (set_sender m.mailbox_address.text r)
    where
      go : (o : Option SendMessageRequest) → Keeps m (send_request e now m o s).0
      go none = tt
      go (some r') = message-Keeps now r' m r'.message s

  -- The outcome of a call: no response, and the calls that wait as before.
  abbrev pub Unanswered : Mailbox → Awaited × (Mailbox × Store) → Type 0
  Unanswered from out = NoResponse out.0 × (out.1.0.correlations ≡ from.correlations)

  waited-Unanswered :
      (id : Name) (ch : ℕ) (b : Bool) (inbox : List Message) (from : Mailbox)
      (q : Option Sent × Store)
      → Allocated id.address (ids from.correlations)
      → id.address < q.1.free
      → Keeps (registered e from id ch) q.0
      → Unanswered from (wait_for e id ch b inbox (registered e from id ch) q)
  waited-Unanswered id ch b inbox from (none, s) a l k =
      ((λ msg. cc), remove-register id ch from.correlations a)
  waited-Unanswered id ch b inbox from (some sent, s) a l k =
      let cs = from.correlations in
      let eq = k ∙ register-fresh id ch cs a in
      (
        await-NoResponse ch b inbox s.free sent.sender (
            subst (λ x. Allocated s.free (ids x)) (sym eq)
              (l, Allocated-mono id.address s.free (ids cs) (ground arith) a)),
        ap (remove_correlation id) k ∙ remove-register id ch cs a,
      )

  -- An RPC call never returns a response, whatever messages come to the inbox of the caller before the
  -- call's context ends; the correlations of the mailbox are then those from before the call. The
  -- condition is that the pointers of the waiting calls were allocated before.
  pub raw_rpc_call-Unanswered :
      (now : ℤ) (r : RpcRequest) (body : Bytes) (ch : ℕ) (b : Bool) (inbox : List Message)
      (from : Mailbox) (s : Store)
      → Allocated s.free (ids from.correlations)
      → Unanswered from (raw_rpc_call e now r body ch b inbox from s)
  unfolding raw_rpc_call new_name
  raw_rpc_call-Unanswered now r body ch b inbox from s a =
      let id : Name = record { address = s.free; text = without b'-' (e.new_uuid s.uuids) } in
      let from' = registered e from id ch in
      let s' : Store = record s { uuids = suc (suc s.uuids); free = suc (suc s.free) } in
      let r' = call_request e now from r body s in
      waited-Unanswered id ch b inbox from (direct_publish e now r' from' s') a
        (ground (arith, direct_publish-Grows e now r' from' s'))
        (direct_publish-Keeps now r' from' s')
