-- ===== src/Hermes/Session/Stopping.antt =====
-- hermes/activews.go: which queues were started for a session, and what unsubscribing does.
use mathlib.Core.Path.{subst}
use godev.Prelude.{
  ℕ, List, [], ◌∷◌, ◌++◌, Option, none, some, Bytes, get, delete, bytes_eq, get-put_if,
  get-delete_if, All, ◌≡◌, ◌∙◌, ◌⊎◌, inl, inr, refl, sym, ap, Bool-cases, Option-cases,
  if◌then◌else◌, bytes_eq_iff,
}
use godev.Hermes.Session.{
  ClientSubscription, Queue, queue_of, Session, subs_or_nil, add_subscription, register_client_sub,
  un_register_sub, end_nats, end_one,
}

abbrev pub Started : Queue → List Queue → Type 0
Started q [] = ⊥
Started q (x ∷ xs) = (q ≡ x) ⊎ Started q xs

-- A subscription that was registered: no NATS subscription is known for it, and its queue was started.
abbrev pub Unstoppable : List Queue → ClientSubscription → Type 0
Unstoppable qs c = (c.nats_subscription ≡ none) × Started (queue_of c) qs

pub record NoneEnded (s : Session) : Type 0 where
  pub none_ended : s.unsubscribed ≡ []
  pub all_started :
      (k : Bytes) (subs : List ClientSubscription)
      → get k s.subscriptions_by_id ≡ some subs
      → All (Unstoppable s.queues) subs

later_queue :
    (q : Queue) (qs : List Queue) (subs : List ClientSubscription)
    → All (Unstoppable qs) subs
    → All (Unstoppable (q ∷ qs)) subs
later_queue q qs [] h = tt
later_queue q qs (c ∷ cs) ((n, r), h) = ((n, inr r), later_queue q qs cs h)

All-snoc :
    (qs : List Queue) (subs : List ClientSubscription) (c : ClientSubscription)
    → All (Unstoppable qs) subs
    → Unstoppable qs c
    → All (Unstoppable qs) (subs ++ c ∷ [])
All-snoc qs [] c h u = (u, tt)
All-snoc qs (d ∷ subs) c (v, h) u = (v, All-snoc qs subs c h u)

end_nats_none :
    (qs : List Queue) (subs : List ClientSubscription) (s : Session)
    → All (Unstoppable qs) subs
    → end_nats subs s ≡ s
end_nats_none qs [] s h = refl
end_nats_none qs (c ∷ cs) s ((n, r), h) =
    ap (λ (o : Option ℕ). end_nats cs (end_one o s)) n ∙ end_nats_none qs cs s h

subs_or_nil-All :
    (s : Session) (q : Queue) (k : Bytes)
    → NoneEnded s
    → All (Unstoppable (q ∷ s.queues)) (subs_or_nil (get k s.subscriptions_by_id))
subs_or_nil-All s q k w = elim (Option-cases (get k s.subscriptions_by_id)) [
  | inl e ↦ rw e tt
  | inr (subs, e) ↦ rw e (later_queue q s.queues subs (w.all_started k subs e))
]

pub register_client_sub-NoneEnded :
    (c : ClientSubscription) (s : Session)
    → c.nats_subscription ≡ none
    → NoneEnded s
    → NoneEnded (register_client_sub c s)
unfolding register_client_sub add_subscription
register_client_sub-NoneEnded c s n w = record {
  none_ended = w.none_ended;
  all_started = λ k subs e.
      let registered = subs_or_nil (get c.id s.subscriptions_by_id) ++ c ∷ [] in
      let f : (if bytes_eq c.id k then some registered else get k s.subscriptions_by_id)
          ≡ some subs =
        sym (get-put_if k c.id registered s.subscriptions_by_id) ∙ e in
      elim (Bool-cases (bytes_eq c.id k)) [
        | inl same ↦
            let g : some registered ≡ some subs = rw same at f in
            let h : registered ≡ subs = cc in
            subst (All (Unstoppable (queue_of c ∷ s.queues))) h (
              All-snoc (queue_of c ∷ s.queues) (subs_or_nil (get c.id s.subscriptions_by_id)) c
                (subs_or_nil-All s (queue_of c) c.id w) (n, inl refl))
        | inr other ↦ later_queue (queue_of c) s.queues subs (w.all_started k subs (rw other at f))
      ];
}

delete-NoneEnded :
    (id : Bytes) (s : Session)
    → NoneEnded s
    → NoneEnded (record s { subscriptions_by_id = delete id s.subscriptions_by_id })
delete-NoneEnded id s w = record {
  none_ended = w.none_ended;
  all_started = λ k subs e.
      let f : (if bytes_eq id k then none else get k s.subscriptions_by_id) ≡ some subs =
        sym (get-delete_if k id s.subscriptions_by_id) ∙ e in
      elim (Bool-cases (bytes_eq id k)) [
        | inl same ↦ let g : none ≡ some subs = rw same at f in absurd (cc)
        | inr other ↦ w.all_started k subs (rw other at f)
      ];
}

deleted : (id : Bytes) (m : List (Bytes × List ClientSubscription)) → get id (delete id m) ≡ none
deleted id m = rw (get-delete_if id id m, (bytes_eq_iff id id).1 refl) refl

-- What unregistering leaves.
pub un_register_sub-NoneEnded :
    (id : Bytes) (s : Session)
    → NoneEnded s
    → (let s' = (un_register_sub id s).1 in
        NoneEnded s'
        × (get id s'.subscriptions_by_id ≡ none)
        × (s' ≡ record s { subscriptions_by_id = s'.subscriptions_by_id }))
unfolding un_register_sub
un_register_sub-NoneEnded id s w = elim (Option-cases (get id s.subscriptions_by_id)) [
  | inl e ↦ rw e (w, e, refl)
  | inr (subs, e) ↦
      rw (e, end_nats_none s.queues subs s (w.all_started id subs e))
        (delete-NoneEnded id s w, deleted id s.subscriptions_by_id, refl)
]
