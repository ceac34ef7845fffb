-- ===== src/Nefario/Cycle.antt =====
-- nefario/nefario.go: what the cycle of Run leaves running.
use godev.Prelude.{
  ◌⊎◌, Bool, ℕ, suc, ◌≤◌, arith, map, true, false, List, [], ◌∷◌, ◌++◌, Option, none, some, Bytes,
  bytes_eq, bytes_eq_iff, get, ◌≡◌, refl, ◌∙◌, inl, inr, Bool-cases, All, get-put,
}
use godev.Nefario.Consumers.{
  with_servers, run_update_cycle, DbServer, Consumer, Consumers, same_row, has_server, adds_of,
  changed_of, gone_of, stop_all, start_all, add_if,
}
use godev.Nefario.Cancels.{
  Among, Among-left, Among-right, all_of, append-All, gone_of-All, changed_of-All, gone_of-Among,
  stop_all-cancelled, stop_all-contexts, start_all-cancelled, start_all-contexts,
}
use godev.Nefario.Own.{stop_all-IsOwn, start_all-IsOwn}
use godev.Nefario.Stops.{has_consumer, start_other, stop_other, stop_none, stop_one}
use godev.Nefario.Changes.{
  IsOwn, adds_other, changed_other, gone_one, gone_other, adds_append, changed_append, start_append,
  consumer_append, server_append,
}

-- The consumers that a cycle stops, in its order.
abbrev stopped_of : List DbServer → Consumers → List Consumer
stopped_of rs s = changed_of s.by_uid rs ++ gone_of rs s.by_uid

abbrev Cycled : List DbServer → Consumers → Consumers
Cycled rs s =
    start_all (adds_of s.by_uid rs) (stop_all (changed_of s.by_uid rs ++ gone_of rs s.by_uid) s)

-- No server: the consumer is stopped.
gone_none :
    (k : Bytes) (rs : List DbServer) (s : Consumers)
    → All IsOwn s.by_uid
    → has_server k rs ≡ false
    → get k (Cycled rs s).by_uid ≡ none
gone_none k rs s own n =
    start_other k (adds_of s.by_uid rs) _ (adds_other s.by_uid own k rs n)
    ∙ by_found (get k s.by_uid) refl
  where
    all : List Consumer
    all = changed_of s.by_uid rs ++ gone_of rs s.by_uid

    by_found : (o : Option Consumer) → get k s.by_uid ≡ o → get k (stop_all all s).by_uid ≡ none
    by_found none e = stop_none k all s e
    by_found (some c) e = stop_one k all s (
        consumer_append k (changed_of s.by_uid rs) (gone_of rs s.by_uid)
        ∙ (rw (changed_other s.by_uid own k rs n) (gone_one rs k s.by_uid c own e n)))

module _ (xs : List DbServer) (r : DbServer) (ys : List DbServer) (s : Consumers)
    (own : All IsOwn s.by_uid) (before : has_server r.server_uid xs ≡ false)
    (after : has_server r.server_uid ys ≡ false) where
  has_here : (zs : List DbServer) → has_server r.server_uid (zs ++ (r ∷ ys)) ≡ true
  unfolding has_server
  has_here [] = rw ((bytes_eq_iff r.server_uid r.server_uid).1 refl) refl
  has_here (z ∷ zs) = elim (Bool-cases (bytes_eq z.server_uid r.server_uid)) [
    | inl l ↦ rw l refl
    | inr l ↦ rw l (has_here zs)
  ]

  -- Its consumer is not stopped if the row is the same, and is if it is another.
  same_unstopped :
      (c : Consumer)
      → get r.server_uid s.by_uid ≡ some c
      → same_row c.row r ≡ true
      → has_consumer r.server_uid (stopped_of (xs ++ (r ∷ ys)) s) ≡ false
  unfolding changed_of
  same_unstopped c e same =
      rw
        (
          consumer_append r.server_uid (changed_of s.by_uid (xs ++ (r ∷ ys)))
              (gone_of (xs ++ (r ∷ ys)) s.by_uid),
          changed_append s.by_uid xs (r ∷ ys),
          e,
          same,
          consumer_append r.server_uid (changed_of s.by_uid xs) (changed_of s.by_uid ys),
          changed_other s.by_uid own r.server_uid xs before,
          changed_other s.by_uid own r.server_uid ys after,
        )
        (gone_other (xs ++ (r ∷ ys)) r.server_uid s.by_uid own (has_here xs))

  other_stopped :
      (c : Consumer)
      → get r.server_uid s.by_uid ≡ some c
      → same_row c.row r ≡ false
      → Among c (stopped_of (xs ++ (r ∷ ys)) s)
  unfolding changed_of Among
  other_stopped c e other =
      let all : Among c (changed_of s.by_uid (xs ++ (r ∷ ys))) =
        rw (changed_append s.by_uid xs (r ∷ ys), e, other)
          (Among-right c (changed_of s.by_uid xs) (c ∷ changed_of s.by_uid ys) (inl refl)) in
      Among-left c (changed_of s.by_uid (xs ++ (r ∷ ys))) (gone_of (xs ++ (r ∷ ys)) s.by_uid) all

  -- The server's row is the one that its consumer has: the consumer stays.
  same_kept :
      (c : Consumer)
      → get r.server_uid s.by_uid ≡ some c
      → same_row c.row r ≡ true
      → get r.server_uid (Cycled (xs ++ (r ∷ ys)) s).by_uid ≡ some c
  unfolding adds_of changed_of
  same_kept c e same =
      start_other r.server_uid _ _ (
        rw
          (
            adds_append s.by_uid xs (r ∷ ys),
            e,
            same,
            server_append r.server_uid (adds_of s.by_uid xs) (adds_of s.by_uid ys),
            adds_other s.by_uid own r.server_uid xs before,
          )
          (adds_other s.by_uid own r.server_uid ys after))
      ∙ (stop_other r.server_uid _ s (same_unstopped c e same) ∙ e)

  -- Another row, or no consumer: a new one is started.
  row_renewed :
      add_if s.by_uid (get r.server_uid s.by_uid) r (adds_of s.by_uid ys) ≡ r ∷ adds_of s.by_uid ys
      → (n : ℕ) × (s.contexts ≤ n)
        × (suc n ≤ (Cycled (xs ++ (r ∷ ys)) s).contexts)
        × (get r.server_uid (Cycled (xs ++ (r ∷ ys)) s).by_uid
            ≡ some (record { row = r; context = n }))
  unfolding adds_of start_all
  row_renewed e =
      let stopped =
        stop_all (changed_of s.by_uid (xs ++ (r ∷ ys)) ++ gone_of (xs ++ (r ∷ ys)) s.by_uid) s in
      let first = start_all (adds_of s.by_uid xs) stopped in
      (
        first.contexts,
        start_all-contexts (adds_of s.by_uid xs) stopped s.contexts (
            rw
              (stop_all-contexts
                (changed_of s.by_uid (xs ++ (r ∷ ys)) ++ gone_of (xs ++ (r ∷ ys)) s.by_uid) s)
              (omega arith)),
        rw
            (
              adds_append s.by_uid xs (r ∷ ys),
              e,
              start_append (adds_of s.by_uid xs) (r ∷ adds_of s.by_uid ys) stopped,
            )
            (start_all-contexts (adds_of s.by_uid ys) _ (suc first.contexts) (omega arith)),
        rw
            (
              adds_append s.by_uid xs (r ∷ ys),
              e,
              start_append (adds_of s.by_uid xs) (r ∷ adds_of s.by_uid ys) stopped,
            )
            (start_other r.server_uid (adds_of s.by_uid ys) _
                (adds_other s.by_uid own r.server_uid ys after)
              ∙ get-put r.server_uid _ first.by_uid),
      )

-- What is so of a server after the cycle that stops some consumers: its consumer had its row, stays the
-- same and is not stopped; or it had none, or one with another row, which is stopped, and one with its
-- row was started in a context that the cycle made.
pub data Runs (s s' : Consumers) (stopped : List Consumer) (r : DbServer) : Type 0 where
  stays :
      (c : Consumer)
      → get r.server_uid s.by_uid ≡ some c
      → same_row c.row r ≡ true
      → get r.server_uid s'.by_uid ≡ some c
      → has_consumer r.server_uid stopped ≡ false
      → Runs s s' stopped r
  starts :
      (n : ℕ)
      → (get r.server_uid s.by_uid ≡ none)
        ⊎ ((c : Consumer) × (get r.server_uid s.by_uid ≡ some c)
            × (same_row c.row r ≡ false)
            × Among c stopped)
      → s.contexts ≤ n
      → suc n ≤ s'.contexts
      → get r.server_uid s'.by_uid ≡ some (record { row = r; context = n })
      → Runs s s' stopped r

-- No consumer is under the uid after a cycle, and one that was there before is stopped.
abbrev pub Ends : Bytes → Consumers → Consumers → List Consumer → Type 0
Ends k s s' stopped =
    (get k s'.by_uid ≡ none)
    × ((get k s.by_uid ≡ none) ⊎ ((c : Consumer) × (get k s.by_uid ≡ some c) × Among c stopped))

-- A cycle on the rows of the servers, over consumers that stand under their uids: it gives no error
-- and cancels, after those that were cancelled before, the contexts of the consumers that it stops and
-- of no others, all of them consumers that were running. A server whose uid no other row has keeps its
-- consumer, which is not stopped, if the row is the same; otherwise one that it has is stopped, and a
-- new one is started with a context that the cycle made. No consumer is left under a uid that no
-- server has, and the one that was there is stopped. All consumers stand under their uids again.
pub run_update_cycle-Runs :
    (xs : List DbServer) (r : DbServer) (ys : List DbServer) (s : Consumers) (k : Bytes)
    → All IsOwn s.by_uid
    → has_server r.server_uid xs ≡ false
    → has_server r.server_uid ys ≡ false
    → (let (ok, s') = run_update_cycle (some (xs ++ (r ∷ ys))) s in
        (ok ≡ true)
        × All IsOwn s'.by_uid
        × (stopped : List Consumer) × (s'.cancelled
            ≡ s.cancelled ++ map (λ (c : Consumer). c.context) stopped)
        × All (λ c. Among c (all_of s.by_uid)) stopped
        × Runs s s' stopped r
        × ((has_server k (xs ++ (r ∷ ys)) ≡ true) ⊎ Ends k s s' stopped))
run_update_cycle-Runs xs r ys s k own before after = rw (not_empty xs) (
  refl,
  own_still,
  stopped_of (xs ++ (r ∷ ys)) s,
  start_all-cancelled (adds_of s.by_uid (xs ++ (r ∷ ys))) _ ∙ stop_all-cancelled _ s,
  append-All (λ c. Among c (all_of s.by_uid)) (changed_of s.by_uid (xs ++ (r ∷ ys)))
      (gone_of (xs ++ (r ∷ ys)) s.by_uid)
      (changed_of-All (λ c. Among c (all_of s.by_uid)) s.by_uid (xs ++ (r ∷ ys)) λ c h. h)
      (gone_of-All (λ c. Among c (all_of s.by_uid)) (xs ++ (r ∷ ys)) s.by_uid λ c h. h),
  by_found (get r.server_uid s.by_uid) refl,
  by_name (has_server k (xs ++ (r ∷ ys))) refl,
)
  where
    own_still : All IsOwn (Cycled (xs ++ (r ∷ ys)) s).by_uid
    own_still = start_all-IsOwn (adds_of s.by_uid (xs ++ (r ∷ ys))) _ (stop_all-IsOwn _ s own)

    not_empty :
        (zs : List DbServer) → with_servers (zs ++ (r ∷ ys)) s ≡ (true, Cycled (zs ++ (r ∷ ys)) s)
    not_empty [] = refl
    not_empty (z ∷ zs) = refl

    by_found :
        (o : Option Consumer)
        → get r.server_uid s.by_uid ≡ o
        → Runs s (Cycled (xs ++ (r ∷ ys)) s) (stopped_of (xs ++ (r ∷ ys)) s) r
    by_found none e =
        let (n, low, high, p) = row_renewed xs r ys s own before after (rw e refl) in
        starts n (inl e) low high p
    by_found (some c) e = elim (Bool-cases (same_row c.row r)) [
      | inl l ↦
          stays c e l (same_kept xs r ys s own before after c e l)
            (same_unstopped xs r ys s own before after c e l)
      | inr l ↦
          let (n, low, high, p) = row_renewed xs r ys s own before after (rw (e, l) refl) in
          let gone = other_stopped xs r ys s own before after c e l in
          starts n (inr (c, e, l, gone)) low high p
    ]

    by_absent :
        has_server k (xs ++ (r ∷ ys)) ≡ false
        → (o : Option Consumer) → get k s.by_uid ≡ o
        → (get k s.by_uid ≡ none)
          ⊎ ((c : Consumer) × (get k s.by_uid ≡ some c) × Among c (stopped_of (xs ++ (r ∷ ys)) s))
    by_absent n none e = inl e
    by_absent n (some c) e = inr (
      c,
      e,
      Among-right c (changed_of s.by_uid (xs ++ (r ∷ ys))) (gone_of (xs ++ (r ∷ ys)) s.by_uid)
          (gone_of-Among k (xs ++ (r ∷ ys)) s.by_uid c e n),
    )

    by_name :
        (b : Bool)
        → has_server k (xs ++ (r ∷ ys)) ≡ b
        → (has_server k (xs ++ (r ∷ ys)) ≡ true)
          ⊎ Ends k s (Cycled (xs ++ (r ∷ ys)) s) (stopped_of (xs ++ (r ∷ ys)) s)
    by_name true n = inl n
    by_name false n = inr (gone_none k (xs ++ (r ∷ ys)) s own n, by_absent n (get k s.by_uid) refl)
