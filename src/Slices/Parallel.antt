-- ===== src/Slices/Parallel.antt =====
-- RunPar of a8/a8.go: the sends of the worker goroutines, in any order.
use godev.Prelude.{
  ℕ, ◌+◌, ◌≡◌, List, [], ◌∷◌, ◌++◌, map, refl, length, length-append, arith, append_assoc, ◌⊎◌, ◌⊎◌,
  inl, append-nil, inr,
}
use godev.Slices.{Par, start_par, Send, send, Sends, none_sent, then}
use mathlib.Core.Path.{subst}
use mathlib.Core.List.Perm
use mathlib.Core.List.{Perm, perm_middle}

module _ {A : Type 0} {B : Type 0} (runner_fn : A → B) where
  -- What is sent and what is still to be sent are the results of all items; the channel has room for
  -- what is still to be sent.
  pub record Kept (items : List A) (p : Par A B) : Type 0 where
    pub all_results : Perm (p.results ++ map runner_fn p.pending) (map runner_fn items)
    pub room : length p.results + length p.pending ≡ p.capacity
    pub made_for_all : p.capacity ≡ length items

  start_par-Kept : (items : List A) → Kept items (start_par runner_fn items)
  start_par-Kept items = record {
    all_results = Perm.refl (map runner_fn items);
    room = omega arith;
    made_for_all = refl;
  }

  -- A result that is sent goes to the front of those that are not.
  sent-perm :
      (results : List B) (before after : List A) (item : A)
      → Perm
          ((results ++ runner_fn item ∷ []) ++ map runner_fn (before ++ after))
          (results ++ map runner_fn (before ++ item ∷ after))
  sent-perm results before after item =
      rw (append_assoc results (runner_fn item ∷ []) (map runner_fn (before ++ after))) (
        Perm.append_left results
          (Perm.symm (Perm.map runner_fn (perm_middle {a = item} before after))))

  Send-Kept : {items : List A} {p q : Par A B} → Send runner_fn p q → Kept items p → Kept items q
  Send-Kept {items} (send before item after results capacity fits) k = record {
    all_results = Perm.trans (sent-perm results before after item) k.all_results;
    room = omega (
      arith,
      k.room,
      length-append results (runner_fn item ∷ []),
      length-append before (item ∷ after),
      length-append before after,
    );
    made_for_all = k.made_for_all;
  }

  Sends-Kept :
      (items : List A) {p : Par A B} → Sends runner_fn (start_par runner_fn items) p → Kept items p
  Sends-Kept items none_sent = start_par-Kept items
  Sends-Kept items (then past next) = Send-Kept next (Sends-Kept items past)

  Send-next :
      (items pending : List A) (results : List B) (capacity : ℕ)
      → Kept items (record { pending = pending; results = results; capacity = capacity })
      → ((pending ≡ []) × Perm results (map runner_fn items))
        ⊎ ((q : Par A B) × Send runner_fn
              (record { pending = pending; results = results; capacity = capacity })
              q)
  Send-next items [] results capacity k =
      inl (refl, subst (λ x. Perm x (map runner_fn items)) (append-nil results) k.all_results)
  Send-next items (item ∷ after) results capacity k =
      inr (_, send [] item after results capacity (omega (arith, k.room)))

  -- RunPar, whatever the order in which its goroutines send: each send takes one item, and while
  -- an item is pending the channel has room for a send, so no goroutine is blocked; when none is pending,
  -- the results are those of the items, in some order, each as often as it is due.
  pub Sends-perm :
      (items : List A) {p : Par A B}
      → Sends runner_fn (start_par runner_fn items) p
      → (length p.results + length p.pending ≡ length items)
        × (((p.pending ≡ []) × Perm p.results (map runner_fn items))
            ⊎ ((q : Par A B) × Send runner_fn p q))
  Sends-perm items {p} sends =
      let k = Sends-Kept items sends in
      (omega (arith, k.room, k.made_for_all), Send-next items p.pending p.results p.capacity k)
