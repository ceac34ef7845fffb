-- ===== src/Iter/Effects.antt =====
-- iter/iter.go: `ForEach` and `ForEachE` with a function that changes a state `T`, and `FromFn`.
use godev.Prelude.{
  ℕ, zero, suc, ◌+◌, ◌<◌, arith, Bool, true, false, List, [], ◌∷◌, Option, none, some, ◌≡◌, refl,
  length,
}
use godev.Iter.Iterator.{Result, gives, panics, runs_out, Iterator}
use godev.Iter.Yields.{Yields}

module _ {T E : Type 0} where
  -- What follows the call of the function: nothing after an error.
  abbrev pub unless_error : (T → Result (Option E × T)) → Option E × T → Result (Option E × T)
  unless_error loop (none, t) = loop t
  unless_error loop (some x, t) = gives (some x, t)

  -- The same for a list.
  abbrev pub after_call : (T → Option E × T) → Option E × T → Option E × T
  after_call rest (none, t) = rest t
  after_call rest (some x, t) = (some x, t)

  unless_error-after_call :
      (loop : T → Result (Option E × T)) (rest : T → Option E × T) (r : Option E × T)
      → ((t : T) → loop t ≡ gives (rest t))
      → unless_error loop r ≡ gives (after_call rest r)
  unless_error-after_call loop rest (none, t) h = h t
  unless_error-after_call loop rest (some x, t) h = refl

module _ {A T E : Type 0} where
  abbrev pub each_value :
      (A → T → Option E × T) → (T → Result (Option E × T)) → T → Result A → Result (Option E × T)
  each_value fn loop t (gives a) = unless_error loop (fn a t)
  each_value fn loop t panics = panics
  each_value fn loop t runs_out = runs_out

  -- The calls of the function on the elements of a list, in order, until the first error.
  unfoldable pub call_all : (A → T → Option E × T) → List A → T → Option E × T
  call_all fn [] t = (none, t)
  call_all fn (a ∷ xs) t = after_call (λ t'. call_all fn xs t') (fn a t)

module _ {S A T E : Type 0} where
  abbrev pub each_turn :
      Iterator S A
      → (A → T → Option E × T)
      → (S → T → Result (Option E × T))
      → T
      → Result (Bool × S)
      → Result (Option E × T)
  each_turn it fn loop t (gives (false, s)) = gives (none, t)
  each_turn it fn loop t (gives (true, s)) = each_value fn (loop s) t (it.value s)
  each_turn it fn loop t panics = panics
  each_turn it fn loop t runs_out = runs_out

  -- `ForEachE`
  unfoldable pub for_each_err :
      Iterator S A → (A → T → Option E × T) → ℕ → S → T → Result (Option E × T)
  for_each_err it fn zero s t = runs_out
  for_each_err it fn (suc n) s t =
      each_turn it fn (λ s' t'. for_each_err it fn n s' t') t (it.next n s)

  -- An iterator that yields a list, with enough fuel: ForEachE calls the function on the elements in
  -- order, stops at the first error and gives it, and leaves the state that these calls leave.
  pub for_each_err-call_all :
      (bound : ℕ) (it : Iterator S A) (fn : A → T → Option E × T) (xs : List A) (n : ℕ) (s : S)
      (t : T)
      → Yields bound it s xs
      → bound + length xs < n
      → for_each_err it fn n s t ≡ gives (call_all fn xs t)
  unfolding for_each_err call_all Yields
  for_each_err-call_all bound it fn xs zero s t y h = absurd (ground arith)
  for_each_err-call_all bound it fn [] (suc n) s t (s', e) h = rw (e n (ground arith)) refl
  for_each_err-call_all bound it fn (a ∷ xs) (suc n) s t (s', (e, (v, y))) h =
      rw (e n (ground arith), v)
        (unless_error-after_call (for_each_err it fn n s') (call_all fn xs) (fn a t)
          (λ t'. for_each_err-call_all bound it fn xs n s' t' y (ground arith)))

-- `FromFn`; the state has the last value, at first the zero value of the type.
unfoldable pub from_fn : {A T : Type 0} → (T → (A × Bool) × T) → Iterator (A × T) A
from_fn fn = record {
  next = λ n s. let ((a, more), t) = fn s.1 in gives (more, (a, t));
  value = λ s. gives s.0;
}
