-- ===== src/Iter/Iterator.antt =====
-- iter/iter.go: an iterator is the two closures Next and Value over a state that they share. Next and
-- the loops that call it take fuel, since an iterator may never end.
use godev.Prelude.{
  ℕ, zero, suc, Bool, true, false, List, [], ◌∷◌, Option, none, some, ltb, length, get_elem?,
  if◌then◌else◌,
}

pub data Result (A : Type 0) : Type 0 where
  gives : A → Result A
  panics runs_out : Result A

-- `IteratorS`
pub record Iterator (S A : Type 0) : Type 0 where
  pub next : ℕ → S → Result (Bool × S)
  pub value : S → Result A

module _ {S A : Type 0} where
  -- `Empty`
  abbrev pub empty : Iterator S A
  empty = record { next = λ n s. gives (false, s); value = λ s. panics }

module _ {A : Type 0} where
  abbrev pub in_range : Option A → Result A
  in_range none = panics
  in_range (some a) = gives a

  -- The value at the index, which is one less than the state.
  abbrev pub slice_value : List A → ℕ → Result A
  slice_value slice zero = panics
  slice_value slice (suc i) = in_range (get_elem? slice i)

  -- `FromSlice`; the state is `i + 1`.
  unfoldable pub from_slice : List A → Iterator ℕ A
  from_slice slice = record {
    next = λ n i. gives (ltb i (length slice), suc i);
    value = slice_value slice;
  }

  abbrev pub map_result : {B : Type 0} → (A → B) → Result A → Result B
  map_result fn (gives a) = gives (fn a)
  map_result fn panics = panics
  map_result fn runs_out = runs_out

  abbrev pub add_value : Result A → Result (List A) → Result (List A)
  add_value (gives a) (gives xs) = gives (a ∷ xs)
  add_value (gives a) panics = panics
  add_value (gives a) runs_out = runs_out
  add_value panics rest = panics
  add_value runs_out rest = runs_out

module _ {S A : Type 0} where
  -- `Map`
  unfoldable pub map_iterator : {B : Type 0} → Iterator S A → (A → B) → Iterator S B
  map_iterator it fn = record { next = it.next; value = λ s. map_result fn (it.value s) }

  -- A turn of the loop of `Filter`, with what follows where the value does not fit.
  abbrev pub filter_value : (A → Bool) → S → Result (Bool × S) → Result A → Result (Bool × S)
  filter_value fn s rest (gives a) = if fn a then gives (true, s) else rest
  filter_value fn s rest panics = panics
  filter_value fn s rest runs_out = runs_out

  abbrev pub filter_turn :
      Iterator S A → (A → Bool) → (S → Result (Bool × S)) → Result (Bool × S) → Result (Bool × S)
  filter_turn it fn loop (gives (false, s)) = gives (false, s)
  filter_turn it fn loop (gives (true, s)) = filter_value fn s (loop s) (it.value s)
  filter_turn it fn loop panics = panics
  filter_turn it fn loop runs_out = runs_out

  unfoldable pub filter_next : Iterator S A → (A → Bool) → ℕ → S → Result (Bool × S)
  filter_next it fn zero s = runs_out
  filter_next it fn (suc n) s = filter_turn it fn (λ s'. filter_next it fn n s') (it.next n s)

  -- `Filter`
  unfoldable pub filter_iterator : Iterator S A → (A → Bool) → Iterator S A
  filter_iterator it fn = record { next = filter_next it fn; value = it.value }

  abbrev pub array_turn : Iterator S A → (S → Result (List A)) → Result (Bool × S) → Result (List A)
  array_turn it loop (gives (false, s)) = gives []
  array_turn it loop (gives (true, s)) = add_value (it.value s) (loop s)
  array_turn it loop panics = panics
  array_turn it loop runs_out = runs_out

  -- `ToArray`, with the loop of `ForEach`.
  unfoldable pub to_array : Iterator S A → ℕ → S → Result (List A)
  to_array it zero s = runs_out
  to_array it (suc n) s = array_turn it (λ s'. to_array it n s') (it.next n s)

-- The state of `Concat`: that of the first iterator; once it has ended, also the current one of the
-- others; and those that follow.
pub data ConcatState (S A : Type 0) : Type 0 where
  at_first : S → List (Iterator S A × S) → ConcatState S A
  at_other : S → Iterator S A × S → List (Iterator S A × S) → ConcatState S A

module _ {S A : Type 0} where
  abbrev pub other_turn :
      S
      → Iterator S A
      → List (Iterator S A × S)
      → Result (Bool × ConcatState S A)
      → Result (Bool × S)
      → Result (Bool × ConcatState S A)
  other_turn f it others after (gives (true, s)) = gives (true, at_other f (it, s) others)
  other_turn f it [] after (gives (false, s)) = gives (false, at_other f (it, s) [])
  other_turn f it (o ∷ others) after (gives (false, s)) = after
  other_turn f it others after panics = panics
  other_turn f it others after runs_out = runs_out

  -- The loop of Next while the others end.
  unfoldable pub other_next :
      ℕ → S → Iterator S A × S → List (Iterator S A × S) → Result (Bool × ConcatState S A)
  other_next n f (it, s) [] = other_turn f it [] runs_out (it.next n s)
  other_next n f (it, s) (o ∷ others) =
      other_turn f it (o ∷ others) (other_next n f o others) (it.next n s)

  abbrev pub first_turn :
      ℕ → List (Iterator S A × S) → Result (Bool × S) → Result (Bool × ConcatState S A)
  first_turn n others (gives (true, f)) = gives (true, at_first f others)
  first_turn n [] (gives (false, f)) = gives (false, at_first f [])
  first_turn n (o ∷ others) (gives (false, f)) = other_next n f o others
  first_turn n others panics = panics
  first_turn n others runs_out = runs_out

  abbrev pub concat_next : Iterator S A → ℕ → ConcatState S A → Result (Bool × ConcatState S A)
  concat_next it n (at_first f others) = first_turn n others (it.next n f)
  concat_next it n (at_other f c others) = other_next n f c others

  -- `Value: current.Value` is read when `Concat` is called: it is that of the first iterator.
  abbrev pub concat_value : Iterator S A → ConcatState S A → Result A
  concat_value it (at_first f others) = it.value f
  concat_value it (at_other f c others) = it.value f

  -- `Concat`
  unfoldable pub concat_iterator : Iterator S A → Iterator (ConcatState S A) A
  concat_iterator it = record { next = concat_next it; value = concat_value it }
