-- ===== src/Iter/Concat.antt =====
-- iter/iter.go: `Concat`, whose Value is that of the first iterator.
use godev.Prelude.{
  ℕ, zero, suc, ◌≤◌, ◌<◌, arith, Bool, true, false, List, [], ◌∷◌, none, ◌≡◌, refl, ap, ltb, length,
  get_elem?,
}
use godev.Iter.Iterator.{
  Result, runs_out, gives, panics, Iterator, from_slice, to_array, concat_iterator, at_first,
  at_other, other_next, Result,
}
use godev.Iter.Yields.{Yields, from_slice-Yields}

module _ {S A : Type 0} where
  -- An iterator that has just ended has no value.
  abbrev EndsEmpty : Iterator S A → Type 0
  EndsEmpty it = (n : ℕ) (s s' : S) → it.next n s ≡ gives (false, s') → it.value s' ≡ panics

  other_next-gives :
      (n : ℕ) (f t t' : S) (other : Iterator S A) (others : List (Iterator S A × S))
      → other.next n t ≡ gives (true, t')
      → other_next n f (other, t) others ≡ gives (true, at_other f (other, t') others)
  unfolding other_next
  other_next-gives n f t t' other [] w = rw w refl
  other_next-gives n f t t' other (o ∷ others) w = rw w refl

  -- The first iterator is read to its end, and then the other one has a value where the first has none.
  concat-panics :
      (it other : Iterator S A) (s t t' : S) (others : List (Iterator S A × S)) (xs : List A)
      (n : ℕ)
      → Yields 0 it s xs
      → EndsEmpty it
      → ((m : ℕ) → other.next m t ≡ gives (true, t'))
      → length xs < n
      → to_array (concat_iterator it) n (at_first s ((other, t) ∷ others)) ≡ panics
  unfolding to_array concat_iterator Yields
  concat-panics it other s t t' others xs zero y v w h = absurd (ground arith)
  concat-panics it other s t t' others [] (suc n) (s', e) v w h =
      let k = e n (ground arith) in
      rw (k, other_next-gives n s' t t' other others (w n), v n s s' k) refl
  concat-panics it other s t t' others (a ∷ xs) (suc n) (s', (e, (u, y))) v w h =
      rw (e n (ground arith), u, concat-panics it other s' t t' others xs n y v w (ground arith))
        refl

module _ {A : Type 0} where
  get_elem?-none : (xs : List A) (i : ℕ) → length xs ≤ i → get_elem? xs i ≡ none
  get_elem?-none [] i h = refl
  get_elem?-none (a ∷ xs) zero h = absurd (ground arith)
  get_elem?-none (a ∷ xs) (suc i) h = get_elem?-none xs i (ground arith)

  from_slice-EndsEmpty : (slice : List A) → EndsEmpty (from_slice slice)
  unfolding from_slice
  from_slice-EndsEmpty slice n i s' h =
      let ends : ltb i (length slice) ≡ false =
        ap (λ (r : Result (Bool × ℕ)). elim r [ gives p ↦ p.0 | panics ↦ true | runs_out ↦ true ])
          h in
      let at : suc i ≡ s' =
        ap (λ (r : Result (Bool × ℕ)). elim r [ gives p ↦ p.1 | panics ↦ 0 | runs_out ↦ 0 ]) h in
      rw (← at, get_elem?-none slice i (ground arith)) refl

  -- The array of a slice joined to one that is not empty: whatever the slices, the code panics. It
  -- takes the values from the first slice, and reads it past its end when the second one is due.
  pub to_array-concat_iterator :
      (slice second : List A) (b : A) (others : List (Iterator ℕ A × ℕ)) (n : ℕ)
      → length slice < n
      → to_array
          (concat_iterator (from_slice slice))
          n
          (at_first 0 ((from_slice (b ∷ second), 0) ∷ others))
        ≡ panics
  unfolding from_slice
  to_array-concat_iterator slice second b others n h =
      let has : ltb 0 (suc (length second)) ≡ true = ground arith in
      concat-panics (from_slice slice) (from_slice (b ∷ second)) 0 0 1 others slice n
        (from_slice-Yields slice) (from_slice-EndsEmpty slice) (λ m. rw has refl) h
