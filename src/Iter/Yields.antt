-- ===== src/Iter/Yields.antt =====
-- iter/iter.go: what an iterator yields before it ends; Map, Filter and ToArray beside those of lists.
use godev.Prelude.{
  ℕ, zero, suc, ◌+◌, ◌≤◌, arith, Bool, true, false, List, [], ◌∷◌, ◌++◌, map, some, ◌≡◌, refl, ap,
  ◌∙◌, Bool-cases, inl, inr, ltb, length, get_elem?, if◌then◌else◌, ◌<◌, length-append, sym,
  append_assoc, length-map,
}
use godev.Iter.Iterator.{
  gives, Iterator, from_slice, map_iterator, filter_iterator, filter_next, to_array,
}

-- The list of the elements for which the test holds.
abbrev pub filter : {A : Type 0} → (A → Bool) → List A → List A
filter fn [] = []
filter fn (a ∷ xs) = if fn a then a ∷ filter fn xs else filter fn xs

module _ {S A : Type 0} where
  -- With `bound` or more fuel for each call of Next, the values are those of the list, and then the
  -- iterator ends.
  unfoldable pub Yields : ℕ → Iterator S A → S → List A → Type 0
  Yields bound it s [] = (s' : S) × ((n : ℕ) → bound ≤ n → it.next n s ≡ gives (false, s'))
  Yields bound it s (a ∷ xs) =
      (s' : S) × (((n : ℕ) → bound ≤ n → it.next n s ≡ gives (true, s'))
        × ((it.value s' ≡ gives a) × Yields bound it s' xs))

  to_array-Yields :
      (bound : ℕ) (it : Iterator S A) (s : S) (xs : List A) (n : ℕ)
      → Yields bound it s xs
      → bound + length xs < n
      → to_array it n s ≡ gives xs
  unfolding to_array Yields
  to_array-Yields bound it s xs zero y h = absurd (ground arith)
  to_array-Yields bound it s [] (suc n) (s', e) h = rw (e n (ground arith)) refl
  to_array-Yields bound it s (a ∷ xs) (suc n) (s', (e, (v, y))) h =
      rw (e n (ground arith), v, to_array-Yields bound it s' xs n y (ground arith)) refl

  Yields-mono :
      (bound bound' : ℕ) (it : Iterator S A) (s : S) (xs : List A)
      → bound ≤ bound'
      → Yields bound it s xs
      → Yields bound' it s xs
  unfolding Yields
  Yields-mono bound bound' it s [] h (s', e) = (s', λ n l. e n (ground arith))
  Yields-mono bound bound' it s (a ∷ xs) h (s', (e, (v, y))) =
      (s', ((λ n l. e n (ground arith)), (v, Yields-mono bound bound' it s' xs h y)))

  -- An iterator whose Next takes one turn more than at another state.
  Yields-later :
      (bound : ℕ) (it : Iterator S A) (s s' : S) (xs : List A)
      → ((n : ℕ) → bound ≤ n → it.next (suc n) s ≡ it.next n s')
      → Yields bound it s' xs
      → Yields (suc bound) it s xs
  unfolding Yields
  Yields-later bound it s s' [] h (t, e) = (t, go)
    where
      go : (n : ℕ) → suc bound ≤ n → it.next n s ≡ gives (false, t)
      go zero l = absurd (ground arith)
      go (suc n) l = h n (ground arith) ∙ e n (ground arith)
  Yields-later bound it s s' (a ∷ xs) h (t, (e, (v, y))) =
      (t, (go, (v, Yields-mono bound (suc bound) it t xs (ground arith) y)))
    where
      go : (n : ℕ) → suc bound ≤ n → it.next n s ≡ gives (true, t)
      go zero l = absurd (ground arith)
      go (suc n) l = h n (ground arith) ∙ e n (ground arith)

  -- A value that the filter keeps, and one that it leaves out.
  filter_next-keeps :
      (bound : ℕ) (it : Iterator S A) (fn : A → Bool) (s s' : S) (a : A)
      → ((n : ℕ) → bound ≤ n → it.next n s ≡ gives (true, s'))
      → it.value s' ≡ gives a
      → fn a ≡ true
      → (n : ℕ) → bound < n
      → filter_next it fn n s ≡ gives (true, s')
  unfolding filter_next
  filter_next-keeps bound it fn s s' a e v k zero l = absurd (ground arith)
  filter_next-keeps bound it fn s s' a e v k (suc n) l = rw (e n (ground arith), v, k) refl

  filter_next-leaves :
      (bound : ℕ) (it : Iterator S A) (fn : A → Bool) (s s' : S) (a : A)
      → ((n : ℕ) → bound ≤ n → it.next n s ≡ gives (true, s'))
      → it.value s' ≡ gives a
      → fn a ≡ false
      → (n : ℕ) → bound ≤ n
      → filter_next it fn (suc n) s ≡ filter_next it fn n s'
  unfolding filter_next
  filter_next-leaves bound it fn s s' a e v k n l = rw (e n l, v, k) refl

  filter_iterator-Yields :
      (bound : ℕ) (it : Iterator S A) (fn : A → Bool) (s : S) (xs : List A)
      → Yields bound it s xs
      → Yields (suc (bound + length xs)) (filter_iterator it fn) s (filter fn xs)
  unfolding filter_iterator filter_next Yields
  filter_iterator-Yields bound it fn s [] (s', e) = (s', go)
    where
      go : (n : ℕ) → suc (bound + 0) ≤ n → filter_next it fn n s ≡ gives (false, s')
      go zero l = absurd (ground arith)
      go (suc n) l = rw (e n (ground arith)) refl
  filter_iterator-Yields bound it fn s (a ∷ xs) (s', (e, (v, y))) =
      let small = suc (bound + length xs) in
      let large = suc (bound + suc (length xs)) in
      let rest = filter_iterator-Yields bound it fn s' xs y in
      elim (Bool-cases (fn a)) [
        | inl k ↦ rw k (
          s',
          (
            (λ n l. filter_next-keeps bound it fn s s' a e v k n (ground arith)),
            (
              v,
              Yields-mono small large (filter_iterator it fn) s' (filter fn xs) (ground arith) rest,
            ),
          ),
        )
        | inr k ↦ rw k (
            Yields-mono (suc small) large (filter_iterator it fn) s (filter fn xs) (ground arith) (
              Yields-later small (filter_iterator it fn) s s' (filter fn xs)
                (λ n l. filter_next-leaves bound it fn s s' a e v k n (ground arith)) rest))
      ]

module _ {S A B : Type 0} where
  map_iterator-Yields :
      (bound : ℕ) (it : Iterator S A) (fn : A → B) (s : S) (xs : List A)
      → Yields bound it s xs
      → Yields bound (map_iterator it fn) s (map fn xs)
  unfolding map_iterator Yields
  map_iterator-Yields bound it fn s [] y = y
  map_iterator-Yields bound it fn s (a ∷ xs) (s', (e, (v, y))) =
      (s', (e, (rw v refl, map_iterator-Yields bound it fn s' xs y)))

module _ {A : Type 0} where
  length-filter : (test : A → Bool) (xs : List A) → length (filter test xs) ≤ length xs
  length-filter test [] = ground arith
  length-filter test (a ∷ xs) = elim (Bool-cases (test a)) [
    | inl k ↦ rw k (ground (arith, length-filter test xs))
    | inr k ↦ rw k (ground (arith, length-filter test xs))
  ]

  get_elem?-append_length :
      (before xs : List A) (a : A) → get_elem? (before ++ a ∷ xs) (length before) ≡ some a
  get_elem?-append_length [] xs a = refl
  get_elem?-append_length (b ∷ before) xs a = get_elem?-append_length before xs a

  -- The states of a slice: the index at which the rest of the list begins.
  from_slice-rest :
      (slice before xs : List A) (i : ℕ)
      → slice ≡ before ++ xs
      → i ≡ length before
      → Yields 0 (from_slice slice) i xs
  unfolding from_slice Yields
  from_slice-rest slice before [] i h k =
      let l : length slice ≡ length before + 0 = ap length h ∙ length-append before [] in
      let f : ltb i (length slice) ≡ false = ground (arith, l) in (suc i, λ n m. rw f refl)
  from_slice-rest slice before (a ∷ xs) i h k =
      let l : length slice ≡ length before + suc (length xs) =
        ap length h ∙ length-append before (a ∷ xs) in
      let f : ltb i (length slice) ≡ true = ground (arith, l) in
      (
        suc i,
        (
          (λ n m. rw f refl),
          (
            rw (h, k, get_elem?-append_length before xs a) refl,
            from_slice-rest slice (before ++ a ∷ []) xs (suc i)
                (h ∙ sym (append_assoc before (a ∷ []) xs))
                (ground (arith, length-append before (a ∷ []))),
          ),
        ),
      )

  pub from_slice-Yields : (slice : List A) → Yields 0 (from_slice slice) 0 slice
  from_slice-Yields slice = from_slice-rest slice [] slice 0 refl refl

  -- Filtering a slice, then mapping it, into an array: the loops end, with fuel of twice the length of
  -- the slice and three, and the array has the mapped values of those elements that the test accepts,
  -- in their order.
  pub to_array-filter_iterator :
      {B : Type 0} (slice : List A) (test : A → Bool) (fn : A → B) (n : ℕ)
      → length slice + (length slice + 2) < n
      → to_array (map_iterator (filter_iterator (from_slice slice) test) fn) n 0
        ≡ gives (map fn (filter test slice))
  to_array-filter_iterator slice test fn n h =
      let bound = suc (0 + length slice) in
      let it = filter_iterator (from_slice slice) test in
      let y : Yields bound it 0 (filter test slice) =
        filter_iterator-Yields 0 (from_slice slice) test 0 slice (from_slice-Yields slice) in
      to_array-Yields bound (map_iterator it fn) 0 (map fn (filter test slice)) n
        (map_iterator-Yields bound it fn 0 (filter test slice) y)
        (ground (arith, length-filter test slice, length-map (filter test slice) fn))
