-- ===== src/Iter/Tests.antt =====
-- The iterators at concrete slices; the first is the test of iter/iter_test.go.
use godev.Prelude.{
  Option, none, some, if◌then◌else◌, ℕ, Bool, arith, List, [], ◌∷◌, ◌≡◌, ◌==◌, ◌%◌, ◌*◌,
}
use godev.Iter.Iterator.{
  gives, panics, from_slice, filter_iterator, map_iterator, to_array, concat_iterator, at_first,
}
use godev.Iter.Yields.{to_array-filter_iterator}
use godev.Iter.Concat.{to_array-concat_iterator}

abbrev ints : List ℕ
ints = 1 ∷ 2 ∷ 3 ∷ 4 ∷ 5 ∷ []

abbrev is_even : ℕ → Bool
is_even n = n % 2 == 0

to_array-filter_iterator_example :
    to_array (map_iterator (filter_iterator (from_slice ints) is_even) (λ n. 10 * n)) 13 0
    ≡ gives (20 ∷ 40 ∷ [])
to_array-filter_iterator_example =
    to_array-filter_iterator ints is_even (λ n. 10 * n) 13 (ground arith)

to_array-concat_iterator_example :
    to_array (concat_iterator (from_slice ints)) 9 (at_first 0 ((from_slice (7 ∷ []), 0) ∷ []))
    ≡ panics
to_array-concat_iterator_example = to_array-concat_iterator ints [] 7 [] 9 (ground arith)

-- Collects the numbers, and fails at 4.
abbrev until_four : ℕ → List ℕ → Option ℕ × List ℕ
until_four a t = if a == 4 then (some a, t) else (none, a ∷ t)
