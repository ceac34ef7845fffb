-- ===== src/Slices/Tests.antt =====
-- Tests of the functions on slices of a8/a8.go, and the theorems at concrete inputs.
use godev.Prelude.{ℕ, ◌+◌, ◌==◌, ◌≡◌, ◌⊎◌, List, [], ◌∷◌, some, none, refl, length, map, arith}
use godev.Slices.{
  member, remove_seen, remove_dupes, total_len, copy_at, copy_all, concat_multiple_slices, Par,
  Send, send, none_sent, then,
}
use godev.Slices.Bounds.{concat, concat_multiple_slices-concat}
use godev.Slices.Parallel.{Sends-perm}
use mathlib.Core.List.{Perm}

abbrev numbers : List ℕ
numbers = 4 ∷ 7 ∷ 4 ∷ 9 ∷ 7 ∷ []

abbrev parts : List (List ℕ)
parts = (4 ∷ 7 ∷ []) ∷ [] ∷ (9 ∷ []) ∷ []

remove_dupes_runs : remove_dupes ◌==◌ numbers ≡ 4 ∷ 7 ∷ 9 ∷ []
unfolding remove_seen member
remove_dupes_runs = refl

concat_multiple_slices_runs : concat_multiple_slices 0 parts ≡ some (4 ∷ 7 ∷ 9 ∷ [])
unfolding concat_multiple_slices copy_all copy_at total_len
concat_multiple_slices_runs = refl

copy_at_panics : copy_at {A = ℕ} (1 ∷ []) 2 (5 ∷ []) ≡ none
unfolding copy_at
copy_at_panics = refl

concat_multiple_slices-concat_example : concat_multiple_slices 0 parts ≡ some (concat parts)
concat_multiple_slices-concat_example = concat_multiple_slices-concat 0 parts

-- The second goroutine is the first to send, then the first one.
abbrev two_sent : Par ℕ ℕ
two_sent = record { pending = 9 ∷ []; results = 8 ∷ 5 ∷ []; capacity = 3 }

Sends-perm_example :
    (length two_sent.results + length two_sent.pending ≡ 3)
    × (((two_sent.pending ≡ []) × Perm two_sent.results (map (λ x. x + 1) (4 ∷ 7 ∷ 9 ∷ [])))
        ⊎ ((q : Par ℕ ℕ) × Send (λ x. x + 1) two_sent q))
Sends-perm_example =
    Sends-perm (λ x. x + 1) (4 ∷ 7 ∷ 9 ∷ [])
      (then (then none_sent (send (4 ∷ []) 7 (9 ∷ []) [] 3 (omega arith)))
        (send [] 4 (9 ∷ []) (8 ∷ []) 3 (omega arith)))
