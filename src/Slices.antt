-- ===== src/Slices.antt =====
-- a8/a8.go: the generic functions on slices. A slice is the list of its elements; the worker
-- goroutines of RunPar are the pending items of a state whose steps are their sends.
pub mod Bounds
pub mod Dupes
pub mod Parallel
mod Tests
use godev.Prelude.{
  ℕ, ◌+◌, ◌<◌, Bool, true, false, ◌||◌, List, [], ◌∷◌, ◌++◌, map, Option, none, some, length, take,
  drop, replicate, leb, if◌then◌else◌,
}

module _ {A : Type 0} (eq : A → A → Bool) where
  unfoldable pub member : A → List A → Bool
  member x [] = false
  member x (y ∷ ys) = eq y x || member x ys

  -- The loop of `RemoveDupes`; `seen` has the keys of `allKeys`.
  unfoldable pub remove_seen : List A → List A → List A
  remove_seen seen [] = []
  remove_seen seen (x ∷ xs) =
      let skipped = remove_seen seen xs in
      let kept = remove_seen (x ∷ seen) xs in if member x seen then skipped else x ∷ kept

  -- `RemoveDupes`
  abbrev pub remove_dupes : List A → List A
  remove_dupes xs = remove_seen [] xs

module _ {A : Type 0} where
  unfoldable pub total_len : List (List A) → ℕ
  total_len [] = 0
  total_len (s ∷ ss) = length s + total_len ss

  -- What `copy(buffer[i:], s)` leaves in the buffer, and how much it wrote: as much as there is room
  -- for. Slicing past the end panics, which is `none`.
  unfoldable pub copy_at : List A → ℕ → List A → Option (List A × ℕ)
  copy_at buffer i s =
      if leb i (length buffer)
      then some (
        take i buffer ++ take (length (drop i buffer)) s ++ drop (i + length s) buffer,
        length (take (length (drop i buffer)) s),
      )
      else none

  abbrev pub after_copy : (List A → ℕ → Option (List A)) → ℕ → Option (List A × ℕ) → Option (List A)
  after_copy next i none = none
  after_copy next i (some (buffer, n)) = next buffer (i + n)

  unfoldable pub copy_all : List (List A) → List A → ℕ → Option (List A)
  copy_all [] buffer i = some buffer
  copy_all (s ∷ ss) buffer i = after_copy (λ b j. copy_all ss b j) i (copy_at buffer i s)

  -- `ConcatMultipleSlices`; `zero_value` is Go's zero value of the element type.
  unfoldable pub concat_multiple_slices : A → List (List A) → Option (List A)
  concat_multiple_slices zero_value slices =
      copy_all slices (replicate (total_len slices) zero_value) 0

-- `RunPar` between two sends: the items whose goroutine has not sent its result, what the channel
-- holds, and its capacity.
pub record Par (A B : Type 0) : Type 0 where
  pub pending : List A
  pub results : List B
  pub capacity : ℕ

module _ {A : Type 0} {B : Type 0} (runner_fn : A → B) where
  abbrev pub start_par : List A → Par A B
  start_par items = record { pending = items; results = []; capacity = length items }

  -- Any goroutine may be the next to send; a send waits while the channel is full.
  pub data Send : Par A B → Par A B → Type 0 where
    send :
        (before : List A) (item : A) (after : List A) (results : List B) (capacity : ℕ)
        → length results < capacity
        → Send
            (record { pending = before ++ item ∷ after; results = results; capacity = capacity })
            (record {
              pending = before ++ after;
              results = results ++ runner_fn item ∷ [];
              capacity = capacity;
            })

  pub data Sends (s : Par A B) : Par A B → Type 0 where
    none_sent : Sends s s
    then : {t u : Par A B} → Sends s t → Send t u → Sends s u
