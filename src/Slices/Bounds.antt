-- ===== src/Slices/Bounds.antt =====
-- ConcatMultipleSlices of a8/a8.go: the copies into the buffer that was made for all slices.
use mathlib.Core.Path.{subst}
use godev.Prelude.{
  ℕ, zero, suc, ◌≤◌, ◌+◌, ◌≡◌, ◌∙◌, List, [], ◌∷◌, ◌++◌, some, refl, ap, length, take, drop,
  replicate, arith, leb, append_assoc, length-append, take-length-append, drop-length-append,
  length-drop, length-replicate, true, ◌≤◌, ◌≤◌, suc,
}
use godev.Slices.{total_len, copy_at, copy_all, concat_multiple_slices}

module _ {A : Type 0} where
  abbrev pub concat : List (List A) → List A
  concat [] = []
  concat (s ∷ ss) = s ++ concat ss

  take_all : (xs : List A) (n : ℕ) → length xs ≤ n → take n xs ≡ xs
  take_all [] zero h = refl
  take_all [] (suc n) h = refl
  take_all (x ∷ xs) zero h = absurd (omega arith)
  take_all (x ∷ xs) (suc n) h = ap (◌∷◌ x) (take_all xs n (omega arith))

  drop_past : (done room : List A) (n : ℕ) → drop (length done + n) (done ++ room) ≡ drop n room
  drop_past [] room n = let e : 0 + n ≡ n = omega arith in rw e refl
  drop_past (x ∷ done) room n =
      let e : length (x ∷ done) + n ≡ suc (length done + n) = omega arith in
      rw e (drop_past done room n)

  -- A copy that fits goes right behind what is written.
  copy_at-append :
      (done room s : List A)
      → length s ≤ length room
      → copy_at (done ++ room) (length done) s
        ≡ some ((done ++ s) ++ drop (length s) room, length s)
  unfolding copy_at
  copy_at-append done room s h =
      let fits : leb (length done) (length (done ++ room)) ≡ true =
        ground (arith, length-append done room) in
      rw
        (
          fits,
          take-length-append done room (length done) refl,
          drop-length-append done room (length done) refl,
          take_all s (length room) h,
          drop_past done room (length s),
        )
        refl

  -- A buffer whose first places are written, with room for what is left.
  copy_all-concat :
      (ss : List (List A)) (done room : List A)
      → length room ≡ total_len ss
      → copy_all ss (done ++ room) (length done) ≡ some (done ++ concat ss)
  unfolding copy_all total_len
  copy_all-concat [] done [] h = refl
  copy_all-concat [] done (x ∷ room) h = absurd (omega arith)
  copy_all-concat (s ∷ ss) done room h =
      let e : length (done ++ s) ≡ length done + length s = length-append done s in
      let rest =
        copy_all-concat ss (done ++ s) (drop (length s) room)
          (omega (arith, length-drop (length s) room)) in
      rw (copy_at-append done room s (omega arith)) (
        subst
          (λ n.
            copy_all ss ((done ++ s) ++ drop (length s) room) n ≡ some (done ++ (s ++ concat ss)))
          e (rest ∙ ap some (append_assoc done s (concat ss))))

  -- Every copy of ConcatMultipleSlices lies within the buffer that it made: it never panics, every
  -- place is written, whatever zero value the buffer began with, and the result is the slices one
  -- after the other.
  pub concat_multiple_slices-concat :
      (zero_value : A) (slices : List (List A))
      → concat_multiple_slices zero_value slices ≡ some (concat slices)
  unfolding concat_multiple_slices
  concat_multiple_slices-concat zero_value slices =
      copy_all-concat slices [] (replicate (total_len slices) zero_value)
        (length-replicate (total_len slices) zero_value)
