-- ===== src/Slices/Dupes.antt =====
-- RemoveDupes of a8/a8.go: what is left of a slice.
use godev.Prelude.{
  Bool, true, false, ◌&&◌, not, List, [], ◌∷◌, ◌≡◌, ◌↔◌, refl, inl, inr, Bool-cases, arith,
}
use godev.Slices.{member, remove_seen, remove_dupes}

module _ {A : Type 0} (eq : A → A → Bool) where
  -- No item stands twice.
  abbrev pub IsDistinct : List A → Type 0
  IsDistinct [] = Unit
  IsDistinct (x ∷ xs) = (member eq x xs ≡ false) × IsDistinct xs

  module _ (eq_iff : (a b : A) → (eq a b ≡ true) ↔ (a ≡ b)) where
    member-same : (x y : A) (ys : List A) → eq y x ≡ true → member eq y ys ≡ member eq x ys
    member-same x y ys h = rw ((eq_iff y x).0 h) refl

    -- What is left of a slice are its items that were not seen before.
    pub member-remove_seen :
        (x : A) (seen xs : List A)
        → member eq x (remove_seen eq seen xs) ≡ (not (member eq x seen) && member eq x xs)
    unfolding member remove_seen
    member-remove_seen x seen [] = ground arith
    member-remove_seen x seen (y ∷ xs) = ground (
      arith,
      eq_iff y x,
      member-same x y seen,
      member-remove_seen x seen xs,
      member-remove_seen x (y ∷ seen) xs,
    )

    not_left :
        (seen : List A) (x : A) (xs : List A) → member eq x (remove_seen eq (x ∷ seen) xs) ≡ false
    unfolding member
    not_left seen x xs = rw (member-remove_seen x (x ∷ seen) xs, (eq_iff x x).1 refl) refl

    pub remove_seen-IsDistinct : (seen xs : List A) → IsDistinct (remove_seen eq seen xs)
    unfolding remove_seen
    remove_seen-IsDistinct seen [] = tt
    remove_seen-IsDistinct seen (x ∷ xs) = elim (Bool-cases (member eq x seen)) [
      | inl old ↦ rw old (remove_seen-IsDistinct seen xs)
      | inr new ↦ rw new (not_left seen x xs, remove_seen-IsDistinct (x ∷ seen) xs)
    ]

    -- RemoveDupes, for a comparison that is equality: nothing is in the result twice, and the result
    -- has an item exactly when the slice has it.
    pub remove_dupes-IsDistinct :
        (xs : List A)
        → IsDistinct (remove_dupes eq xs)
          × ((x : A) → member eq x (remove_dupes eq xs) ≡ member eq x xs)
    unfolding member
    remove_dupes-IsDistinct xs = (remove_seen-IsDistinct [] xs, λ x. member-remove_seen x [] xs)
