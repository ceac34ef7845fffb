-- ===== src/Launchy/Names.antt =====
-- Lists of names, as a8/a8.go leaves them without duplicates.
use mathlib.Core.Path.{subst}
use godev.Prelude.{
  true, false, List, ◌∷◌, Bytes, bytes_eq, bytes_eq_iff, ◌≡◌, ◌≢◌, refl, sym, arith, ◌⊎◌,
}
use godev.Slices.{member}

pub member_self : (k : Bytes) (names : List Bytes) → member bytes_eq k (k ∷ names) ≡ true
unfolding member
member_self k names = rw ((bytes_eq_iff k k).1 refl) refl

pub member-later :
    (j k : Bytes) (names : List Bytes)
    → member bytes_eq j names ≡ true
    → member bytes_eq j (k ∷ names) ≡ true
unfolding member
member-later j k names m = ground arith

pub member_split :
    (j k : Bytes) (names : List Bytes)
    → member bytes_eq j (k ∷ names) ≡ true
    → (k ≡ j) ⊎ (member bytes_eq j names ≡ true)
unfolding member
member_split j k names m = ground (arith, bytes_eq_iff k j)

pub not_member :
    (j k : Bytes) (names : List Bytes)
    → member bytes_eq j (k ∷ names) ≡ false
    → (j ≢ k) × (member bytes_eq j names ≡ false)
unfolding member
not_member j k names m = (
  λ e.
      let f : member bytes_eq j (k ∷ names) ≡ true =
        subst (λ x. member bytes_eq x (k ∷ names) ≡ true) (sym e) (member_self k names) in
      absurd (cc),
  ground arith,
)
