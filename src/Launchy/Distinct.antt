-- ===== src/Launchy/Distinct.antt =====
-- The uids and names of launchy/agent.go: a list in which nothing stands twice, and one more at its end.
use godev.Prelude.{
  false, ◌||◌, List, [], ◌∷◌, ◌++◌, Bytes, bytes_eq, bytes_eq_iff, ◌≡◌, arith, refl,
}
use godev.Slices.{member}
use godev.Slices.Dupes.{IsDistinct}

member-append :
    (u v : Bytes) (xs : List Bytes)
    → member bytes_eq u (xs ++ v ∷ []) ≡ (member bytes_eq u xs || bytes_eq v u)
unfolding member
member-append u v [] = ground arith
member-append u v (x ∷ xs) = ground (arith, member-append u v xs)

pub append-IsDistinct :
    (xs : List Bytes) (u : Bytes)
    → IsDistinct bytes_eq xs
    → member bytes_eq u xs ≡ false
    → IsDistinct bytes_eq (xs ++ u ∷ [])
unfolding member
append-IsDistinct [] u d new = (refl, tt)
append-IsDistinct (x ∷ xs) u d new = (
  rw (member-append x u xs) (ground (arith, bytes_eq_iff u x, bytes_eq_iff x u)),
  append-IsDistinct xs u d.1 (ground arith),
)
