-- ===== src/Launchy/Last.antt =====
-- ToMap of iter/iter.go: what a key leads to.
use godev.Prelude.{
  Bool, true, false, List, [], ◌∷◌, none, some, Bytes, bytes_eq, get, put, get-put_if,
  if◌then◌else◌, ◌≡◌, refl, last_with, or_else, or_else_assoc, if_named,
}
use godev.Launchy.Slurp.{to_map}

module _ {A : Type 0} (key : A → Bytes) where
  pub get-to_map :
      (k : Bytes) (xs : List A) (m : List (Bytes × A))
      → get k (to_map key xs m) ≡ or_else (last_with key k xs) (get k m)
  unfolding to_map last_with
  get-to_map k [] m = refl
  get-to_map k (x ∷ xs) m =
      rw
        (
          get-to_map k xs (put (key x) x m),
          or_else_assoc (last_with key k xs) (if_named key k x) (get k m),
          get-put_if k (key x) x m,
        )
        (chosen (bytes_eq (key x) k))
    where
      chosen :
          (b : Bool)
          → or_else (last_with key k xs) (if b then some x else get k m)
            ≡ or_else (last_with key k xs) (or_else (if b then some x else none) (get k m))
      chosen true = refl
      chosen false = refl
