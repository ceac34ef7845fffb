-- ===== src/Prelude/Maps.antt =====
-- Go's maps from strings as association lists, and what a key holds after a change.
use mathlib.Core.Path.{◌≡◌, refl, subst, sym}
use mathlib.Core.Logic.{◌≢◌, inl, inr}
use mathlib.Core.Bool.{true, false}
use mathlib.Core.List.{List, [], ◌∷◌}
use mathlib.Core.Option.{Option, none, some}
use native.Mathlib.Omega.{arith}
use godev.Prelude.Tests.{if◌then◌else◌, Bool-cases}
use godev.Prelude.Text.{Bytes, bytes_eq, bytes_eq_iff}

module _ {ℓ} {V : Type ℓ} where
  unfoldable pub get : Bytes → List (Bytes × V) → Option V
  get k [] = none
  get k ((j, v) ∷ m) = if bytes_eq j k then some v else get k m

  unfoldable pub put : Bytes → V → List (Bytes × V) → List (Bytes × V)
  put k v [] = (k, v) ∷ []
  put k v ((j, w) ∷ m) = if bytes_eq j k then (k, v) ∷ m else (j, w) ∷ put k v m

  unfoldable pub delete : Bytes → List (Bytes × V) → List (Bytes × V)
  delete k [] = []
  delete k ((j, w) ∷ m) = if bytes_eq j k then delete k m else (j, w) ∷ delete k m

bytes_eq_differ : (j k : Bytes) → j ≢ k → bytes_eq j k ≡ false
bytes_eq_differ j k n = grind (arith, bytes_eq_iff)

pub bytes_ne : (j k : Bytes) → bytes_eq j k ≡ false → j ≢ k
bytes_ne j k h = grind (arith, bytes_eq_iff)

module _ {ℓ} {V : Type ℓ} where
  pub get-put : (k : Bytes) (v : V) (m : List (Bytes × V)) → get k (put k v m) ≡ some v
  unfolding get put
  get-put k v [] = rw ((bytes_eq_iff k k).1 refl) refl
  get-put k v ((j, w) ∷ m) = elim (Bool-cases (bytes_eq j k)) [
    | inl h ↦ rw (h, (bytes_eq_iff k k).1 refl) refl
    | inr h ↦ rw (h, h) (get-put k v m)
  ]

  pub get-put_ne :
      (j k : Bytes) (v : V) (m : List (Bytes × V)) → k ≢ j → get j (put k v m) ≡ get j m
  unfolding get put
  get-put_ne j k v [] n = rw (bytes_eq_differ k j n) refl
  get-put_ne j k v ((i, w) ∷ m) n = elim (Bool-cases (bytes_eq i k)) [
    | inl h ↦ rw (h, (bytes_eq_iff i k).0 h, bytes_eq_differ k j n) refl
    | inr h ↦ rw (h, get-put_ne j k v m n) refl
  ]

  -- Both at once, under the test that the buckets make.
  pub get-put_if :
      (j k : Bytes) (v : V) (m : List (Bytes × V))
      → get j (put k v m) ≡ (if bytes_eq k j then some v else get j m)
  get-put_if j k v m = elim (Bool-cases (bytes_eq k j)) [
    | inl h ↦ rw (h, (bytes_eq_iff k j).0 h) (get-put j v m)
    | inr h ↦ rw h (get-put_ne j k v m (bytes_ne k j h))
  ]

  pub get-delete_if :
      (j k : Bytes) (m : List (Bytes × V))
      → get j (delete k m) ≡ (if bytes_eq k j then none else get j m)
  unfolding get delete
  get-delete_if j k [] = elim (Bool-cases (bytes_eq k j)) [ inl h ↦ rw h refl | inr h ↦ rw h refl ]
  get-delete_if j k ((i, w) ∷ m) = elim (Bool-cases (bytes_eq i k)) [
    | inl h ↦ elim (Bool-cases (bytes_eq k j)) [
      | inl l ↦ rw (h, (bytes_eq_iff i k).0 h, get-delete_if j k m, l) refl
      | inr l ↦ rw (h, (bytes_eq_iff i k).0 h, get-delete_if j k m, l) refl
    ]
    | inr h ↦ elim (Bool-cases (bytes_eq k j)) [
      | inl l ↦
          let h' : bytes_eq i j ≡ false =
            subst (λ x. bytes_eq i x ≡ false) ((bytes_eq_iff k j).0 l) h in
          rw (h, h', get-delete_if j k m, l) refl
      | inr l ↦ rw (h, get-delete_if j k m, l) refl
    ]
  ]

  -- Two keys that were not in the bucket are put and deleted: every key has what it had.
  pub delete-put :
      (a r : Bytes) (v w : V) (m : List (Bytes × V)) (k : Bytes)
      → get a m ≡ none
      → get r m ≡ none
      → get k (delete a (delete r (put a v (put r w m)))) ≡ get k m
  delete-put a r v w m k ha hr =
      let put_r = put r w m in
      let put_a = put a v put_r in
      let absent = λ (x : Bytes) (e : get x m ≡ none) (l : bytes_eq x k ≡ true).
        sym (subst (λ y. get y m ≡ none) ((bytes_eq_iff x k).0 l) e) in
      elim (Bool-cases (bytes_eq a k)) [
        | inl la ↦ rw (get-delete_if k a (delete r put_a), la) (absent a ha la)
        | inr la ↦ elim (Bool-cases (bytes_eq r k)) [
          | inl lr ↦
              rw (get-delete_if k a (delete r put_a), la, get-delete_if k r put_a, lr)
                (absent r hr lr)
          | inr lr ↦
              rw
                (
                  get-delete_if k a (delete r put_a),
                  la,
                  get-delete_if k r put_a,
                  lr,
                  get-put_if k a v put_r,
                  la,
                  get-put_if k r w m,
                  lr,
                )
                refl
        ]
      ]

  -- The same for one key.
  pub delete-put_one :
      (a : Bytes) (v : V) (m : List (Bytes × V)) (k : Bytes)
      → get a m ≡ none
      → get k (delete a (put a v m)) ≡ get k m
  delete-put_one a v m k ha = elim (Bool-cases (bytes_eq a k)) [
    | inl la ↦
        rw (get-delete_if k a (put a v m), la)
          (sym (subst (λ y. get y m ≡ none) ((bytes_eq_iff a k).0 la) ha))
    | inr la ↦ rw (get-delete_if k a (put a v m), la, get-put_if k a v m, la) refl
  ]
