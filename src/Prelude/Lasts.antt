-- ===== src/Prelude/Lasts.antt =====
-- The last item of a list that has a key, as a Go map keeps it.
use mathlib.Core.Path.{◌≡◌, ◌∙◌, refl}
use mathlib.Core.Logic.{inl, inr}
use mathlib.Core.Bool.{Bool, true, false}
use mathlib.Core.List.{List, [], ◌∷◌, ◌++◌}
use mathlib.Core.Option.{Option, none, some}
use godev.Prelude.Tests.{if◌then◌else◌, Option-cases}
use godev.Prelude.Text.{Bytes, bytes_eq, bytes_eq_iff}

module _ {ℓ} {A : Type ℓ} where
  abbrev pub or_else : Option A → Option A → Option A
  or_else none d = d
  or_else (some a) d = some a

  pub or_else_assoc : (a b c : Option A) → or_else (or_else a b) c ≡ or_else a (or_else b c)
  or_else_assoc none b c = refl
  or_else_assoc (some a) b c = refl

module _ {ℓ} {A : Type ℓ} where
  pub none_right : (o : Option A) → o ≡ or_else o none
  none_right none = refl
  none_right (some a) = refl

module _ {ℓ} {A : Type ℓ} (key : A → Bytes) where
  abbrev pub if_named : Bytes → A → Option A
  if_named k x = if bytes_eq (key x) k then some x else none

  -- The last item of a key.
  unfoldable pub last_with : Bytes → List A → Option A
  last_with k [] = none
  last_with k (x ∷ xs) = or_else (last_with k xs) (if_named k x)

  pub last_with-append :
      (k : Bytes) (xs ys : List A)
      → last_with k (xs ++ ys) ≡ or_else (last_with k ys) (last_with k xs)
  unfolding last_with
  last_with-append k [] ys = last_none (last_with k ys)
    where
      last_none : (o : Option A) → o ≡ or_else o none
      last_none none = refl
      last_none (some a) = refl
  last_with-append k (x ∷ xs) ys =
      rw (last_with-append k xs ys) (or_else_assoc (last_with k ys) (last_with k xs) (if_named k x))

  pub last_with-key : (k : Bytes) (xs : List A) (x : A) → last_with k xs ≡ some x → key x ≡ k
  unfolding last_with
  last_with-key k [] x h = cc
  last_with-key k (y ∷ ys) x h = elim (Option-cases (last_with k ys)) [
    | inl e ↦ here (bytes_eq (key y) k) refl (rw e at h)
    | inr (z, e) ↦ last_with-key k ys x (e ∙ (rw e at h))
  ]
    where
      here : (b : Bool) → bytes_eq (key y) k ≡ b → (if b then some y else none) ≡ some x → key x ≡ k
      here true t f = let e : y ≡ x = cc in rw (← e) ((bytes_eq_iff (key y) k).0 t)
      here false t f = cc
