-- ===== src/Base/Places.antt =====
-- What stands at a place of a list, before and after the list grows at its end.
use Prim.Native.Nat.{ℕ, zero, suc, ◌<◌}
use mathlib.Core.Path.{◌≡◌, refl, ap}
use mathlib.Core.Logic.{◌⊎◌, inl, inr}
use mathlib.Core.List.{List, [], ◌∷◌, ◌++◌}
use mathlib.Core.Option.{some}
use native.Mathlib.Omega.{arith}
use trans_proxy.Base.Lists.{length, get_elem?}

pub at_bound : {A : Type 0} (xs : List A) (i : ℕ) (x : A) → get_elem? xs i ≡ some x → i < length xs
at_bound [] i x e = cc
at_bound (y ∷ xs) zero x e = omega arith
at_bound (y ∷ xs) (suc i) x e = omega (arith, at_bound xs i x e)

pub at_kept :
    {A : Type 0} (xs ys : List A) (i : ℕ) (x : A)
    → get_elem? xs i ≡ some x
    → get_elem? (xs ++ ys) i ≡ some x
at_kept [] ys i x e = cc
at_kept (y ∷ xs) ys zero x e = e
at_kept (y ∷ xs) ys (suc i) x e = at_kept xs ys i x e

pub at_last : {A : Type 0} (xs : List A) (y : A) → get_elem? (xs ++ (y ∷ [])) (length xs) ≡ some y
at_last [] y = refl
at_last (x ∷ xs) y = at_last xs y

pub at_back :
    {A : Type 0} (xs : List A) (y : A) (i : ℕ) (x : A)
    → get_elem? (xs ++ (y ∷ [])) i ≡ some x
    → (get_elem? xs i ≡ some x) ⊎ ((i ≡ length xs) × (x ≡ y))
at_back [] y zero x e = inr (refl, cc)
at_back [] y (suc i) x e = cc
at_back (z ∷ xs) y zero x e = inl e
at_back (z ∷ xs) y (suc i) x e = elim (at_back xs y i x e) [
  | inl o ↦ inl o
  | inr (n, s) ↦ inr (ap suc n, s)
]
