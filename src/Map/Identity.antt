-- ===== src/Map/Identity.antt =====
-- Items told apart by their identity: what a list holds, and what is left when an item is erased.
use mathlib.Core.Bool.{false≢true}
use native.Mathlib.Decide.{ℕ_discrete}
use trans_proxy.Base.{
  suc, ◌≡◌, ◌≢◌, inl, inr, refl, sym, ap, Bool, true, false, List, [], ◌∷◌, ◌++◌, length, ◌==◌,
  ==_iff, ==_false, if◌then◌else◌, arith,
}
use trans_proxy.Map.{Item}
use trans_proxy.Map.Order.{Key, compare}
use trans_proxy.Map.Sorted.{
  All, All-append, Sorted, Sign-cases, place, place_before, place_after, place-All,
}

module _ {K : Type 0} where
  -- No item of the list has the identity of `x`.
  abbrev pub Fresh : Item K → List (Item K) → Type 0
  Fresh x xs = All (λ y. y.id ≢ x.id) xs

  -- The items have different identities.
  abbrev pub Distinct : List (Item K) → Type 0
  Distinct [] = Unit {0}
  Distinct (x ∷ xs) = Fresh x xs × Distinct xs

  -- An item with the identity of `x` has its key: they are one object.
  abbrev pub Known : Item K → List (Item K) → Type 0
  Known x xs = All (λ y. y.id ≡ x.id → y.key ≡ x.key) xs

  unfoldable pub holds : Item K → List (Item K) → Bool
  holds x [] = false
  holds x (y ∷ ys) = if y.id == x.id then true else holds x ys

  unfoldable pub erase : Item K → List (Item K) → List (Item K)
  erase x [] = []
  erase x (y ∷ ys) = if y.id == x.id then ys else y ∷ erase x ys

  pub Distinct-split :
      (xs : List (Item K)) (y : Item K) (ys : List (Item K))
      → Distinct (xs ++ (y ∷ ys))
      → Distinct xs × Fresh y xs × Fresh y ys × Distinct ys
  Distinct-split [] y ys d = (tt, tt, d.0, d.1)
  Distinct-split (x ∷ xs) y ys d =
      let (a, b, c, e) = Distinct-split xs y ys d.1 in
      let (low, high) = All-append _ xs (y ∷ ys) d.0 in ((low, a), ((λ q. high.0 (sym q)), b), c, e)

  pub holds-Fresh : (x : Item K) (xs : List (Item K)) → Fresh x xs → holds x xs ≡ false
  unfolding holds
  holds-Fresh x [] f = refl
  holds-Fresh x (y ∷ ys) f = rw (==_false y.id x.id f.0) (holds-Fresh x ys f.1)

  pub holds_other :
      (x y : Item K) (ys : List (Item K)) → y.id ≢ x.id → holds x (y ∷ ys) ≡ holds x ys
  unfolding holds
  holds_other x y ys d = rw (==_false _ _ d)

  pub holds-append_left :
      (x : Item K) (xs ys : List (Item K)) → holds x xs ≡ true → holds x (xs ++ ys) ≡ true
  unfolding holds
  holds-append_left x [] ys h = absurd (false≢true h)
  holds-append_left x (y ∷ xs) ys h = ground (arith, holds-append_left x xs ys)

  pub holds-append_right :
      (x : Item K) (xs ys : List (Item K)) → holds x xs ≡ false → holds x (xs ++ ys) ≡ holds x ys
  unfolding holds
  holds-append_right x [] ys h = refl
  holds-append_right x (y ∷ xs) ys h = ground (arith, holds-append_right x xs ys)

  pub erase-append_left :
      (x : Item K) (xs ys : List (Item K))
      → holds x xs ≡ true
      → erase x (xs ++ ys) ≡ erase x xs ++ ys
  unfolding holds erase
  erase-append_left x [] ys h = absurd (false≢true h)
  erase-append_left x (y ∷ xs) ys h = elim (ℕ_discrete y.id x.id) [
    | yes e ↦ rw ((==_iff _ _).1 e)
    | no d ↦ rw (==_false _ _ d) (ap (λ zs. y ∷ zs) (erase-append_left x xs ys (ground arith)))
  ]

  pub erase-append_right :
      (x : Item K) (xs ys : List (Item K))
      → holds x xs ≡ false
      → erase x (xs ++ ys) ≡ xs ++ erase x ys
  unfolding holds erase
  erase-append_right x [] ys h = refl
  erase-append_right x (y ∷ xs) ys h = elim (ℕ_discrete y.id x.id) [
    | yes e ↦ absurd (ground arith)
    | no d ↦ rw (==_false _ _ d) (ap (λ zs. y ∷ zs) (erase-append_right x xs ys (ground arith)))
  ]

  pub erase_absent : (x : Item K) (xs : List (Item K)) → holds x xs ≡ false → erase x xs ≡ xs
  unfolding holds erase
  erase_absent x [] h = refl
  erase_absent x (y ∷ xs) h = elim (ℕ_discrete y.id x.id) [
    | yes e ↦ absurd (ground arith)
    | no d ↦ rw (==_false _ _ d) (ap (λ zs. y ∷ zs) (erase_absent x xs (ground arith)))
  ]

  pub length-erase :
      (x : Item K) (xs : List (Item K)) → holds x xs ≡ true → length xs ≡ suc (length (erase x xs))
  unfolding holds erase
  length-erase x [] h = absurd (false≢true h)
  length-erase x (y ∷ xs) h = ground (arith, length-erase x xs)

  -- What all keys of the list satisfy, the key of an item that it holds satisfies.
  pub held_key :
      (P : K → Type 0) (x : Item K) (xs : List (Item K))
      → All (λ y. P y.key) xs
      → Known x xs
      → holds x xs ≡ true
      → P x.key
  unfolding holds
  held_key P x [] a n h = absurd (false≢true h)
  held_key P x (y ∷ xs) a n h = elim (ℕ_discrete y.id x.id) [
    | yes e ↦ rw (n.0 e) at (a.0)
    | no d ↦ held_key P x xs a.1 n.1 (ground arith)
  ]

  pub erase-All :
      (P : Item K → Type 0) (x : Item K) (xs : List (Item K)) → All P xs → All P (erase x xs)
  unfolding erase
  erase-All P x [] a = tt
  erase-All P x (y ∷ xs) a = elim (ℕ_discrete y.id x.id) [
    | yes e ↦ rw ((==_iff _ _).1 e) a.1
    | no d ↦ rw (==_false _ _ d) (a.0, erase-All P x xs a.1)
  ]

  pub erase-Distinct : (x : Item K) (xs : List (Item K)) → Distinct xs → Distinct (erase x xs)
  unfolding erase
  erase-Distinct x [] d = tt
  erase-Distinct x (y ∷ xs) d = elim (ℕ_discrete y.id x.id) [
    | yes e ↦ rw ((==_iff _ _).1 e) d.1
    | no n ↦ rw (==_false _ _ n) (erase-All _ x xs d.0, erase-Distinct x xs d.1)
  ]

module _ {K : Type 0} ⦃k : Key K⦄ where
  pub erase-Sorted : (x : Item K) (xs : List (Item K)) → Sorted xs → Sorted (erase x xs)
  unfolding erase
  erase-Sorted x [] s = tt
  erase-Sorted x (y ∷ xs) s = elim (ℕ_discrete y.id x.id) [
    | yes e ↦ rw ((==_iff _ _).1 e) s.1
    | no n ↦ rw (==_false _ _ n) (erase-All _ x xs s.0, erase-Sorted x xs s.1)
  ]

  pub place-Distinct :
      (x : Item K) (xs : List (Item K)) → Distinct xs → Fresh x xs → Distinct (place x xs)
  place-Distinct x [] d f = unfold place in (tt, tt)
  place-Distinct x (y ∷ ys) d f = elim (Sign-cases (compare x.key y.key)) [
    | inl e ↦ rw (place_before x y ys e) (f, d)
    | inr n ↦
        rw (place_after x y ys n)
          (place-All _ x ys (λ q. f.0 (sym q)) d.0, place-Distinct x ys d.1 f.1)
  ]
