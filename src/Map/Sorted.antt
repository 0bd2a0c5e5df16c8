-- ===== src/Map/Sorted.antt =====
-- Items in key order, and where a new item goes among them.
use mathlib.Core.Bool.{false≢true}
use trans_proxy.Base.{
  suc, true, false, ◌≡◌, ◌≢◌, ◌⊎◌, inl, inr, refl, List, [], ◌∷◌, ◌++◌, length, Bool-cases, arith,
}
use trans_proxy.Map.Order.{Key, Sign, less, same, greater, compare}
use trans_proxy.Map.{Item, Tree, leaf, node, count, items}
use trans_proxy.Base.{length-append}

abbrev pub All : {A : Type 0} → (A → Type 0) → List A → Type 0
All P [] = Unit {0}
All P (x ∷ xs) = P x × All P xs

pub All-append :
    {A : Type 0} (P : A → Type 0) (xs ys : List A) → All P (xs ++ ys) → All P xs × All P ys
All-append P [] ys h = (tt, h)
All-append P (x ∷ xs) ys h = let (a, b) = All-append P xs ys h.1 in ((h.0, a), b)

pub append-All :
    {A : Type 0} (P : A → Type 0) (xs ys : List A) → All P xs → All P ys → All P (xs ++ ys)
append-All P [] ys a b = b
append-All P (x ∷ xs) ys a b = (a.0, append-All P xs ys a.1 b)

pub All-map :
    {A : Type 0} {P Q : A → Type 0} (xs : List A) → ((x : A) → P x → Q x) → All P xs → All Q xs
All-map [] f h = tt
All-map (x ∷ xs) f h = (f x h.0, All-map xs f h.1)

pub count-items : {K : Type 0} (t : Tree K) → count t ≡ length (items t)
count-items leaf = refl
count-items (node p h l x r) =
    omega (arith, count-items l, count-items r, length-append (items l) (x ∷ items r))

pub Sign-cases : (s : Sign) → (s ≡ less) ⊎ (s ≢ less)
Sign-cases less = inl refl
Sign-cases same = inr (λ e. cc)
Sign-cases greater = inr (λ e. cc)

module _ {K : Type 0} ⦃k : Key K⦄ where
  -- `a` does not come after `b`.
  abbrev pub Le : K → K → Type 0
  Le a b = k.gtb a b ≡ false

  pub Le-trans : (a b c : K) → Le a b → Le b c → Le a c
  Le-trans a b c h g = elim (Bool-cases (k.gtb a c)) [
    | inr e ↦ e
    | inl e ↦ elim (Bool-cases (k.eqb a b)) [
      | inl q ↦ rw ((k.eqb_iff a b).0 q) g
      | inr q ↦ absurd (false≢true (rw (← g) (k.gtb_trans b a c (k.gtb_total a b q h) e)))
    ]
  ]

  -- The three outcomes of `compare`.
  pub compare_cases :
      (a b : K)
      → ((compare a b ≡ less) × (k.gtb b a ≡ true) × (k.gtb a b ≡ false))
        ⊎ (((compare a b ≡ same) × (a ≡ b)) ⊎ ((compare a b ≡ greater) × (k.gtb a b ≡ true)))
  unfolding compare
  compare_cases a b = elim (Bool-cases (k.eqb a b)) [
    | inl e ↦ inr (inl (rw e, (k.eqb_iff a b).0 e))
    | inr d ↦ elim (Bool-cases (k.gtb a b)) [
      | inl g ↦ inr (inr (rw (d, g), g))
      | inr n ↦ inl (rw (d, n), k.gtb_total a b d n, n)
    ]
  ]

  pub compare-less : (a b : K) → compare a b ≡ less → k.gtb b a ≡ true
  compare-less a b h = ground (arith, compare_cases a b)

  pub compare-ne-less : (a b : K) → compare a b ≢ less → Le b a
  compare-ne-less a b h = elim (Bool-cases (k.gtb b a)) [
    | inr e ↦ e
    | inl e ↦ absurd (elim (compare_cases a b) [
      | inl c ↦ h c.0
      | inr (inl (_, q)) ↦ false≢true (rw (← k.gtb_irrefl b) (rw q at e))
      | inr (inr (_, g)) ↦ false≢true (rw (← k.gtb_irrefl a) (k.gtb_trans a b a g e))
    ])
  ]

  pub ne-less-compare : (a b : K) → Le b a → compare a b ≢ less
  ne-less-compare a b h c = false≢true (rw (← h) (compare-less a b c))

  pub Le-ne-greater : (a b : K) → Le a b → compare a b ≢ greater
  Le-ne-greater a b h c = elim (compare_cases a b) [
    | inl (q, _, _) ↦ cc
    | inr (inl (q, _)) ↦ cc
    | inr (inr (_, g)) ↦ false≢true (rw (← h) g)
  ]

  -- The keys do not fall along the list.
  abbrev pub Sorted : List (Item K) → Type 0
  Sorted [] = Unit {0}
  Sorted (x ∷ xs) = All (λ y. Le x.key y.key) xs × Sorted xs

  -- `x` put behind every item that does not come after it.
  unfoldable pub place : Item K → List (Item K) → List (Item K)
  unfolding compare
  place x [] = x ∷ []
  place x (y ∷ ys) = elim (compare x.key y.key) [ less ↦ x ∷ y ∷ ys | _ ↦ y ∷ place x ys ]

  pub place_before :
      (x y : Item K) (ys : List (Item K))
      → compare x.key y.key ≡ less
      → place x (y ∷ ys) ≡ x ∷ y ∷ ys
  unfolding place
  place_before x y ys h = rw (h, place)

  pub place_after :
      (x y : Item K) (ys : List (Item K))
      → compare x.key y.key ≢ less
      → place x (y ∷ ys) ≡ y ∷ place x ys
  unfolding place
  place_after x y ys h = ground arith

  pub place-append_before :
      (x y : Item K) (xs ys : List (Item K))
      → compare x.key y.key ≡ less
      → place x (xs ++ (y ∷ ys)) ≡ place x xs ++ (y ∷ ys)
  unfolding place
  place-append_before x y [] ys h = place_before x y ys h
  place-append_before x y (z ∷ xs) ys h = elim (Sign-cases (compare x.key z.key)) [
    | inl e ↦ rw (place_before x z (xs ++ (y ∷ ys)) e, place_before x z xs e)
    | inr n ↦
        rw (
          place_after x z (xs ++ (y ∷ ys)) n,
          place_after x z xs n,
          place-append_before x y xs ys h,
        )
  ]

  pub place-append_after :
      (x y : Item K) (xs ys : List (Item K))
      → All (λ z. Le z.key x.key) xs
      → compare x.key y.key ≢ less
      → place x (xs ++ (y ∷ ys)) ≡ xs ++ (y ∷ place x ys)
  place-append_after x y [] ys a h = place_after x y ys h
  place-append_after x y (z ∷ xs) ys a h = rw (
    place_after x z (xs ++ (y ∷ ys)) (ne-less-compare x.key z.key a.0),
    place-append_after x y xs ys a.1 h,
  )

  pub length-place : (x : Item K) (xs : List (Item K)) → length (place x xs) ≡ suc (length xs)
  length-place x [] = unfold place in refl
  length-place x (y ∷ ys) = elim (Sign-cases (compare x.key y.key)) [
    | inl e ↦ rw (place_before x y ys e)
    | inr n ↦ rw (place_after x y ys n, length-place x ys)
  ]

  pub place-All :
      (P : Item K → Type 0) (x : Item K) (xs : List (Item K)) → P x → All P xs → All P (place x xs)
  place-All P x [] px a = unfold place in (px, tt)
  place-All P x (y ∷ ys) px a = elim (Sign-cases (compare x.key y.key)) [
    | inl e ↦ rw (place_before x y ys e) (px, a)
    | inr n ↦ rw (place_after x y ys n) (a.0, place-All P x ys px a.1)
  ]

  pub place-Sorted : (x : Item K) (xs : List (Item K)) → Sorted xs → Sorted (place x xs)
  place-Sorted x [] s = unfold place in (tt, tt)
  place-Sorted x (y ∷ ys) s = elim (Sign-cases (compare x.key y.key)) [
    | inl e ↦
        let below : Le x.key y.key = ground (arith, compare_cases x.key y.key) in
        rw (place_before x y ys e)
          ((below, All-map ys (λ z h. Le-trans x.key y.key z.key below h) s.0), s)
    | inr n ↦
        rw (place_after x y ys n)
          (place-All _ x ys (compare-ne-less x.key y.key n) s.0, place-Sorted x ys s.1)
  ]

  -- A sorted list around one of its items.
  pub Sorted-split :
      (xs : List (Item K)) (y : Item K) (ys : List (Item K))
      → Sorted (xs ++ (y ∷ ys))
      → Sorted xs × All (λ z. Le z.key y.key) xs × All (λ z. Le y.key z.key) ys × Sorted ys
  Sorted-split [] y ys s = (tt, tt, s.0, s.1)
  Sorted-split (x ∷ xs) y ys s =
      let (a, b, c, d) = Sorted-split xs y ys s.1 in
      let (low, high) = All-append _ xs (y ∷ ys) s.0 in ((low, a), (high.0, b), c, d)
