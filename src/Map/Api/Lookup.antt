-- ===== src/Map/Api/Lookup.antt =====
-- `get`, `min` and `max` of a valid map.
use mathlib.Core.Bool.{false≢true}
use mathlib.Core.List.{head?, get_last?}
use trans_proxy.Base.{
  ℕ, ◌≡◌, ◌≢◌, ◌⊎◌, inl, inr, refl, sym, ap, subst, ◌∙◌, true, Option, none, some, List, [], ◌∷◌,
  ◌++◌,
}
use trans_proxy.Map.Order.{Key, less, same, greater, compare}
use trans_proxy.Map.{Item, Tree, leaf, node, items}
use trans_proxy.Map.Sorted.{All, append-All, All-map, Le, Sorted, Sorted-split, compare_cases}
use trans_proxy.Map.Api.{get, min, max}

abbrev pub Member : {A : Type 0} → A → List A → Type 0
Member x [] = ⊥
Member x (y ∷ ys) = (x ≡ y) ⊎ Member x ys

Member-append_left : {A : Type 0} (x : A) (xs ys : List A) → Member x xs → Member x (xs ++ ys)
Member-append_left x [] ys h = elim h [ ]
Member-append_left x (y ∷ xs) ys (inl e) = inl e
Member-append_left x (y ∷ xs) ys (inr h) = inr (Member-append_left x xs ys h)

Member-append_right : {A : Type 0} (x : A) (xs ys : List A) → Member x ys → Member x (xs ++ ys)
Member-append_right x [] ys h = h
Member-append_right x (y ∷ xs) ys h = inr (Member-append_right x xs ys h)

module _ {K : Type 0} ⦃k : Key K⦄ where
  -- What a search for `key` among the items may return.
  abbrev pub Finds : K → List (Item K) → Option (Item K) → Type 0
  Finds key xs none = All (λ y. y.key ≢ key) xs
  Finds key xs (some x) = Member x xs × (x.key ≡ key)

  above_ne : (a b c : K) → k.gtb b a ≡ true → Le b c → c ≢ a
  above_ne a b c g h e = false≢true (sym h ∙ ap (k.gtb b) e ∙ g)

  below_ne : (a b c : K) → k.gtb a b ≡ true → Le c b → c ≢ a
  below_ne a b c g h e = false≢true (sym h ∙ ap (λ q. k.gtb q b) e ∙ g)

  gtb_ne : (a b : K) → k.gtb a b ≡ true → b ≢ a
  gtb_ne a b g e = false≢true (sym (k.gtb_irrefl a) ∙ ap (k.gtb a) (sym e) ∙ g)

  Finds-left :
      (key : K) (xs ys : List (Item K)) (o : Option (Item K))
      → Finds key xs o
      → All (λ y. y.key ≢ key) ys
      → Finds key (xs ++ ys) o
  Finds-left key xs ys none f a = append-All _ xs ys f a
  Finds-left key xs ys (some x) f a = (Member-append_left x xs ys f.0, f.1)

  Finds-right :
      (key : K) (xs : List (Item K)) (x : Item K) (ys : List (Item K)) (o : Option (Item K))
      → Finds key ys o
      → All (λ y. y.key ≢ key) xs
      → x.key ≢ key
      → Finds key (xs ++ (x ∷ ys)) o
  Finds-right key xs x ys none f a n = append-All _ xs (x ∷ ys) a (n, f)
  Finds-right key xs x ys (some y) f a n = (Member-append_right y xs (x ∷ ys) (inr f.0), f.1)

  get_less :
      (p : Option (Item K)) (h : ℕ) (l : Tree K) (x : Item K) (r : Tree K) (key : K)
      → compare key x.key ≡ less
      → get l key ≡ get (node p h l x r) key
  unfolding get
  get_less p h l x r key c = rw (c, get) refl

  get_same :
      (p : Option (Item K)) (h : ℕ) (l : Tree K) (x : Item K) (r : Tree K) (key : K)
      → compare key x.key ≡ same
      → some x ≡ get (node p h l x r) key
  unfolding get
  get_same p h l x r key c = rw (c, get) refl

  get_greater :
      (p : Option (Item K)) (h : ℕ) (l : Tree K) (x : Item K) (r : Tree K) (key : K)
      → compare key x.key ≡ greater
      → get r key ≡ get (node p h l x r) key
  unfolding get
  get_greater p h l x r key c = rw (c, get) refl

  -- `get` finds an item with the key exactly when the tree has one.
  pub get-Finds : (t : Tree K) (key : K) → Sorted (items t) → Finds key (items t) (get t key)
  unfolding get
  get-Finds leaf key s = tt
  get-Finds (node p h l x r) key s =
      let (sl, low, high, sr) = Sorted-split (items l) x (items r) s in
      let found : Option (Item K) → Type 0 = Finds key (items l ++ (x ∷ items r)) in
      elim (compare_cases key x.key) [
        | inl (c, g, _) ↦ subst found (get_less p h l x r key c) (
            Finds-left key (items l) (x ∷ items r) (get l key) (get-Finds l key sl) (
              λ e. gtb_ne x.key key g (sym e),
              All-map (items r) (λ z q. above_ne key x.key z.key g q) high,
            ))
        | inr (inl (c, e)) ↦
            subst found (get_same p h l x r key c)
              (Member-append_right x (items l) (x ∷ items r) (inl refl), sym e)
        | inr (inr (c, g)) ↦ subst found (get_greater p h l x r key c) (
            Finds-right key (items l) x (items r) (get r key) (get-Finds r key sr)
              (All-map (items l) (λ z q. below_ne key x.key z.key g q) low) (gtb_ne key x.key g))
      ]

head?-append :
    {A : Type 0} (xs : List A) (y : A) (ys zs : List A)
    → head? ((xs ++ (y ∷ ys)) ++ zs) ≡ head? (xs ++ (y ∷ ys))
head?-append [] y ys zs = refl
head?-append (x ∷ xs) y ys zs = refl

get_last?-append :
    {A : Type 0} (xs : List A) (y : A) (ys : List A)
    → get_last? (xs ++ (y ∷ ys)) ≡ get_last? (y ∷ ys)
get_last?-append [] y ys = refl
get_last?-append (x ∷ []) y ys = refl
get_last?-append (x ∷ z ∷ xs) y ys = get_last?-append (z ∷ xs) y ys

module _ {K : Type 0} where
  min_lem : (t : Tree K) → min t ≡ head? (items t)
  unfolding min
  min_lem leaf = refl
  min_lem (node p h leaf x r) = refl
  min_lem (node p h (node lp lh ll y lr) x r) =
      min_lem (node lp lh ll y lr) ∙ sym (head?-append (items ll) y (items lr) (x ∷ items r))

  max_lem : (t : Tree K) → max t ≡ get_last? (items t)
  unfolding max
  max_lem leaf = refl
  max_lem (node p h l x leaf) = sym (get_last?-append (items l) x [])
  max_lem (node p h l x (node rp rh rl y rr)) =
      max_lem (node rp rh rl y rr)
      ∙ get_last?-append (items rl) y (items rr)
      ∙ sym (get_last?-append (x ∷ items rl) y (items rr))
      ∙ sym (get_last?-append (items l) x (items rl ++ (y ∷ items rr)))

  -- `min` is the first item and `max` the last; an empty tree has neither.
  pub min_max_lem : (t : Tree K) → (min t ≡ head? (items t)) × (max t ≡ get_last? (items t))
  min_max_lem t = (min_lem t, max_lem t)
