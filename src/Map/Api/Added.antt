-- ===== src/Map/Api/Added.antt =====
-- A map whose keys all differ, to which an item with a key that no item has is added.
use trans_proxy.Base.{
  ◌+◌, ◌<◌, ◌≡◌, ◌≢◌, inl, inr, refl, sym, ap, subst, ◌∙◌, Bool, true, Option, none, some, List, [],
  ◌∷◌, size_mod,
}
use trans_proxy.Map.{Item, leaf}
use trans_proxy.Map.Order.{Key, compare}
use trans_proxy.Map.Sorted.{All, Sign-cases, place, place_before, place_after, place-All}
use trans_proxy.Map.Identity.{Fresh}
use trans_proxy.Map.Api.{AvlMap, add, get}
use trans_proxy.Map.Api.Valid.{IsValid, contents, add_lem}
use trans_proxy.Map.Api.Lookup.{Member, Finds, get-Finds}

pub All-Member : {A : Type 0} (P : A → Type 0) (xs : List A) {x : A} → All P xs → Member x xs → P x
All-Member P [] a h = elim h [ ]
All-Member P (y ∷ ys) a (inl e) = subst P (sym e) a.0
All-Member P (y ∷ ys) a (inr h) = All-Member P ys a.1 h

module _ {K : Type 0} where
  -- No two items have the same key.
  abbrev pub Unique : List (Item K) → Type 0
  Unique [] = Unit {0}
  Unique (x ∷ xs) = All (λ y. y.key ≢ x.key) xs × Unique xs

  Unique-Member :
      (xs : List (Item K)) (x y : Item K)
      → Unique xs
      → Member x xs
      → Member y xs
      → x.key ≡ y.key
      → x ≡ y
  Unique-Member [] x y u h g e = elim h [ ]
  Unique-Member (z ∷ zs) x y u (inl a) (inl b) e = a ∙ sym b
  Unique-Member (z ∷ zs) x y u (inl a) (inr g) e =
      absurd (All-Member (λ w. w.key ≢ z.key) zs u.0 g (subst (λ w. y.key ≡ w.key) a (sym e)))
  Unique-Member (z ∷ zs) x y u (inr h) (inl b) e =
      absurd (All-Member (λ w. w.key ≢ z.key) zs u.0 h (subst (λ w. x.key ≡ w.key) b e))
  Unique-Member (z ∷ zs) x y u (inr h) (inr g) e = Unique-Member zs x y u.1 h g e

module _ {K : Type 0} ⦃k : Key K⦄ where
  -- Among items with different keys a search has one result.
  same_result :
      (key : K) (xs : List (Item K)) (o o' : Option (Item K))
      → Unique xs
      → Finds key xs o
      → Finds key xs o'
      → o ≡ o'
  same_result key xs none none u f g = refl
  same_result key xs none (some y) u f g = absurd (All-Member (λ z. z.key ≢ key) xs f g.0 g.1)
  same_result key xs (some x) none u f g = absurd (All-Member (λ z. z.key ≢ key) xs g f.0 f.1)
  same_result key xs (some x) (some y) u f g =
      ap some (Unique-Member xs x y u f.0 g.0 (f.1 ∙ sym g.1))

  placed-Member : (x : Item K) (xs : List (Item K)) → Member x (place x xs)
  placed-Member x [] = unfold place in inl refl
  placed-Member x (y ∷ ys) = elim (Sign-cases (compare x.key y.key)) [
    | inl e ↦ rw (place_before x y ys e) (inl refl)
    | inr n ↦ rw (place_after x y ys n) (inr (placed-Member x ys))
  ]

  Member-place : (x z : Item K) (xs : List (Item K)) → Member z xs → Member z (place x xs)
  Member-place x z [] h = elim h [ ]
  Member-place x z (y ∷ ys) h = elim (Sign-cases (compare x.key y.key)) [
    | inl e ↦ rw (place_before x y ys e) (inr h)
    | inr n ↦
        rw (place_after x y ys n) (elim h [ inl e ↦ inl e | inr g ↦ inr (Member-place x z ys g) ])
  ]

  place-Unique :
      (x : Item K) (xs : List (Item K))
      → All (λ y. y.key ≢ x.key) xs
      → Unique xs
      → Unique (place x xs)
  place-Unique x [] a u = unfold place in (tt, tt)
  place-Unique x (y ∷ ys) a u = elim (Sign-cases (compare x.key y.key)) [
    | inl e ↦ rw (place_before x y ys e) (a, u)
    | inr n ↦
        rw (place_after x y ys n)
          (place-All (λ z. z.key ≢ y.key) x ys (λ e. a.0 (sym e)) u.0, place-Unique x ys a.1 u.1)
  ]

  Finds-place :
      (key : K) (x : Item K) (xs : List (Item K)) (o : Option (Item K))
      → x.key ≢ key
      → Finds key xs o
      → Finds key (place x xs) o
  Finds-place key x xs none n f = place-All (λ y. y.key ≢ key) x xs n f
  Finds-place key x xs (some y) n f = (Member-place x y xs f.0, f.1)

  -- A map that can be added to, with room for one more item.
  pub record IsTable (m : AvlMap K) : Type 0 where
    pub valid : IsValid m
    pub unique : Unique (contents m)

  -- `m'` is `m` with `x` added: the searches that find something else.
  pub record Grown (m : AvlMap K) (x : Item K) : Type 0 where
    pub map : AvlMap K
    pub result : add m x ≡ some (true, map)
    pub table : IsTable map
    pub in_order : contents map ≡ place x (contents m)
    pub size : map.size ≡ m.size + 1
    pub get_new : get map.root x.key ≡ some x
    pub get_old : (key : K) → x.key ≢ key → get map.root key ≡ get m.root key

  -- An added item is what `get` finds under its key, and every other key finds what it found.
  pub add-Grown :
      (m : AvlMap K) (x : Item K)
      → IsTable m
      → get m.root x.key ≡ none
      → Fresh x (contents m)
      → m.size + 1 < size_mod
      → Grown m x
  add-Grown m x t e f room =
      let (m', result, v, c, size) = add_lem m x t.valid f room in
      let others : All (λ y. y.key ≢ x.key) (contents m) =
        subst (Finds x.key (contents m)) e (get-Finds m.root x.key t.valid.sorted) in
      let u : Unique (contents m') =
        subst Unique (sym c) (place-Unique x (contents m) others t.unique) in
      record {
        map = m';
        result = result;
        table = record { valid = v; unique = u };
        in_order = c;
        size = size;
        get_new =
            same_result x.key (contents m') (get m'.root x.key) (some x) u
              (get-Finds m'.root x.key v.sorted)
              (subst (λ q. Finds x.key q (some x)) (sym c) (placed-Member x (contents m), refl));
        get_old = λ key n.
            same_result key (contents m') (get m'.root key) (get m.root key) u
              (get-Finds m'.root key v.sorted)
              (subst (λ q. Finds key q (get m.root key)) (sym c)
                (Finds-place key x (contents m) (get m.root key) n
                  (get-Finds m.root key t.valid.sorted)));
      }

  -- A map with no items.
  pub empty-IsTable : (named : Bool) → IsTable (record { named = named; root = leaf; size = 0 })
  empty-IsTable named = record {
    valid = record { balanced = tt; linked = tt; sorted = tt; distinct = tt; counted = refl };
    unique = tt;
  }
