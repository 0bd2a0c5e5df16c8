-- ===== src/Links/Chain.antt =====
-- Items that are linked one behind the other, and what a changed link does to them.
use trans_proxy.Base.{
  ℕ, ◌≡◌, ◌≢◌, refl, sym, subst, ◌∙◌, Option, none, some, List, [], ◌∷◌, ◌++◌, ==_self, ==_false,
}
use trans_proxy.Map.Sorted.{All, All-map, All-append}
use trans_proxy.Links.{Cells, set_prev, set_next, prev_if, next_if}

abbrev pub first_or : List ℕ → Option ℕ → Option ℕ
first_or [] n = n
first_or (x ∷ xs) n = some x

abbrev pub last_or : Option ℕ → List ℕ → Option ℕ
last_or p [] = p
last_or p (x ∷ xs) = last_or (some x) xs

abbrev pub Apart : List ℕ → Type 0
Apart [] = Unit {0}
Apart (x ∷ xs) = All (λ y. y ≢ x) xs × Apart xs

-- The items are linked in this order, between `p` and `n`.
abbrev pub Chain : Cells → Option ℕ → List ℕ → Option ℕ → Type 0
Chain c p [] n = Unit {0}
Chain c p (x ∷ xs) n = ((c x).prev ≡ p) × ((c x).next ≡ first_or xs n) × Chain c (some x) xs n

pub first_or-append :
    (xs ys : List ℕ) (n : Option ℕ) → first_or (xs ++ ys) n ≡ first_or xs (first_or ys n)
first_or-append [] ys n = refl
first_or-append (x ∷ xs) ys n = refl

pub last_or-append :
    (p : Option ℕ) (xs ys : List ℕ) → last_or p (xs ++ ys) ≡ last_or (last_or p xs) ys
last_or-append p [] ys = refl
last_or-append p (x ∷ xs) ys = last_or-append (some x) xs ys

pub Chain-append :
    (c : Cells) (p : Option ℕ) (xs ys : List ℕ) (n : Option ℕ)
    → Chain c p (xs ++ ys) n
    → Chain c p xs (first_or ys n) × Chain c (last_or p xs) ys n
Chain-append c p [] ys n h = (tt, h)
Chain-append c p (x ∷ xs) ys n (a, b, h) =
    let (f, g) = Chain-append c (some x) xs ys n h in ((a, b ∙ first_or-append xs ys n, f), g)

pub append-Chain :
    (c : Cells) (p : Option ℕ) (xs ys : List ℕ) (n : Option ℕ)
    → Chain c p xs (first_or ys n)
    → Chain c (last_or p xs) ys n
    → Chain c p (xs ++ ys) n
append-Chain c p [] ys n f g = g
append-Chain c p (x ∷ xs) ys n (a, b, f) g =
    (a, b ∙ sym (first_or-append xs ys n), append-Chain c (some x) xs ys n f g)

pub last_found :
    (P : ℕ → Type 0) (y : ℕ) (xs : List ℕ)
    → All P (y ∷ xs)
    → (z : ℕ) × (last_or (some y) xs ≡ some z) × P z
last_found P y [] (p, a) = (y, refl, p)
last_found P y (x ∷ xs) (p, a) = last_found P x xs a

-- The pointer, if it is not null, is to none of the items.
abbrev pub Away : Option ℕ → List ℕ → Type 0
Away none xs = Unit {0}
Away (some i) xs = All (λ x. x ≢ i) xs

-- A link of an item that is not among them changes nothing.
pub set_prev-Chain :
    (c : Cells) (i : ℕ) (v p : Option ℕ) (xs : List ℕ) (n : Option ℕ)
    → All (λ x. x ≢ i) xs
    → Chain c p xs n
    → Chain (set_prev i v c) p xs n
set_prev-Chain c i v p [] n a h = tt
set_prev-Chain c i v p (x ∷ xs) n (d, a) (f, g, h) =
    (rw (==_false x i d) f, rw (==_false x i d) g, set_prev-Chain c i v (some x) xs n a h)

pub set_next-Chain :
    (c : Cells) (i : ℕ) (v p : Option ℕ) (xs : List ℕ) (n : Option ℕ)
    → All (λ x. x ≢ i) xs
    → Chain c p xs n
    → Chain (set_next i v c) p xs n
set_next-Chain c i v p [] n a h = tt
set_next-Chain c i v p (x ∷ xs) n (d, a) (f, g, h) =
    (rw (==_false x i d) f, rw (==_false x i d) g, set_next-Chain c i v (some x) xs n a h)

-- The first item, if there is one, is linked to another one before it.
pub relink_first :
    (c : Cells) (p v : Option ℕ) (xs : List ℕ) (n : Option ℕ)
    → Apart xs
    → Chain c p xs n
    → Chain (prev_if (first_or xs none) v c) v xs n
relink_first c p v [] n a h = tt
relink_first c p v (x ∷ xs) n (d, a) (f, g, h) =
    (rw (==_self x) refl, rw (==_self x) g, set_prev-Chain c x v (some x) xs n d h)

-- The last item, if there is one, is linked to another one behind it.
pub relink_last :
    (c : Cells) (p : Option ℕ) (xs : List ℕ) (n v : Option ℕ)
    → Apart xs
    → Chain c p xs n
    → Chain (next_if (last_or none xs) v c) p xs v
relink_last c p [] n v a h = tt
relink_last c p (x ∷ []) n v a (f, g, h) = (rw (==_self x) f, rw (==_self x) refl, tt)
relink_last c p (x ∷ y ∷ xs) n v (d, a) (f, g, h) =
    let (z, e, other) = last_found (λ w. w ≢ x) y xs d in
    let apart : x ≢ z = (λ q. other (sym q)) in
    (
      subst (λ o. (next_if o v c x).prev ≡ p) (sym e) (rw (==_false x z apart) f),
      subst (λ o. (next_if o v c x).next ≡ some y) (sym e) (rw (==_false x z apart) g),
      relink_last c (some x) (y ∷ xs) n v a h,
    )

pub prev_if-Chain :
    (c : Cells) (o v p : Option ℕ) (xs : List ℕ) (n : Option ℕ)
    → Away o xs
    → Chain c p xs n
    → Chain (prev_if o v c) p xs n
prev_if-Chain c none v p xs n a h = h
prev_if-Chain c (some i) v p xs n a h = set_prev-Chain c i v p xs n a h

pub next_if-Chain :
    (c : Cells) (o v p : Option ℕ) (xs : List ℕ) (n : Option ℕ)
    → Away o xs
    → Chain c p xs n
    → Chain (next_if o v c) p xs n
next_if-Chain c none v p xs n a h = h
next_if-Chain c (some i) v p xs n a h = set_next-Chain c i v p xs n a h

-- Two parts of items that are all apart.
pub Apart-append :
    (xs ys : List ℕ) → Apart (xs ++ ys) → Apart xs × Apart ys × All (λ x. All (λ y. y ≢ x) ys) xs
Apart-append [] ys a = (tt, a, tt)
Apart-append (x ∷ xs) ys (d, a) =
    let (b, c, e) = Apart-append xs ys a in
    let (f, g) = All-append (λ y. y ≢ x) xs ys d in ((f, b), c, (g, e))

pub Away-last : (xs ys : List ℕ) → Apart (xs ++ ys) → Away (last_or none xs) ys
Away-last [] ys a = tt
Away-last (x ∷ xs) ys a =
    let (z, e, other) = last_found (λ w. All (λ y. y ≢ w) ys) x xs (Apart-append (x ∷ xs) ys a).2 in
    subst (λ o. Away o ys) (sym e) other

pub Away-first : (xs ys : List ℕ) → Apart (xs ++ ys) → Away (first_or ys none) xs
Away-first xs [] a = tt
Away-first xs (y ∷ ys) a = All-map xs (λ x d q. d.0 (sym q)) (Apart-append xs (y ∷ ys) a).2
