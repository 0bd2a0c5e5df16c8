-- ===== src/Links/Refine.antt =====
-- The calls of a list put items in and take them out, as in a sequence.
use trans_proxy.Base.{
  ℕ, ◌+◌, ◌<◌, ◌≡◌, ◌≢◌, refl, sym, ap, ap₂, subst, ◌∙◌, Option, none, some, List, [], ◌∷◌, ◌++◌,
  ==_self, ==_false, length, length-append, size_mod, arith,
}
use trans_proxy.Map.Sorted.{All, All-append, append-All}
use trans_proxy.Links.{
  Cells, Linked, set_prev, set_next, prev_if, next_if, or_end, insert_before, remove,
}
use trans_proxy.Links.Chain.{
  first_or, last_or, Apart, Chain, first_or-append, last_or-append, Chain-append, append-Chain,
  last_found, Away, set_prev-Chain, set_next-Chain, relink_first, relink_last, prev_if-Chain,
  next_if-Chain, Apart-append, Away-last, Away-first,
}

-- The list holds these items in this order.
pub record IsList (l : Linked) (xs : List ℕ) : Type 0 where
  pub first : l.first ≡ first_or xs none
  pub last : l.last ≡ last_or none xs
  pub chain : Chain l.cells none xs none
  pub apart : Apart xs
  pub counted : l.count ≡ length xs

prev_if_other : (c : Cells) (o v : Option ℕ) (x : ℕ) → Away o (x ∷ []) → prev_if o v c x ≡ c x
prev_if_other c none v x a = refl
prev_if_other c (some i) v x a = rw (==_false x i a.0) refl

next_if_other : (c : Cells) (o v : Option ℕ) (x : ℕ) → Away o (x ∷ []) → next_if o v c x ≡ c x
next_if_other c none v x a = refl
next_if_other c (some i) v x a = rw (==_false x i a.0) refl

first_other : (x : ℕ) (zs : List ℕ) → All (λ y. y ≢ x) zs → Away (first_or zs none) (x ∷ [])
first_other x [] a = tt
first_other x (z ∷ zs) a = ((λ q. a.0 (sym q)), tt)

last_other : (x : ℕ) (ys : List ℕ) → All (λ y. y ≢ x) ys → Away (last_or none ys) (x ∷ [])
last_other x [] a = tt
last_other x (y ∷ ys) a =
    let (z, e, n) = last_found (λ w. w ≢ x) y ys a in
    subst (λ o. Away o (x ∷ [])) (sym e) ((λ q. n (sym q)), tt)

-- The links of a new item between two parts, and of its neighbours.
abbrev linked_in : ℕ → Option ℕ → Option ℕ → Cells → Cells
linked_in x p n c = next_if p (some x) (prev_if n (some x) (set_next x n (set_prev x p c)))

linked_in-Chain :
    (c : Cells) (x : ℕ) (ys zs : List ℕ)
    → Chain c none (ys ++ zs) none
    → Apart (ys ++ zs)
    → All (λ y. y ≢ x) (ys ++ zs)
    → Chain (linked_in x (last_or none ys) (first_or zs none) c) none (ys ++ (x ∷ zs)) none
linked_in-Chain c x ys zs h a new =
    let p = last_or none ys in
    let n = first_or zs none in
    let (before, behind) = Chain-append c none ys zs none h in
    let (apart, apart', _) = Apart-append ys zs a in
    let (new_y, new_z) = All-append (λ y. y ≢ x) ys zs new in
    let c1 = set_prev x p c in
    let c2 = set_next x n c1 in
    let c3 = prev_if n (some x) c2 in
    let own : linked_in x p n c x ≡ c2 x =
      next_if_other c3 p (some x) x (last_other x ys new_y)
      ∙ prev_if_other c2 n (some x) x (first_other x zs new_z) in
    let own_prev : (c2 x).prev ≡ p = rw (==_self x) refl in
    let own_next : (c2 x).next ≡ n = rw (==_self x) refl in
    append-Chain (linked_in x p n c) none ys (x ∷ zs) none
      (relink_last c3 none ys n (some x) apart (
        prev_if-Chain c2 n (some x) none ys n (Away-first ys zs a)
          (set_next-Chain c1 x n none ys n new_y (set_prev-Chain c x p none ys n new_y before))))
      (
        ap (λ k. k.prev) own ∙ own_prev,
        ap (λ k. k.next) own ∙ own_next,
        next_if-Chain c3 p (some x) (some x) zs none (Away-last ys zs a) (
            relink_first c2 p (some x) zs none apart' (
              set_next-Chain c1 x n p zs none new_z (set_prev-Chain c x p p zs none new_z behind))),
      )

Apart-insert :
    (x : ℕ) (ys zs : List ℕ)
    → Apart (ys ++ zs)
    → All (λ y. y ≢ x) (ys ++ zs)
    → Apart (ys ++ (x ∷ zs))
Apart-insert x [] zs a new = (new, a)
Apart-insert x (y ∷ ys) zs (d, a) (e, new) =
    let (f, g) = All-append (λ w. w ≢ y) ys zs d in
    (append-All (λ w. w ≢ y) ys (x ∷ zs) f ((λ q. e (sym q)), g), Apart-insert x ys zs a new)

Apart-remove : (x : ℕ) (ys zs : List ℕ) → Apart (ys ++ (x ∷ zs)) → Apart (ys ++ zs)
Apart-remove x [] zs (d, a) = a
Apart-remove x (y ∷ ys) zs (d, a) =
    let (f, g) = All-append (λ w. w ≢ y) ys (x ∷ zs) d in
    (append-All (λ w. w ≢ y) ys zs f g.1, Apart-remove x ys zs a)

all_units : (xs : List ℕ) → All (λ w. Unit {0}) xs
all_units [] = tt
all_units (x ∷ xs) = (tt, all_units xs)

-- `or_end` keeps the first item unless there is none before.
first_kept :
    (old v : Option ℕ) (ys zs : List ℕ)
    → old ≡ first_or (ys ++ zs) none
    → or_end (last_or none ys) v old ≡ first_or ys v
first_kept old v [] zs e = refl
first_kept old v (y ∷ ys) zs e =
    let (z, f, t) = last_found (λ w. Unit {0}) y ys (all_units (y ∷ ys)) in
    ap (λ o. or_end o v old) f ∙ e

-- `insertBefore` puts a new item right before the item that it is given, in the links, in `_first` and in
-- the count, and changes nothing else, in any list that a `size_t` counts with one more.
pub insert_before-IsList :
    (l : Linked) (x r : ℕ) (ys zs : List ℕ)
    → IsList l (ys ++ (r ∷ zs))
    → All (λ y. y ≢ x) (ys ++ (r ∷ zs))
    → l.count + 1 < size_mod
    → IsList (insert_before x (some r) l) (ys ++ (x ∷ r ∷ zs))
unfolding insert_before
insert_before-IsList l x r ys zs v new room =
    let prev : (l.cells r).prev ≡ last_or none ys =
      (Chain-append l.cells none ys (r ∷ zs) none v.chain).1.0 in
    record {
      first =
          ap (λ o. or_end o (some x) l.first) prev
          ∙ first_kept l.first (some x) ys (r ∷ zs) v.first
          ∙ sym (first_or-append ys (x ∷ r ∷ zs) none);
      last = v.last ∙ last_or-append none ys (r ∷ zs) ∙ sym (last_or-append none ys (x ∷ r ∷ zs));
      chain =
          subst (λ o. Chain (linked_in x o (some r) l.cells) none (ys ++ (x ∷ r ∷ zs)) none)
            (sym prev) (linked_in-Chain l.cells x ys (r ∷ zs) v.chain v.apart new);
      apart = Apart-insert x ys (r ∷ zs) v.apart new;
      counted = omega (arith, v.counted, length-append ys (r ∷ zs), length-append ys (x ∷ r ∷ zs));
    }

last_kept :
    (old : Option ℕ) (x : ℕ) (ys zs : List ℕ)
    → old ≡ last_or none (ys ++ (x ∷ zs))
    → or_end (first_or zs none) (last_or none ys) old ≡ last_or none (ys ++ zs)
last_kept old x ys [] e = sym (last_or-append none ys [])
last_kept old x ys (z ∷ zs) e =
    e ∙ last_or-append none ys (x ∷ z ∷ zs) ∙ sym (last_or-append none ys (z ∷ zs))

-- `remove` takes out the item that it is given, wherever it stands in the list, and changes nothing else:
-- the links, `_first`, `_last` and the count are those of the list without it.
pub remove-IsList :
    (l : Linked) (x : ℕ) (ys zs : List ℕ)
    → IsList l (ys ++ (x ∷ zs))
    → l.count < size_mod
    → IsList (remove x l) (ys ++ zs)
unfolding remove
remove-IsList l x ys zs v room =
    let (before, behind) = Chain-append l.cells none ys (x ∷ zs) none v.chain in
    let p = last_or none ys in
    let n = first_or zs none in
    let apart = Apart-remove x ys zs v.apart in
    let (apart_y, apart_z, _) = Apart-append ys zs apart in
    let cells : Chain (prev_if n p (next_if p n l.cells)) none (ys ++ zs) none =
      append-Chain (prev_if n p (next_if p n l.cells)) none ys zs none
        (prev_if-Chain (next_if p n l.cells) n p none ys n (Away-first ys zs apart)
          (relink_last l.cells none ys (some x) n apart_y before))
        (relink_first (next_if p n l.cells) (some x) p zs none apart_z
          (next_if-Chain l.cells p n (some x) zs none (Away-last ys zs apart) behind.2)) in
    record {
      first =
          ap₂ (λ a b. or_end a b l.first) behind.0 behind.1
          ∙ first_kept l.first n ys (x ∷ zs) v.first
          ∙ sym (first_or-append ys zs none);
      last = ap₂ (λ a b. or_end b a l.last) behind.0 behind.1 ∙ last_kept l.last x ys zs v.last;
      chain =
          subst
            (λ a.
              Chain (prev_if (l.cells x).next a (next_if a (l.cells x).next l.cells)) none
                (ys ++ zs) none)
            (sym behind.0)
            (subst (λ b. Chain (prev_if b p (next_if p b l.cells)) none (ys ++ zs) none)
              (sym behind.1) cells);
      apart = apart;
      counted = omega (arith, v.counted, length-append ys (x ∷ zs), length-append ys zs);
    }
