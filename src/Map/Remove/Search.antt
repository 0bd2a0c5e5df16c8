-- ===== src/Map/Remove/Search.antt =====
-- `__remove (root, node)` finds the node, whichever side of an equal key it lies on, and takes it
-- out.
use mathlib.Core.Bool.{false≢true}
use native.Mathlib.Decide.{ℕ_discrete}
use trans_proxy.Base.{
  ℕ, ◌+◌, ◌≤◌, ◌≡◌, ◌≢◌, inl, inr, refl, sym, ap, subst, ◌∙◌, Bool, true, false, Option, some, ◌∷◌,
  ◌++◌, ==_iff, ==_false, Bool-cases, arith,
}
use trans_proxy.Map.Order.{Key, less, greater, compare}
use trans_proxy.Map.{Item, Tree, leaf, node, height, items, adjust_if, ◌>>=◌}
use trans_proxy.Map.Balance.{Balanced, Linked, adjust-Adjusted}
use trans_proxy.Map.Sorted.{
  All-append, All-map, Le, Sorted, Sorted-split, compare_cases, ne-less-compare, Le-ne-greater,
}
use trans_proxy.Map.Identity.{
  Distinct, Distinct-split, Known, holds, erase, holds-Fresh, holds-append_left, holds-append_right,
  erase-append_left, erase-append_right, erase_absent, held_key,
}
use trans_proxy.Map.Remove.{remove, remove_root}
use trans_proxy.Map.Remove.Root.{remove_root-Joined}

module _ {K : Type 0} ⦃k : Key K⦄ where
  -- What removing `x` makes of the tree `t` that hangs under `par`.
  pub record Removed (par : Option (Item K)) (t : Tree K) (x : Item K) (o : Option (Bool × Tree K))
      : Type 0 where
    pub tree : Tree K
    pub result : o ≡ some (holds x (items t), tree)
    pub balanced : Balanced tree
    pub linked : Linked par tree
    pub in_order : items tree ≡ erase x (items t)
    pub at_most : height tree ≤ height t
    pub at_least : height t ≤ height tree + 1
    pub unchanged : holds x (items t) ≡ false → tree ≡ t

  module _ (p : Option (Item K)) (h : ℕ) (l : Tree K) (y : Item K) (r : Tree K) (x : Item K) where
    step_here :
        y.id ≡ x.id → remove (node p h l y r) x ≡ (remove_root p h l r >>= λ t. some (true, t))
    unfolding remove
    step_here e = rw ((==_iff _ _).1 e)

    step_left :
        (l' : Tree K)
        → y.id ≢ x.id
        → compare x.key y.key ≢ greater
        → remove l x ≡ some (true, l')
        → remove (node p h l y r) x ≡ adjust_if true (node p h l' y r)
    unfolding remove
    step_left l' d c e = rw (==_false _ _ d) (elim (compare_cases x.key y.key) [
      | inl (q, _, _) ↦ rw (q, e)
      | inr (inl (q, _)) ↦ rw (q, e)
      | inr (inr (q, _)) ↦ absurd (c q)
    ])

    step_right :
        (r' : Tree K)
        → y.id ≢ x.id
        → compare x.key y.key ≢ less
        → remove l x ≡ some (false, l)
        → remove r x ≡ some (true, r')
        → remove (node p h l y r) x ≡ adjust_if true (node p h l y r')
    unfolding remove
    step_right r' d c e f = rw (==_false _ _ d) (elim (compare_cases x.key y.key) [
      | inl (q, _, _) ↦ absurd (c q)
      | inr (inl (q, _)) ↦ rw (q, e, f)
      | inr (inr (q, _)) ↦ rw (q, f)
    ])

    step_none :
        y.id ≢ x.id
        → remove l x ≡ some (false, l)
        → remove r x ≡ some (false, r)
        → remove (node p h l y r) x ≡ some (false, node p h l y r)
    unfolding remove
    step_none d e f = rw (==_false _ _ d) (elim (compare_cases x.key y.key) [
      | inl (q, _, _) ↦ rw (q, e)
      | inr (inl (q, _)) ↦ rw (q, e, f)
      | inr (inr (q, _)) ↦ rw (q, f)
    ])

  -- A subtree that does not hold the item comes back as it was.
  found_nothing :
      {par : Option (Item K)} {t : Tree K} {x : Item K} {o : Option (Bool × Tree K)}
      → Removed par t x o
      → holds x (items t) ≡ false
      → o ≡ some (false, t)
  found_nothing {x = x} {o = o} v h = v.result ∙ rw (h, v.unchanged h)

  found_it :
      {par : Option (Item K)} {t : Tree K} {x : Item K} {o : Option (Bool × Tree K)}
      → (v : Removed par t x o) → holds x (items t) ≡ true
      → o ≡ some (true, v.tree)
  found_it v h = v.result ∙ rw h

  module _ (par p : Option (Item K)) (h : ℕ) (l : Tree K) (y : Item K) (r : Tree K) (x : Item K)
      (b : Balanced (node p h l y r)) (lk : Linked par (node p h l y r)) where
    Removed-here :
        y.id ≡ x.id
        → holds x (items l) ≡ false
        → Removed par (node p h l y r) x (remove (node p h l y r) x)
    Removed-here e f =
        let j = remove_root-Joined p h l y r b (refl, lk.1, lk.2) in
        let here : holds x (y ∷ items r) ≡ true = unfold holds in rw ((==_iff _ _).1 e) in
        let gone : erase x (y ∷ items r) ≡ items r = unfold erase in rw ((==_iff _ _).1 e) in
        let held : holds x (items l ++ (y ∷ items r)) ≡ true =
          holds-append_right x (items l) (y ∷ items r) f ∙ here in
        record {
          tree = j.tree;
          result = rw (step_here p h l y r x e, j.result, held);
          balanced = j.balanced;
          linked = subst (λ q. Linked q j.tree) lk.0 j.linked;
          in_order =
              j.in_order
              ∙ sym
                  (erase-append_right x (items l) (y ∷ items r) f ∙ ap (λ zs. items l ++ zs) gone);
          at_most = j.at_most;
          at_least = j.at_least;
          unchanged = λ q. absurd (false≢true (rw (← q) held));
        }

    Removed-left :
        (v : Removed (some y) l x (remove l x))
        → y.id ≢ x.id
        → compare x.key y.key ≢ greater
        → holds x (items l) ≡ true
        → Removed par (node p h l y r) x (remove (node p h l y r) x)
    Removed-left v d c held_l =
        let a =
          adjust-Adjusted p h v.tree y r (omega (arith, v.at_most)) (omega (arith, v.at_least))
            (v.balanced, b.4) (v.linked, lk.2) in
        let held : holds x (items l ++ (y ∷ items r)) ≡ true =
          holds-append_left x (items l) (y ∷ items r) held_l in
        record {
          tree = a.tree;
          result = rw (step_left p h l y r x v.tree d c (found_it v held_l), a.result, held);
          balanced = a.balanced;
          linked = subst (λ q. Linked q a.tree) lk.0 a.linked;
          in_order =
              a.in_order ∙ rw v.in_order (sym (erase-append_left x (items l) (y ∷ items r) held_l));
          at_most = omega (arith, v.at_most, v.at_least, a.at_most, a.even);
          at_least = omega (arith, v.at_most, v.at_least, a.at_least, a.even);
          unchanged = λ q. absurd (false≢true (rw (← q) held));
        }

    Removed-right :
        (v : Removed (some y) r x (remove r x))
        → y.id ≢ x.id
        → compare x.key y.key ≢ less
        → holds x (items l) ≡ false
        → remove l x ≡ some (false, l)
        → holds x (items r) ≡ true
        → Removed par (node p h l y r) x (remove (node p h l y r) x)
    Removed-right v d c f e held_r =
        let a =
          adjust-Adjusted p h l y v.tree (omega (arith, v.at_least)) (omega (arith, v.at_most))
            (b.3, v.balanced) (lk.1, v.linked) in
        let rest : holds x (y ∷ items r) ≡ true = unfold holds in rw (==_false _ _ d) held_r in
        let gone : erase x (y ∷ items r) ≡ y ∷ erase x (items r) =
          unfold erase in rw (==_false _ _ d) in
        let held : holds x (items l ++ (y ∷ items r)) ≡ true =
          holds-append_right x (items l) (y ∷ items r) f ∙ rest in
        record {
          tree = a.tree;
          result = rw (step_right p h l y r x v.tree d c e (found_it v held_r), a.result, held);
          balanced = a.balanced;
          linked = subst (λ q. Linked q a.tree) lk.0 a.linked;
          in_order =
              a.in_order
              ∙ rw v.in_order (
                  sym (
                    erase-append_right x (items l) (y ∷ items r) f
                    ∙ ap (λ zs. items l ++ zs) gone));
          at_most = omega (arith, v.at_most, v.at_least, a.at_most, a.even);
          at_least = omega (arith, v.at_most, v.at_least, a.at_least, a.even);
          unchanged = λ q. absurd (false≢true (rw (← q) held));
        }

    Removed-none :
        y.id ≢ x.id
        → holds x (items l) ≡ false
        → holds x (items r) ≡ false
        → remove l x ≡ some (false, l)
        → remove r x ≡ some (false, r)
        → Removed par (node p h l y r) x (remove (node p h l y r) x)
    Removed-none d fl fr e f =
        let rest : holds x (y ∷ items r) ≡ false = unfold holds in rw (==_false _ _ d) fr in
        let none_held : holds x (items l ++ (y ∷ items r)) ≡ false =
          holds-append_right x (items l) (y ∷ items r) fl ∙ rest in
        record {
          tree = node p h l y r;
          result = step_none p h l y r x d e f ∙ rw none_held;
          balanced = b;
          linked = lk;
          in_order = sym (erase_absent x (items l ++ (y ∷ items r)) none_held);
          at_most = omega arith;
          at_least = omega arith;
          unchanged = λ q. refl;
        }

  -- `__remove` never aborts: it reports whether the tree holds the item, takes exactly that item
  -- out, and keeps heights, balance and parent links.
  pub remove-Removed :
      (par : Option (Item K)) (t : Tree K) (x : Item K)
      → Balanced t
      → Linked par t
      → Sorted (items t)
      → Distinct (items t)
      → Known x (items t)
      → Removed par t x (remove t x)
  remove-Removed par leaf x b lk s d n = record {
    tree = leaf;
    result = unfold remove holds in refl;
    balanced = tt;
    linked = tt;
    in_order = unfold erase in refl;
    at_most = omega arith;
    at_least = omega arith;
    unchanged = λ q. refl;
  }
  remove-Removed par (node p h l y r) x b lk s d n =
      let (sl, below, above, sr) = Sorted-split (items l) y (items r) s in
      let (dl, before, after, dr) = Distinct-split (items l) y (items r) d in
      let (nl, ny) = All-append _ (items l) (y ∷ items r) n in
      let on_left = remove-Removed (some y) l x b.3 lk.1 sl dl nl in
      let on_right = remove-Removed (some y) r x b.4 lk.2 sr dr ny.1 in
      elim (ℕ_discrete y.id x.id) [
        | yes e ↦
            Removed-here par p h l y r x b lk e
              (holds-Fresh x (items l) (All-map (items l) (λ z q i. q (i ∙ sym e)) before))
        | no other ↦ elim (Bool-cases (holds x (items l))) [
          | inl hl ↦
              Removed-left par p h l y r x b lk on_left other
                (Le-ne-greater x.key y.key (held_key (λ q. Le q y.key) x (items l) below nl hl)) hl
          | inr fl ↦ elim (Bool-cases (holds x (items r))) [
            | inl hr ↦
                Removed-right par p h l y r x b lk on_right other
                  (ne-less-compare x.key y.key
                    (held_key (λ q. Le y.key q) x (items r) above ny.1 hr))
                  fl (found_nothing on_left fl) hr
            | inr fr ↦
                Removed-none par p h l y r x b lk other fl fr (found_nothing on_left fl)
                  (found_nothing on_right fr)
          ]
        ]
      ]
