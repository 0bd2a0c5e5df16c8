-- ===== src/Map/Insert.antt =====
-- `__insert` puts a new item in its place and keeps the tree an AVL tree.
use trans_proxy.Base.{
  ℕ, ◌+◌, ◌≤◌, ◌≡◌, ◌≢◌, ◌⊎◌, max, inl, inr, refl, sym, ap, ◌∙◌, Bool, true, Option, some, ◌∷◌,
  ◌++◌, ==_iff, ==_false, length, arith,
}
use trans_proxy.Map.Order.{Key, less, compare}
use trans_proxy.Map.{
  Item, Tree, leaf, node, height, count, items, adjust_if, grown_by_one, insert, ◌>>=◌,
}
use trans_proxy.Map.Balance.{Balanced, Linked, adjust-Adjusted}
use trans_proxy.Map.Identity.{Fresh}
use trans_proxy.Map.Sorted.{
  All, All-append, All-map, count-items, Le, Le-trans, Sorted, Sorted-split, Sign-cases, place,
  place-append_before, place-append_after, length-place, compare-ne-less, compare_cases,
}

-- What `Adjusted` says of the new height is enough for what `Inserted` says of it.
abbrev Grows : ℕ → ℕ → ℕ → Type 0
Grows h hl hr =
    (n : ℕ)
    → max hl hr ≤ n
    → n ≤ max hl hr + 1
    → ((hl ≡ hr + 2) ⊎ (hr ≡ hl + 2)) ⊎ (n ≡ max hl hr + 1)
    → (h ≤ n) × (n ≤ h + 1)

module _ {K : Type 0} ⦃k : Key K⦄ where
  -- What inserting `x` under `par` makes of the tree `t`.
  pub record Inserted (par : Option (Item K)) (t : Tree K) (x : Item K) (o : Option (Bool × Tree K))
      : Type 0 where
    pub tree : Tree K
    pub result : o ≡ some (true, tree)
    pub balanced : Balanced tree
    pub linked : Linked par tree
    pub in_order : items tree ≡ place x (items t)
    pub at_least : height t ≤ height tree
    pub at_most : height tree ≤ height t + 1

  count-place : (x : Item K) (t u : Tree K) → items u ≡ place x (items t) → count u ≡ count t + 1
  count-place x t u e =
      omega (arith, count-items t, count-items u, ap length e, length-place x (items t))

  -- The steps after the recursive call: adjust, then check the count.
  abbrev finish : Tree K → Bool × Tree K → Option (Bool × Tree K)
  finish t (ret, u) = adjust_if ret u >>= λ r. grown_by_one (count t) r

  finish-Inserted :
      (t : Tree K) (x : Item K) (p : Option (Item K)) (h : ℕ) (l : Tree K) (y : Item K) (r : Tree K)
      → height l ≤ height r + 2
      → height r ≤ height l + 2
      → Grows (height t) (height l) (height r)
      → Balanced l × Balanced r
      → Linked (some y) l × Linked (some y) r
      → items l ++ (y ∷ items r) ≡ place x (items t)
      → Inserted p t x (finish t (true, node p h l y r))
  finish-Inserted t x p h l y r dl dr grows b k e =
      let a = adjust-Adjusted p h l y r dl dr b k in
      let order : items a.tree ≡ place x (items t) = a.in_order ∙ e in
      let (low, high) = grows (height a.tree) a.at_least a.at_most a.even in
      record {
        tree = a.tree;
        result = rw (a.result, (==_iff _ _).1 (count-place x t a.tree order));
        balanced = a.balanced;
        linked = a.linked;
        in_order = order;
        at_least = low;
        at_most = high;
      }

  module _ (par p : Option (Item K)) (h : ℕ) (l : Tree K) (y : Item K) (r : Tree K) (x : Item K)
      (other : y.id ≢ x.id) where
    insert_left :
        (u : Tree K)
        → compare x.key y.key ≡ less
        → insert (some y) l x ≡ some (true, u)
        → insert par (node p h l y r) x ≡ finish (node p h l y r) (true, node p h u y r)
    unfolding insert
    insert_left u c e = rw (==_false y.id x.id other, c, e)

    insert_right :
        (u : Tree K)
        → compare x.key y.key ≢ less
        → insert (some y) r x ≡ some (true, u)
        → insert par (node p h l y r) x ≡ finish (node p h l y r) (true, node p h l y u)
    unfolding insert
    insert_right u c e = rw (==_false y.id x.id other) (elim (compare_cases x.key y.key) [
      | inl (d, _, _) ↦ absurd (c d)
      | inr (inl (d, _)) ↦ rw (d, e)
      | inr (inr (d, _)) ↦ rw (d, e)
    ])

  -- Inserting an item that the tree does not hold succeeds: the item comes behind those that do not
  -- come after it, every height and parent link is right, and the height grows by one at most.
  pub insert-Inserted :
      (par : Option (Item K)) (t : Tree K) (x : Item K)
      → Balanced t
      → Linked par t
      → Sorted (items t)
      → Fresh x (items t)
      → Inserted par t x (insert par t x)
  unfolding insert
  insert-Inserted par leaf x b k s f = record {
    tree = node par 1 leaf x leaf;
    result = refl;
    balanced = omega arith;
    linked = (refl, tt, tt);
    in_order = unfold place in refl;
    at_least = omega arith;
    at_most = omega arith;
  }
  insert-Inserted par (node p h l y r) x b k s f =
      let (sl, below, above, sr) = Sorted-split (items l) y (items r) s in
      let (fl, fy) = All-append _ (items l) (y ∷ items r) f in
      let on_left = insert-Inserted (some y) l x b.3 k.1 sl fl in
      let on_right = insert-Inserted (some y) r x b.4 k.2 sr fy.1 in
      elim (Sign-cases (compare x.key y.key)) [
        | inl c ↦
            rw (insert_left par p h l y r x fy.0 on_left.tree c on_left.result, ← k.0)
              (finish-Inserted (node p h l y r) x p h on_left.tree y r
                (omega (arith, on_left.at_most)) (omega (arith, on_left.at_least))
                (λ n lo hi even. omega (arith, on_left.at_least, on_left.at_most))
                (on_left.balanced, b.4) (on_left.linked, k.2)
                (rw on_left.in_order (sym (place-append_before x y (items l) (items r) c))))
        | inr c ↦
            let reach : All (λ z. Le z.key x.key) (items l) =
              All-map (items l)
                (λ z q. Le-trans z.key y.key x.key q (compare-ne-less x.key y.key c)) below in
            rw (insert_right par p h l y r x fy.0 on_right.tree c on_right.result, ← k.0)
              (finish-Inserted (node p h l y r) x p h l y on_right.tree
                (omega (arith, on_right.at_least)) (omega (arith, on_right.at_most))
                (λ n lo hi even. omega (arith, on_right.at_least, on_right.at_most))
                (b.3, on_right.balanced) (k.1, on_right.linked)
                (rw on_right.in_order (sym (place-append_after x y (items l) (items r) reach c))))
      ]
