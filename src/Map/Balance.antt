-- ===== src/Map/Balance.antt =====
-- The shape that a map keeps, and that `__adjust` restores it.
use mathlib.Core.List.{append_assoc}
use native.Mathlib.Decide.{dec_le, dec_lt, ℕ_discrete}
use trans_proxy.Base.{
  ℕ, ◌+◌, ◌≤◌, max, ◌≡◌, ◌⊎◌, inl, inr, refl, Option, some, ◌∷◌, ◌++◌, List, arith, leb_iff,
  leb-false, ltb-false, lt→ltb, ==_iff, ==_false,
}
use trans_proxy.Map.{
  Item, Tree, leaf, node, height, items, reparent, rotate_left_right, rotate_right,
  rotate_right_left, rotate_left, adjust,
}

module _ {K : Type 0} where
  -- Every height field is right, and sibling heights differ by at most one.
  abbrev pub Balanced : Tree K → Type 0
  Balanced leaf = Unit {0}
  Balanced (node p h l x r) =
      (h ≡ max (height l) (height r) + 1)
      × (height l ≤ height r + 1)
      × (height r ≤ height l + 1)
      × Balanced l
      × Balanced r

  -- Every parent link names the node above; `q` is the one above the root.
  abbrev pub Linked : Option (Item K) → Tree K → Type 0
  Linked q leaf = Unit {0}
  Linked q (node p h l x r) = (p ≡ q) × Linked (some x) l × Linked (some x) r

  pub reparent-Linked :
      (q q' : Option (Item K)) (t : Tree K) → Linked q t → Linked q' (reparent q' t)
  reparent-Linked q q' leaf v = tt
  reparent-Linked q q' (node p h l x r) v = (refl, v.1, v.2)

  pub reparent-Balanced : (q : Option (Item K)) (t : Tree K) → Balanced t → Balanced (reparent q t)
  reparent-Balanced q leaf b = tt
  reparent-Balanced q (node p h l x r) b = b

  pub height-reparent : (q : Option (Item K)) (t : Tree K) → height (reparent q t) ≡ height t
  height-reparent q leaf = refl
  height-reparent q (node p h l x r) = refl

  pub items-reparent : (q : Option (Item K)) (t : Tree K) → items (reparent q t) ≡ items t
  items-reparent q leaf = refl
  items-reparent q (node p h l x r) = refl

  -- What `__adjust` makes of a node with children of heights `hl` and `hr` and with `xs` in order.
  pub record Adjusted (p : Option (Item K)) (hl hr : ℕ) (xs : List (Item K)) (o : Option (Tree K))
      : Type 0 where
    pub tree : Tree K
    pub result : o ≡ some tree
    pub balanced : Balanced tree
    pub linked : Linked p tree
    pub in_order : items tree ≡ xs
    pub at_least : max hl hr ≤ height tree
    pub at_most : height tree ≤ max hl hr + 1
    pub even : ((hl ≡ hr + 2) ⊎ (hr ≡ hl + 2)) ⊎ (height tree ≡ max hl hr + 1)

  rotate_left_right-Adjusted :
      (p : Option (Item K)) (h : ℕ) (ll : Tree K) (y : Item K) (lr : Tree K) (x : Item K)
      (r : Tree K)
      → h ≡ height r + 2
      → height ll ≡ height r
      → height lr ≡ height r + 1
      → Balanced ll × Balanced lr × Balanced r
      → Linked (some y) ll × Linked (some y) lr × Linked (some x) r
      → Adjusted p h
          (height r)
          (items ll ++ (y ∷ items lr) ++ (x ∷ items r))
          (rotate_left_right p ll y lr x r)
  unfolding rotate_left_right
  rotate_left_right-Adjusted p h ll y leaf x r e el er b k = absurd (omega arith)
  rotate_left_right-Adjusted p h ll y (node zp zh lrl z lrr) x r e el er b k =
      let left = reparent (some y) lrl in
      let right = reparent (some x) lrr in
      let hl = height-reparent (some y) lrl in
      let hr = height-reparent (some x) lrr in
      record {
        tree =
            node p (max (max (height ll) (height lrl) + 1) (max (height lrr) (height r) + 1) + 1)
              (node (some z) (max (height ll) (height lrl) + 1) ll y left) z
              (node (some z) (max (height lrr) (height r) + 1) right x r);
        result = refl;
        balanced =
            ground (arith, hl, hr, reparent-Balanced (some y) lrl, reparent-Balanced (some x) lrr);
        linked = (
          refl,
          (refl, k.0, reparent-Linked (some z) (some y) lrl k.1.1),
          (refl, reparent-Linked (some z) (some x) lrr k.1.2, k.2),
        );
        in_order = simp (items-reparent, append_assoc);
        at_least = omega arith;
        at_most = omega arith;
        even = inl (inl e);
      }

  rotate_right-Adjusted :
      (p : Option (Item K)) (l : Tree K) (x : Item K) (r : Tree K)
      → height l ≡ height r + 2
      → Balanced l × Balanced r
      → Linked (some x) l × Linked (some x) r
      → Adjusted p (height l) (height r) (items l ++ (x ∷ items r)) (rotate_right p l x r)
  unfolding rotate_right
  rotate_right-Adjusted p leaf x r e b k = absurd (omega arith)
  rotate_right-Adjusted p (node lp lh ll y lr) x r e b k =
      let moved = reparent (some x) lr in
      let hm = height-reparent (some x) lr in
      elim (dec_le (height lr) (height ll)) [
        | yes c ↦ rw ((leb_iff _ _).1 c) (record {
          tree = node p _ ll y (node (some y) (max (height lr) (height r) + 1) moved x r);
          result = refl;
          balanced = ground (arith, hm, reparent-Balanced (some x) lr);
          linked = (refl, k.0.1, (refl, reparent-Linked (some y) (some x) lr k.0.2, k.1));
          in_order = simp (items-reparent, append_assoc);
          at_least = omega arith;
          at_most = omega arith;
          even = inl (inl e);
        })
        | no c ↦ rw (leb-false (height lr) (height ll) (omega arith)) (
            rotate_left_right-Adjusted p lh ll y lr x r e (omega arith) (omega arith)
              (b.0.3, b.0.4, b.1) (k.0.1, k.0.2, k.1))
      ]

  rotate_right_left-Adjusted :
      (p : Option (Item K)) (h : ℕ) (l : Tree K) (x : Item K) (rl : Tree K) (y : Item K)
      (rr : Tree K)
      → h ≡ height l + 2
      → height rr ≡ height l
      → height rl ≡ height l + 1
      → Balanced l × Balanced rl × Balanced rr
      → Linked (some x) l × Linked (some y) rl × Linked (some y) rr
      → Adjusted p
          (height l)
          h
          (items l ++ (x ∷ (items rl ++ (y ∷ items rr))))
          (rotate_right_left p l x rl y rr)
  unfolding rotate_right_left
  rotate_right_left-Adjusted p h l x leaf y rr e el er b k = absurd (omega arith)
  rotate_right_left-Adjusted p h l x (node zp zh rll z rlr) y rr e el er b k =
      let left = reparent (some x) rll in
      let right = reparent (some y) rlr in
      let hl = height-reparent (some x) rll in
      let hr = height-reparent (some y) rlr in
      record {
        tree =
            node p (max (max (height l) (height rll) + 1) (max (height rlr) (height rr) + 1) + 1)
              (node (some z) (max (height l) (height rll) + 1) l x left) z
              (node (some z) (max (height rlr) (height rr) + 1) right y rr);
        result = refl;
        balanced =
            ground (arith, hl, hr, reparent-Balanced (some x) rll, reparent-Balanced (some y) rlr);
        linked = (
          refl,
          (refl, k.0, reparent-Linked (some z) (some x) rll k.1.1),
          (refl, reparent-Linked (some z) (some y) rlr k.1.2, k.2),
        );
        in_order = simp (items-reparent, append_assoc);
        at_least = omega arith;
        at_most = omega arith;
        even = inl (inr e);
      }

  rotate_left-Adjusted :
      (p : Option (Item K)) (l : Tree K) (x : Item K) (r : Tree K)
      → height r ≡ height l + 2
      → Balanced l × Balanced r
      → Linked (some x) l × Linked (some x) r
      → Adjusted p (height l) (height r) (items l ++ (x ∷ items r)) (rotate_left p l x r)
  unfolding rotate_left
  rotate_left-Adjusted p l x leaf e b k = absurd (omega arith)
  rotate_left-Adjusted p l x (node rp rh rl y rr) e b k =
      let moved = reparent (some x) rl in
      let hm = height-reparent (some x) rl in
      elim (dec_lt (height rr) (height rl)) [
        | yes c ↦ rw (lt→ltb _ _ c) (
            rotate_right_left-Adjusted p rh l x rl y rr e (omega arith) (omega arith)
              (b.0, b.1.3, b.1.4) (k.0, k.1.1, k.1.2))
        | no c ↦ rw (ltb-false (height rr) (height rl) (omega arith)) (record {
          tree = node p _ (node (some y) (max (height l) (height rl) + 1) l x moved) y rr;
          result = refl;
          balanced = ground (arith, hm, reparent-Balanced (some x) rl);
          linked = (refl, (refl, k.0, reparent-Linked (some y) (some x) rl k.1.1), k.1.2);
          in_order = simp (items-reparent, append_assoc);
          at_least = omega arith;
          at_most = omega arith;
          even = inl (inr e);
        })
      ]

  -- `__adjust` of a node whose children differ by at most two in height succeeds: it keeps the
  -- items and their order, links every node to the one above, and gives a balanced tree.
  pub adjust-Adjusted :
      (p : Option (Item K)) (h : ℕ) (l : Tree K) (x : Item K) (r : Tree K)
      → height l ≤ height r + 2
      → height r ≤ height l + 2
      → Balanced l × Balanced r
      → Linked (some x) l × Linked (some x) r
      → Adjusted p (height l) (height r) (items l ++ (x ∷ items r)) (adjust (node p h l x r))
  unfolding adjust
  adjust-Adjusted p h l x r dl dr b k =
      rw (ltb-false (height r + 2) (height l) dl, ltb-false (height l + 2) (height r) dr)
        (elim (ℕ_discrete (height l) (height r + 2)) [
          | yes e ↦ rw ((==_iff _ _).1 e) (rotate_right-Adjusted p l x r e b k)
          | no d ↦ rw (==_false _ _ d) (elim (ℕ_discrete (height r) (height l + 2)) [
            | yes e ↦ rw ((==_iff _ _).1 e) (rotate_left-Adjusted p l x r e b k)
            | no d' ↦ rw (==_false _ _ d') (record {
              tree = node p (max (height l) (height r) + 1) l x r;
              result = refl;
              balanced = (refl, omega arith, omega arith, b.0, b.1);
              linked = (refl, k.0, k.1);
              in_order = refl;
              at_least = omega arith;
              at_most = omega arith;
              even = inr refl;
            })
          ])
        ])
