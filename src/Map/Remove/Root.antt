-- ===== src/Map/Remove/Root.antt =====
-- `__remove (node)`: the two subtrees of a removed node become one tree, and no check aborts.
use mathlib.Core.List.{append_assoc, append-nil}
use native.Mathlib.Decide.{dec_lt}
use trans_proxy.Base.{
  ℕ, ◌+◌, ◌-◌, ◌≤◌, max, ◌≡◌, refl, sym, Option, some, List, [], ◌∷◌, ◌++◌, arith, ltb-false,
  lt→ltb,
}
use trans_proxy.Map.{Item, Tree, leaf, node, height, items, reparent}
use trans_proxy.Map.Balance.{
  Balanced, Linked, height-reparent, items-reparent, reparent-Balanced, reparent-Linked,
}
use trans_proxy.Map.Remove.{replaced, remove_root}
use trans_proxy.Map.Remove.Ends.{remove_min-Trimmed, remove_max-Trimmed}

module _ {K : Type 0} where
  -- What takes the place of a node of height `h` under `p`; `xs` are the items that stay.
  pub record Joined (p : Option (Item K)) (h : ℕ) (xs : List (Item K)) (o : Option (Tree K))
      : Type 0 where
    pub tree : Tree K
    pub result : o ≡ some tree
    pub balanced : Balanced tree
    pub linked : Linked p tree
    pub in_order : items tree ≡ xs
    pub at_most : height tree ≤ h
    pub at_least : h ≤ height tree + 1

  replaced-Joined :
      (p : Option (Item K)) (h : ℕ) (l : Tree K) (m : Item K) (r : Tree K)
      → Balanced l × Balanced r
      → ((q : Option (Item K)) → Linked q (reparent q l))
      → ((q : Option (Item K)) → Linked q (reparent q r))
      → height l ≤ height r + 1
      → height r ≤ height l + 1
      → max (height l) (height r) + 1 ≤ h
      → h ≤ max (height l) (height r) + 2
      → Joined p h (items l ++ (m ∷ items r)) (replaced p h l m r)
  unfolding replaced
  replaced-Joined p h l m r b kl kr dl dr hi lo =
      let hl = height-reparent (some m) l in
      let hr = height-reparent (some m) r in
      rw
        (
          ltb-false (max (height l) (height r) + 1) (h - 1) (omega arith),
          ltb-false h (max (height l) (height r) + 1) hi,
          ltb-false (height l + 1) (height r) dr,
          ltb-false (height r + 1) (height l) dl,
        )
        (record {
          tree =
              node p (max (height l) (height r) + 1) (reparent (some m) l) m (reparent (some m) r);
          result = refl;
          balanced = (
            omega arith,
            omega arith,
            omega arith,
            reparent-Balanced (some m) l b.0,
            reparent-Balanced (some m) r b.1,
          );
          linked = (refl, kl (some m), kr (some m));
          in_order = rw (items-reparent (some m) l, items-reparent (some m) r);
          at_most = hi;
          at_least = omega arith;
        })

  pub remove_root-Joined :
      (p : Option (Item K)) (h : ℕ) (l : Tree K) (x : Item K) (r : Tree K)
      → Balanced (node p h l x r)
      → Linked p (node p h l x r)
      → Joined p h (items l ++ items r) (remove_root p h l r)
  unfolding remove_root
  remove_root-Joined p h leaf x r b k = record {
    tree = reparent p r;
    result = refl;
    balanced = reparent-Balanced p r b.4;
    linked = reparent-Linked (some x) p r k.2;
    in_order = items-reparent p r;
    at_most = omega (arith, height-reparent p r);
    at_least = omega (arith, height-reparent p r);
  }
  remove_root-Joined p h (node lp lh ll y lr) x leaf b k = record {
    tree = node p lh ll y lr;
    result = refl;
    balanced = b.3;
    linked = (refl, k.1.1, k.1.2);
    in_order = sym (append-nil _);
    at_most = omega arith;
    at_least = omega arith;
  }
  remove_root-Joined p h (node lp lh ll y lr) x (node rp rh rl z rr) b k = elim (dec_lt rh lh) [
    | yes c ↦
        let (m, l', e, order, t) = remove_max-Trimmed (some x) lp lh ll y lr b.3 k.1 in
        let whole = node rp rh rl z rr in
        rw (lt→ltb _ _ c, e, order, append_assoc (items l') (m ∷ []) (items whole))
          (replaced-Joined p h l' m whole (t.balanced, b.4) t.loose
            (λ q. reparent-Linked (some x) q whole k.2) (omega (arith, t.at_most))
            (omega (arith, t.at_least)) (omega (arith, t.at_most)) (omega (arith, t.at_least)))
    | no c ↦
        let (m, r', e, order, t) = remove_min-Trimmed (some x) rp rh rl z rr b.4 k.2 in
        let whole = node lp lh ll y lr in
        rw (ltb-false rh lh (omega arith), e, order)
          (replaced-Joined p h whole m r' (b.3, t.balanced)
            (λ q. reparent-Linked (some x) q whole k.1) t.loose (omega (arith, t.at_least))
            (omega (arith, t.at_most)) (omega (arith, t.at_most)) (omega (arith, t.at_least)))
  ]
