-- ===== src/Map/Remove/Ends.antt =====
-- Taking the first or the last item off keeps the tree balanced and the rest in order.
use mathlib.Core.List.{append_assoc}
use trans_proxy.Base.{
  ℕ, ◌+◌, ◌≤◌, ◌≡◌, refl, sym, Option, some, [], ◌∷◌, ◌++◌, arith, ltb-false, ==_false,
}
use trans_proxy.Map.{Item, Tree, leaf, node, height, items, reparent, adjust}
use trans_proxy.Map.Balance.{
  Balanced, Linked, adjust-Adjusted, height-reparent, items-reparent, reparent-Balanced,
  reparent-Linked,
}
use trans_proxy.Map.Remove.{remove_min, remove_max}

module _ {K : Type 0} where
  -- `__adjust` leaves a balanced tree as it is.
  pub adjust-Balanced : (t : Tree K) → Balanced t → adjust t ≡ some t
  unfolding adjust
  adjust-Balanced leaf b = refl
  adjust-Balanced (node p h l x r) b = rw (
    ltb-false (height r + 2) (height l) (omega arith),
    ltb-false (height l + 2) (height r) (omega arith),
    ==_false (height l) (height r + 2) (omega arith),
    ==_false (height r) (height l + 2) (omega arith),
    b.0,
  )

  -- What is left of `t` when an item is taken off one end; `xs` are the items that stay.
  pub record Trimmed (t : Tree K) (m : Item K) (u : Tree K) : Type 0 where
    pub balanced : Balanced u
    pub loose : (q : Option (Item K)) → Linked q (reparent q u)
    pub at_most : height u ≤ height t
    pub at_least : height t ≤ height u + 1

  pub remove_min-Trimmed :
      (q : Option (Item K)) (p : Option (Item K)) (h : ℕ) (l : Tree K) (x : Item K) (r : Tree K)
      → Balanced (node p h l x r)
      → Linked q (node p h l x r)
      → (m : Item K) × (u : Tree K) × (remove_min (node p h l x r) ≡ some (m, u))
        × (items l ++ (x ∷ items r) ≡ m ∷ items u)
        × Trimmed (node p h l x r) m u
  unfolding remove_min
  remove_min-Trimmed q p h leaf x r b k = (
    x,
    r,
    rw (adjust-Balanced r b.4),
    refl,
    record {
      balanced = b.4;
      loose = λ q'. reparent-Linked (some x) q' r k.2;
      at_most = omega arith;
      at_least = omega arith;
    },
  )
  remove_min-Trimmed q p h (node lp lh ll y lr) x r b k =
      let (m, l', e, order, t) = remove_min-Trimmed (some x) lp lh ll y lr b.3 k.1 in
      let hl = height-reparent (some x) l' in
      let a =
        adjust-Adjusted p h (reparent (some x) l') x r (omega (arith, t.at_most))
          (omega (arith, t.at_least)) (reparent-Balanced (some x) l' t.balanced, b.4)
          (t.loose (some x), k.2) in
      (
        m,
        a.tree,
        rw (e, a.result),
        rw (order, a.in_order, items-reparent (some x) l'),
        record {
          balanced = a.balanced;
          loose = λ q'. reparent-Linked p q' a.tree a.linked;
          at_most = omega (arith, t.at_most, t.at_least, a.at_most, a.even);
          at_least = omega (arith, t.at_most, t.at_least, a.at_least, a.even);
        },
      )

  pub remove_max-Trimmed :
      (q : Option (Item K)) (p : Option (Item K)) (h : ℕ) (l : Tree K) (x : Item K) (r : Tree K)
      → Balanced (node p h l x r)
      → Linked q (node p h l x r)
      → (m : Item K) × (u : Tree K) × (remove_max (node p h l x r) ≡ some (m, u))
        × (items l ++ (x ∷ items r) ≡ items u ++ (m ∷ []))
        × Trimmed (node p h l x r) m u
  unfolding remove_max
  remove_max-Trimmed q p h l x leaf b k = (
    x,
    l,
    rw (adjust-Balanced l b.3),
    refl,
    record {
      balanced = b.3;
      loose = λ q'. reparent-Linked (some x) q' l k.1;
      at_most = omega arith;
      at_least = omega arith;
    },
  )
  remove_max-Trimmed q p h l x (node rp rh rl y rr) b k =
      let (m, r', e, order, t) = remove_max-Trimmed (some x) rp rh rl y rr b.4 k.2 in
      let hr = height-reparent (some x) r' in
      let a =
        adjust-Adjusted p h l x (reparent (some x) r') (omega (arith, t.at_least))
          (omega (arith, t.at_most)) (b.3, reparent-Balanced (some x) r' t.balanced)
          (k.1, t.loose (some x)) in
      (
        m,
        a.tree,
        rw (e, a.result),
        rw (order, a.in_order, items-reparent (some x) r')
            (sym (append_assoc (items l) (x ∷ items r') (m ∷ []))),
        record {
          balanced = a.balanced;
          loose = λ q'. reparent-Linked p q' a.tree a.linked;
          at_most = omega (arith, t.at_most, t.at_least, a.at_most, a.even);
          at_least = omega (arith, t.at_most, t.at_least, a.at_least, a.even);
        },
      )
