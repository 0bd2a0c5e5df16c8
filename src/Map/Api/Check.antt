-- ===== src/Map/Api/Check.antt =====
-- `__checkOrder` accepts every tree that is linked and in order, so a valid map never aborts there.
use mathlib.Core.List.{append_assoc}
use trans_proxy.Base.{
  ◌≡◌, ◌≢◌, inl, inr, refl, sym, ap, subst, ◌∙◌, true, false, Option, none, some, List, [], ◌∷◌,
  ◌++◌, ==_self, Bool-cases,
}
use trans_proxy.Map.Order.{Key, Sign, same, less, greater}
use trans_proxy.Map.{Item, Tree, leaf, node, items}
use trans_proxy.Map.Balance.{Linked}
use trans_proxy.Map.Sorted.{
  All, All-append, Le, Sorted, Sorted-split, ne-less-compare, Le-ne-greater,
}
use trans_proxy.Map.Api.{
  AvlMap, same_link, check_parent, check_min_max, check_order, unless_less, unless_greater,
}

module _ {K : Type 0} where
  abbrev IsNode : Tree K → Type 0
  IsNode leaf = ⊥
  IsNode (node p h l x r) = Unit {0}

  same_link_self : (p : Option (Item K)) → same_link p p ≡ true
  same_link_self none = refl
  same_link_self (some x) = ==_self x.id

  check_parent-Linked :
      (par : Option (Item K)) (t : Tree K) → Linked par t → check_parent par t ≡ true
  unfolding check_parent
  check_parent-Linked par leaf v = refl
  check_parent-Linked par (node p h l x r) v = rw (
    v.0,
    same_link_self par,
    check_parent-Linked (some x) l v.1,
    check_parent-Linked (some x) r v.2,
  )

  unless_less-ne : (s : Sign) (a : Item K) → s ≢ less → unless_less s a ≡ some a
  unfolding unless_less
  unless_less-ne less a h = absurd (h refl)
  unless_less-ne same a h = refl
  unless_less-ne greater a h = refl

  unless_greater-ne : (s : Sign) (a : Item K) → s ≢ greater → unless_greater s a ≡ some a
  unfolding unless_greater
  unless_greater-ne greater a h = absurd (h refl)
  unless_greater-ne same a h = refl
  unless_greater-ne less a h = refl

module _ {K : Type 0} ⦃k : Key K⦄ where
  -- What `__checkMinMax` finds: the first and the last item.
  abbrev Ends : List (Item K) → Option (Item K × Item K) → Type 0
  Ends xs o =
      (a : Item K) × (b : Item K) × (later : List (Item K)) × (sooner : List (Item K)) × (o
        ≡ some (a, b))
      × (xs ≡ a ∷ later)
      × (xs ≡ sooner ++ (b ∷ []))

  check_node : (t : Tree K) → IsNode t → Sorted (items t) → Ends (items t) (check_min_max t)
  unfolding check_min_max
  check_node leaf n s = elim n [ ]
  check_node (node p h leaf x leaf) n s = (x, x, [], [], refl, refl, refl)
  check_node (node p h leaf x (node rp rh rl y rr)) n s =
      let (_, _, high, sr) = Sorted-split [] x (items rl ++ (y ∷ items rr)) s in
      let (a, b, later, sooner, e, first, last) = check_node (node rp rh rl y rr) tt sr in
      let above = subst (All (λ z. Le x.key z.key)) first high in
      (
        x,
        b,
        _,
        x ∷ sooner,
        rw (e, unless_greater-ne _ b (Le-ne-greater x.key a.key above.0)),
        refl,
        ap (λ zs. x ∷ zs) last,
      )
  check_node (node p h (node lp lh ll y lr) x leaf) n s =
      let (sl, low, _, _) = Sorted-split (items ll ++ (y ∷ items lr)) x [] s in
      let (a, b, later, sooner, e, first, last) = check_node (node lp lh ll y lr) tt sl in
      let below = All-append _ sooner (b ∷ []) (subst (All (λ z. Le z.key x.key)) last low) in
      (
        a,
        x,
        later ++ (x ∷ []),
        items ll ++ (y ∷ items lr),
        rw (e, unless_less-ne _ a (ne-less-compare x.key b.key below.1.0)),
        rw first,
        refl,
      )
  check_node (node p h (node lp lh ll y lr) x (node rp rh rl z rr)) n s =
      let left_items = items ll ++ (y ∷ items lr) in
      let right_items = items rl ++ (z ∷ items rr) in
      let (sl, low, high, sr) = Sorted-split left_items x right_items s in
      let (a, b, later, sooner, e, first, last) = check_node (node lp lh ll y lr) tt sl in
      let (a', b', later', sooner', e', first', last') = check_node (node rp rh rl z rr) tt sr in
      let below = All-append _ sooner (b ∷ []) (subst (All (λ w. Le w.key x.key)) last low) in
      let above = subst (All (λ w. Le x.key w.key)) first' high in
      (
        a,
        b',
        later ++ (x ∷ right_items),
        left_items ++ (x ∷ sooner'),
        rw (
          e,
          unless_less-ne _ a (ne-less-compare x.key b.key below.1.0),
          e',
          unless_greater-ne _ b' (Le-ne-greater x.key a'.key above.0),
        ),
        ap (λ ws. ws ++ (x ∷ right_items)) first,
        ap (λ ws. left_items ++ (x ∷ ws)) last'
            ∙ sym (append_assoc left_items (x ∷ sooner') (b' ∷ [])),
      )

  min_max_passes :
      (t : Tree K)
      → Sorted (items t)
      → (elim t [
        | leaf ↦ true
        | node p h l x r ↦ elim (check_min_max (node p h l x r)) [ none ↦ false | some _ ↦ true ]
      ])
        ≡ true
  min_max_passes leaf s = refl
  min_max_passes (node p h l x r) s =
      let (_, _, _, _, e, _, _) = check_node (node p h l x r) tt s in rw e

  -- A linked tree in key order passes, named or not.
  pub check_order_valid :
      (m : AvlMap K) → Linked none m.root → Sorted (items m.root) → check_order m ≡ true
  unfolding check_order
  check_order_valid m v s = elim (Bool-cases m.named) [
    | inl e ↦ simp e (simp (check_parent-Linked none m.root v) (min_max_passes m.root s))
    | inr e ↦ simp e
  ]
