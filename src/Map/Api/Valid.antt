-- ===== src/Map/Api/Valid.antt =====
-- A map of items: what `add`, `remove` and `clear` do to a valid one, and when they abort.
use mathlib.Core.Bool.{false≢true}
use native.Mathlib.Decide.{ℕ_discrete}
use trans_proxy.Base.{
  ◌+◌, ◌<◌, ◌≡◌, ◌≢◌, inl, inr, refl, sym, ap, subst, ◌∙◌, true, false, Option, none, some, List,
  [], ◌∷◌, ==_iff, ==_false, length, Bool-cases, size_mod, add_size, sub_size, arith,
}
use trans_proxy.Map.Order.{Key}
use trans_proxy.Map.{Item, Tree, leaf, node, count, items, insert}
use trans_proxy.Map.Balance.{Balanced, Linked}
use trans_proxy.Map.Sorted.{
  All, All-append, Le, Le-ne-greater, Sorted, Sorted-split, compare_cases, ne-less-compare,
  count-items, place, place-Sorted, length-place,
}
use trans_proxy.Map.Identity.{
  Fresh, Distinct, Known, holds, holds_other, holds-append_right, held_key, erase, erase-Distinct,
  erase-Sorted, place-Distinct, length-erase,
}
use trans_proxy.Map.Insert.{insert-Inserted}
use trans_proxy.Map.Remove.Search.{remove-Removed}
use trans_proxy.Map.Api.{AvlMap, add, remove, clear}
use trans_proxy.Map.Api.Check.{check_order_valid}

module _ {K : Type 0} ⦃k : Key K⦄ where
  -- The items of a map in key order.
  abbrev pub contents : AvlMap K → List (Item K)
  contents m = items m.root

  pub record IsValid (m : AvlMap K) : Type 0 where
    pub balanced : Balanced m.root
    pub linked : Linked none m.root
    pub sorted : Sorted (contents m)
    pub distinct : Distinct (contents m)
    pub counted : m.size ≡ length (contents m)

  -- `add` of a new item succeeds: the item comes behind those that do not come after it, the size
  -- counts it, and the map stays valid. A map has fewer items than a `size_t` counts.
  pub add_lem :
      (m : AvlMap K) (x : Item K)
      → IsValid m
      → Fresh x (contents m)
      → m.size + 1 < size_mod
      → (m' : AvlMap K) × (add m x ≡ some (true, m'))
        × IsValid m'
        × (contents m' ≡ place x (contents m))
        × (m'.size ≡ m.size + 1)
  unfolding add
  add_lem m x v f room =
      let n = insert-Inserted none m.root x v.balanced v.linked v.sorted f in
      let m' : AvlMap K = record m { root = n.tree; size = add_size m.size 1 } in
      let sorted' : Sorted (items n.tree) =
        subst Sorted (sym n.in_order) (place-Sorted x (contents m) v.sorted) in
      let size' : add_size m.size 1 ≡ m.size + 1 = omega arith in
      (
        m',
        rw (n.result, check_order_valid m' n.linked sorted'),
        record {
          balanced = n.balanced;
          linked = n.linked;
          sorted = sorted';
          distinct = subst Distinct (sym n.in_order) (place-Distinct x (contents m) v.distinct f);
          counted = omega (arith, v.counted, ap length n.in_order, length-place x (contents m));
        },
        n.in_order,
        size',
      )

  -- `remove` of an item that the map holds succeeds: exactly that item goes, the size no longer
  -- counts it, and the map stays valid.
  pub remove_lem :
      (m : AvlMap K) (x : Item K)
      → IsValid m
      → Known x (contents m)
      → holds x (contents m) ≡ true
      → m.size < size_mod
      → (m' : AvlMap K) × (remove m x ≡ some (true, m'))
        × IsValid m'
        × (contents m' ≡ erase x (contents m))
        × (m'.size + 1 ≡ m.size)
  unfolding remove
  remove_lem m x v n h room =
      let d = remove-Removed none m.root x v.balanced v.linked v.sorted v.distinct n in
      let m' : AvlMap K = record m { root = d.tree; size = sub_size m.size 1 } in
      let sorted' : Sorted (items d.tree) =
        subst Sorted (sym d.in_order) (erase-Sorted x (contents m) v.sorted) in
      let fewer : count m.root ≡ count d.tree + 1 = omega (
        arith,
        count-items m.root,
        count-items d.tree,
        ap length d.in_order,
        length-erase x (contents m) h,
      ) in
      let size' : sub_size m.size 1 + 1 ≡ m.size =
        omega (arith, v.counted, length-erase x (contents m) h) in
      (
        m',
        rw (
          ==_false (count m.root) 0 (omega (arith, fewer)),
          d.result,
          h,
          check_order_valid m' d.linked sorted',
          (==_iff _ _).1 fewer,
        ),
        record {
          balanced = d.balanced;
          linked = d.linked;
          sorted = sorted';
          distinct = subst Distinct (sym d.in_order) (erase-Distinct x (contents m) v.distinct);
          counted = omega (arith, v.counted, ap length d.in_order, length-erase x (contents m) h);
        },
        d.in_order,
        size',
      )

  -- `remove` of an item that the map does not hold aborts.
  pub remove_absent :
      (m : AvlMap K) (x : Item K)
      → IsValid m
      → Known x (contents m)
      → holds x (contents m) ≡ false
      → remove m x ≡ none
  unfolding remove
  remove_absent m x v n h = elim (ℕ_discrete (count m.root) 0) [
    | yes e ↦ rw ((==_iff _ _).1 e)
    | no d ↦
        let r = remove-Removed none m.root x v.balanced v.linked v.sorted v.distinct n in
        let same_tree : r.tree ≡ m.root = r.unchanged h in
        let differs : count m.root ≢ count m.root + 1 = omega arith in
        rw (
          ==_false _ _ d,
          r.result,
          h,
          same_tree,
          check_order_valid m v.linked v.sorted,
          ==_false _ _ differs,
        )
  ]

  -- `clear` leaves a valid map with no items.
  pub clear-IsValid : (m : AvlMap K) → IsValid (clear m) × (contents (clear m) ≡ [])
  unfolding clear
  clear-IsValid m =
      (record { balanced = tt; linked = tt; sorted = tt; distinct = tt; counted = refl }, refl)

  -- An item that is in the tree is not inserted again: where no other item has its key, `__insert`
  -- reaches it and aborts.
  pub insert_present :
      (par : Option (Item K)) (t : Tree K) (x : Item K)
      → Sorted (items t)
      → Known x (items t)
      → All (λ y. y.id ≢ x.id → y.key ≢ x.key) (items t)
      → holds x (items t) ≡ true
      → insert par t x ≡ none
  unfolding insert
  insert_present par leaf x s n u h = absurd (false≢true (unfold holds in h))
  insert_present par (node p h' l y r) x s n u h =
      let (sl, low, high, sr) = Sorted-split (items l) y (items r) s in
      let (nl, ny) = All-append _ (items l) (y ∷ items r) n in
      let (ul, uy) = All-append _ (items l) (y ∷ items r) u in
      elim (ℕ_discrete y.id x.id) [
        | yes e ↦
            let c0 = count l + 1 + count r in
            rw ((==_iff y.id x.id).1 e, ==_false c0 (c0 + 1) (omega arith))
        | no d ↦
            let rest : holds x (items l) ≡ false → holds x (items r) ≡ true = (λ f.
              sym (holds_other x y (items r) d)
              ∙ sym (holds-append_right x (items l) (y ∷ items r) f)
              ∙ h) in
            rw (==_false _ _ d) (elim (compare_cases x.key y.key) [
              | inl (c, _, _) ↦ elim (Bool-cases (holds x (items l))) [
                | inl hl ↦ rw (c, insert_present (some y) l x sl nl ul hl)
                | inr fl ↦ absurd (
                    ne-less-compare x.key y.key
                      (held_key (λ q. Le y.key q) x (items r) high ny.1 (rest fl)) c)
              ]
              | inr (inl (_, e)) ↦ absurd (uy.0 d (sym e))
              | inr (inr (c, _)) ↦ elim (Bool-cases (holds x (items l))) [
                | inl hl ↦
                    absurd (
                      Le-ne-greater x.key y.key (held_key (λ q. Le q y.key) x (items l) low nl hl)
                        c)
                | inr fl ↦ rw (c, insert_present (some y) r x sr ny.1 uy.1 (rest fl))
              ]
            ])
      ]
