-- ===== src/Map/Api.antt =====
-- `Map<Key, T>` of Dev/Main/src/Base/Map.h: the calls of a map's users, and the order check.
pub mod Check
pub mod Valid
pub mod Lookup
pub mod Added
mod Tests
use trans_proxy.Base.{
  ℕ, ◌+◌, Bool, true, false, ◌&&◌, Option, none, some, ◌==◌, if◌then◌else◌, add_size, sub_size,
}
use trans_proxy.Map.Order.{Key, Sign, less, same, greater, compare}
use trans_proxy.Map.{Item, Tree, leaf, node, count, insert, ◌>>=◌}
use trans_proxy.Map.Remove
use trans_proxy.Map.Remove.{remove_root}

-- `_Map`. Of `_name` only counts whether it is set: a map with a name checks itself.
pub record AvlMap (K : Type 0) : Type 0 where
  pub named : Bool
  pub root : Tree K
  pub size : ℕ

module _ {K : Type 0} where
  -- Equality of two parent pointers.
  abbrev pub same_link : Option (Item K) → Option (Item K) → Bool
  same_link none none = true
  same_link none (some y) = false
  same_link (some x) none = false
  same_link (some x) (some y) = x.id == y.id

  -- `__checkParent`, false where it aborts
  pub check_parent : Option (Item K) → Tree K → Bool
  check_parent par leaf = true
  check_parent par (node p h l x r) =
      same_link p par && (check_parent (some x) l && check_parent (some x) r)

  pub is_empty : AvlMap K → Bool
  is_empty m = elim m.root [ leaf ↦ true | _ ↦ false ]

  pub clear : AvlMap K → AvlMap K
  clear m = record m { root = leaf; size = 0 }

  pub min : Tree K → Option (Item K)
  min leaf = none
  min (node p h leaf x r) = some x
  min (node p h (node lp lh ll y lr) x r) = min (node lp lh ll y lr)

  pub max : Tree K → Option (Item K)
  max leaf = none
  max (node p h l x leaf) = some x
  max (node p h l x (node rp rh rl y rr)) = max (node rp rh rl y rr)

  -- `__compare (…) < 0` and `__compare (…) > 0` as reasons to fail.
  pub unless_less : Sign → Item K → Option (Item K)
  unless_less less a = none
  unless_less _ a = some a

  pub unless_greater : Sign → Item K → Option (Item K)
  unless_greater greater a = none
  unless_greater _ a = some a

module _ {K : Type 0} ⦃k : Key K⦄ where
  -- `__checkMinMax`: the outermost items, or `none` where it returns false. It is not called on an
  -- empty tree.
  unfoldable pub check_min_max : Tree K → Option (Item K × Item K)
  unfolding compare unless_less unless_greater
  check_min_max leaf = none
  check_min_max (node p h l x r) =
      let on_left = check_min_max l in
      let on_right = check_min_max r in
      do
        lo ← elim l [
          | leaf ↦ some x
          | node _ _ _ _ _ ↦ (on_left >>= λ (a, b). unless_less (compare x.key b.key) a)
        ]
        hi ← elim r [
          | leaf ↦ some x
          | node _ _ _ _ _ ↦ (on_right >>= λ (a, b). unless_greater (compare x.key a.key) b)
        ]
        some (lo, hi)

  -- `__checkOrder`, false where it aborts
  unfoldable pub check_order : AvlMap K → Bool
  unfolding check_parent check_min_max
  check_order m =
      if m.named
      then check_parent none m.root && elim m.root [
        | leaf ↦ true
        | node p h l x r ↦ elim (check_min_max (node p h l x r)) [ none ↦ false | _ ↦ true ]
      ]
      else true

  unfoldable pub add : AvlMap K → Item K → Option (Bool × AvlMap K)
  unfolding insert check_order
  add m x = do
    (ret, t) ← insert none m.root x
    let m' = record m { root = t; size = (if ret then add_size m.size 1 else m.size) }
    if check_order m' then some (ret, m') else none

  pub remove : AvlMap K → Item K → Option (Bool × AvlMap K)
  unfolding Remove.remove check_order
  remove m x = if count m.root == 0 then none else (do
    (ret, t) ← Remove.remove m.root x
    let m' = record m { root = t; size = (if ret then sub_size m.size 1 else m.size) }
    if check_order m' && (count m.root == count t + 1)
        then (if ret then some (ret, m') else none)
        else none)

  unfoldable pub get : Tree K → K → Option (Item K)
  unfolding compare
  get leaf key = none
  get (node p h l x r) key =
      let on_left = get l key in
      let on_right = get r key in
      elim (compare key x.key) [ same ↦ some x | less ↦ on_left | greater ↦ on_right ]

  -- `remove (key)`: the item, if there is one, is taken out and deleted.
  pub remove_key : AvlMap K → K → Option (AvlMap K)
  unfolding get remove
  remove_key m key = elim (get m.root key) [
    | none ↦ some m
    | some x ↦ (remove m x >>= λ (_, m'). some m')
  ]
