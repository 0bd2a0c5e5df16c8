-- ===== src/Map.antt =====
-- Dev/Main/src/Base/Map.h and Map.cpp: an AVL tree of items with parent links.
pub mod Order
pub mod Balance
pub mod Sorted
pub mod Identity
pub mod Insert
pub mod Remove
pub mod Api
use trans_proxy.Base.{
  ℕ, ◌+◌, ◌-◌, max, Bool, true, false, Option, none, some, List, [], ◌∷◌, ◌++◌, ltb, leb, ◌==◌,
  ◌!=◌, if◌then◌else◌,
}
use trans_proxy.Map.Order.{Key, Sign, less, same, greater, compare}

-- An item of a map. `id` stands for its address, by which the code tells items apart.
pub record Item (K : Type 0) : Type 0 where
  pub id : ℕ
  pub key : K

-- A node's links: its parent, its height field, its left subtree, itself and its right subtree.
pub data Tree (K : Type 0) : Type 0 where
  leaf : Tree K
  node : Option (Item K) → ℕ → Tree K → Item K → Tree K → Tree K

-- `none` stands for an abort, or for a null pointer that is followed.
infixl 5 ◌>>=◌
abbrev pub ◌>>=◌ : {A B : Type 0} → Option A → (A → Option B) → Option B
none >>= f = none
some a >>= f = f a

module _ {K : Type 0} where
  abbrev pub height : Tree K → ℕ
  height leaf = 0
  height (node p h l x r) = h

  abbrev pub count : Tree K → ℕ
  count leaf = 0
  count (node p h l x r) = count l + 1 + count r

  -- The items in key order.
  abbrev pub items : Tree K → List (Item K)
  items leaf = []
  items (node p h l x r) = items l ++ (x ∷ items r)

  -- `if (t) t->p(q)`
  abbrev pub reparent : Option (Item K) → Tree K → Tree K
  reparent q leaf = leaf
  reparent q (node p h l x r) = node q h l x r

  -- `balance == -2` and `hll < hlr`: LR
  unfoldable pub rotate_left_right :
      Option (Item K) → Tree K → Item K → Tree K → Item K → Tree K → Option (Tree K)
  rotate_left_right p ll y leaf x r = none
  rotate_left_right p ll y (node _ _ lrl z lrr) x r =
      let lower = node (some z) (max (height ll) (height lrl) + 1) ll y (reparent (some y) lrl) in
      let root = node (some z) (max (height lrr) (height r) + 1) (reparent (some x) lrr) x r in
      some (node p (max (height lower) (height root) + 1) lower z root)

  -- `balance == -2`
  unfoldable pub rotate_right : Option (Item K) → Tree K → Item K → Tree K → Option (Tree K)
  unfolding rotate_left_right
  rotate_right p leaf x r = none
  rotate_right p (node _ _ ll y lr) x r =
      if leb (height lr) (height ll)
      then (let root = node (some y) (max (height lr) (height r) + 1) (reparent (some x) lr) x r in
          some (node p (max (height ll) (height root) + 1) ll y root))
      else rotate_left_right p ll y lr x r

  -- `balance == 2` and `hrl > hrr`: RL
  unfoldable pub rotate_right_left :
      Option (Item K) → Tree K → Item K → Tree K → Item K → Tree K → Option (Tree K)
  rotate_right_left p l x leaf y rr = none
  rotate_right_left p l x (node _ _ rll z rlr) y rr =
      let upper = node (some z) (max (height rlr) (height rr) + 1) (reparent (some y) rlr) y rr in
      let root = node (some z) (max (height l) (height rll) + 1) l x (reparent (some x) rll) in
      some (node p (max (height root) (height upper) + 1) root z upper)

  -- `balance == 2`
  unfoldable pub rotate_left : Option (Item K) → Tree K → Item K → Tree K → Option (Tree K)
  unfolding rotate_right_left
  rotate_left p l x leaf = none
  rotate_left p l x (node _ _ rl y rr) =
      if ltb (height rr) (height rl)
      then rotate_right_left p l x rl y rr
      else (let root = node (some y) (max (height l) (height rl) + 1) l x (reparent (some x) rl) in
          some (node p (max (height rr) (height root) + 1) root y rr))

  -- `__adjust`. A balance beyond 2 aborts.
  unfoldable pub adjust : Tree K → Option (Tree K)
  unfolding rotate_left rotate_right
  adjust leaf = some leaf
  adjust (node p h l x r) =
      let hl = height l in
      let hr = height r in
      if ltb (hr + 2) hl
      then none
      else if ltb (hl + 2) hr
      then none
      else if hl == hr + 2
      then rotate_right p l x r
      else if hr == hl + 2
      then rotate_left p l x r
      else some (node p (max hl hr + 1) l x r)

  -- The check at the end of `__insert`: a call that does not add one node aborts.
  abbrev pub grown_by_one : ℕ → Bool × Tree K → Option (Bool × Tree K)
  grown_by_one c0 (ret, t) = if count t == c0 + 1 then some (ret, t) else none

  -- `if (ret) __adjust(root)`
  abbrev pub adjust_if : Bool → Tree K → Option (Bool × Tree K)
  adjust_if ret t = if ret then (adjust t >>= λ t'. some (true, t')) else some (false, t)

module _ {K : Type 0} ⦃k : Key K⦄ where
  -- `__insert (parent, root, node)`
  unfoldable pub insert : Option (Item K) → Tree K → Item K → Option (Bool × Tree K)
  unfolding compare
  insert parent leaf x = grown_by_one 0 (true, node parent 1 leaf x leaf)
  insert parent (node p h l y r) x =
      let c0 = count (node p h l y r) in
      let below_left = (do
        (ret, l') ← insert (some y) l x
        (ret', t') ← adjust_if ret (node p h l' y r)
        grown_by_one c0 (ret', t')) in
      let below_right = (do
        (ret, r') ← insert (some y) r x
        (ret', t') ← adjust_if ret (node p h l y r')
        grown_by_one c0 (ret', t')) in
      if y.id == x.id
      then grown_by_one c0 (false, node p h l y r)
      else elim (compare x.key y.key) [ less ↦ below_left | _ ↦ below_right ]
