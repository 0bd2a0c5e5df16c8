-- ===== src/Map/Remove.antt =====
-- `__removeMin`, `__removeMax` and the two `__remove` of Dev/Main/src/Base/Map.cpp.
pub mod Ends
pub mod Root
pub mod Search
use trans_proxy.Base.{
  ℕ, ◌+◌, ◌-◌, max, Bool, true, false, Option, none, some, ltb, ◌==◌, ◌||◌, if◌then◌else◌,
}
use trans_proxy.Map.Order.{Key, less, greater, compare}
use trans_proxy.Map.{Item, Tree, leaf, node, height, reparent, adjust, adjust_if, ◌>>=◌}

module _ {K : Type 0} where
  -- `__removeMin (root)`: the first item and the tree without it. The parent link of the new root
  -- is left to the caller.
  pub remove_min : Tree K → Option (Item K × Tree K)
  remove_min leaf = none
  remove_min (node p h leaf x r) = do r' ← adjust r; some (x, r')
  remove_min (node p h (node lp lh ll y lr) x r) = do
    (m, l') ← remove_min (node lp lh ll y lr)
    t ← adjust (node p h (reparent (some x) l') x r)
    some (m, t)

  -- `__removeMax (root)`
  pub remove_max : Tree K → Option (Item K × Tree K)
  remove_max leaf = none
  remove_max (node p h l x leaf) = do l' ← adjust l; some (x, l')
  remove_max (node p h l x (node rp rh rl y rr)) = do
    (m, r') ← remove_max (node rp rh rl y rr)
    t ← adjust (node p h l x (reparent (some x) r'))
    some (m, t)

  -- The item `m` put where the removed node of height `h` was, with the two checks that abort.
  pub replaced : Option (Item K) → ℕ → Tree K → Item K → Tree K → Option (Tree K)
  replaced p h l m r =
      let hl = height l in
      let hr = height r in
      let h' = max hl hr + 1 in
      if ltb h' (h - 1) || ltb h h'
      then none
      else if ltb (hl + 1) hr || ltb (hr + 1) hl
      then none
      else some (node p h' (reparent (some m) l) m (reparent (some m) r))

  -- `__remove (node)`: what takes the place of a node with these links.
  pub remove_root : Option (Item K) → ℕ → Tree K → Tree K → Option (Tree K)
  unfolding remove_min remove_max replaced
  remove_root p h leaf r = some (reparent p r)
  remove_root p h (node lp lh ll y lr) leaf = some (reparent p (node lp lh ll y lr))
  remove_root p h (node lp lh ll y lr) (node rp rh rl z rr) =
      if ltb rh lh
      then (do (m, l') ← remove_max (node lp lh ll y lr); replaced p h l' m (node rp rh rl z rr))
      else (do (m, r') ← remove_min (node rp rh rl z rr); replaced p h (node lp lh ll y lr) m r')

module _ {K : Type 0} ⦃k : Key K⦄ where
  -- `__remove (root, node)`
  unfoldable pub remove : Tree K → Item K → Option (Bool × Tree K)
  unfolding remove_root compare
  remove leaf x = some (false, leaf)
  remove (node p h l y r) x =
      let in_left = remove l x in
      let in_right = remove r x in
      let c = compare x.key y.key in
      if y.id == x.id then (remove_root p h l r >>= λ t. some (true, t)) else (do
        (ret, l') ← elim c [ greater ↦ some (false, l) | _ ↦ in_left ]
        (ret', r') ←
            (if ret then some (true, r) else elim c [ less ↦ some (false, r) | _ ↦ in_right ])
        adjust_if ret' (node p h l' y r'))
