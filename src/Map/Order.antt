-- ===== src/Map/Order.antt =====
-- Dev/Main/src/Base/Math.h: `compare`, and what a map assumes of its keys.
use trans_proxy.Base.{Bool, true, false, ◌≡◌, ◌↔◌, if◌then◌else◌}

-- The operators `==` and `>` of a key type, which totally order it.
pub record Key (K : Type 0) : Type 0 where
  pub eqb : K → K → Bool
  pub gtb : K → K → Bool
  pub eqb_iff : (a b : K) → (eqb a b ≡ true) ↔ (a ≡ b)
  pub gtb_irrefl : (a : K) → gtb a a ≡ false
  pub gtb_trans : (a b c : K) → gtb a b ≡ true → gtb b c ≡ true → gtb a c ≡ true
  pub gtb_total : (a b : K) → eqb a b ≡ false → gtb a b ≡ false → gtb b a ≡ true

-- The sign of the `int` that `compare` returns.
pub data Sign : Type 0 where
  less same greater : Sign

unfoldable pub compare : {K : Type 0} ⦃k : Key K⦄ → K → K → Sign
compare ⦃k⦄ a b = if k.eqb a b then same else if k.gtb a b then greater else less
