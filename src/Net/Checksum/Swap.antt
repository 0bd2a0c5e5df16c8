-- ===== src/Net/Checksum/Swap.antt =====
-- The sum over a header whose two addresses are exchanged.
use trans_proxy.Base.{ℕ, ◌+◌, ◌*◌, ◌%◌, ◌≡◌, refl, sym, ap, ◌∙◌, List, [], ◌∷◌, ◌++◌, arith}
use trans_proxy.Net.Checksum.{Even, odd_byte, sum_pairs, sum, u32_mod}

four :
    (c x y z w : ℕ)
    → ((((c + x) % u32_mod + y) % u32_mod + z) % u32_mod + w) % u32_mod
      ≡ (c + x + y + z + w) % u32_mod
four c x y z w = omega arith

module _ (a1 a2 a3 a4 b1 b2 b3 b4 : ℕ) (ys : List ℕ) where
  odd_byte_swap :
      (xs : List ℕ)
      → Even xs
      → odd_byte (xs ++ (a1 ∷ a2 ∷ a3 ∷ a4 ∷ b1 ∷ b2 ∷ b3 ∷ b4 ∷ ys))
        ≡ odd_byte (xs ++ (b1 ∷ b2 ∷ b3 ∷ b4 ∷ a1 ∷ a2 ∷ a3 ∷ a4 ∷ ys))
  unfolding odd_byte
  odd_byte_swap [] e = refl
  odd_byte_swap (x ∷ []) e = absurd e
  odd_byte_swap (x ∷ y ∷ xs) e = odd_byte_swap xs e

  sum_pairs_swap :
      (c : ℕ) (xs : List ℕ)
      → Even xs
      → sum_pairs c (xs ++ (a1 ∷ a2 ∷ a3 ∷ a4 ∷ b1 ∷ b2 ∷ b3 ∷ b4 ∷ ys))
        ≡ sum_pairs c (xs ++ (b1 ∷ b2 ∷ b3 ∷ b4 ∷ a1 ∷ a2 ∷ a3 ∷ a4 ∷ ys))
  unfolding sum_pairs
  sum_pairs_swap c [] e =
      let a = a1 * 256 + a2 in
      let a' = a3 * 256 + a4 in
      let b = b1 * 256 + b2 in
      let b' = b3 * 256 + b4 in
      let swapped : c + a + a' + b + b' ≡ c + b + b' + a + a' = omega arith in
      ap (λ q. sum_pairs q ys)
        (four c a a' b b' ∙ ap (λ q. q % u32_mod) swapped ∙ sym (four c b b' a a'))
  sum_pairs_swap c (x ∷ []) e = absurd e
  sum_pairs_swap c (x ∷ y ∷ xs) e = sum_pairs_swap ((c + (x * 256 + y)) % u32_mod) xs e

  -- The order of two addresses behind an even number of bytes does not change the sum.
  pub sum_swap :
      (xs : List ℕ)
      → Even xs
      → sum (xs ++ (a1 ∷ a2 ∷ a3 ∷ a4 ∷ b1 ∷ b2 ∷ b3 ∷ b4 ∷ ys))
        ≡ sum (xs ++ (b1 ∷ b2 ∷ b3 ∷ b4 ∷ a1 ∷ a2 ∷ a3 ∷ a4 ∷ ys))
  unfolding sum
  sum_swap xs e =
      ap (λ q. sum_pairs q (xs ++ (a1 ∷ a2 ∷ a3 ∷ a4 ∷ b1 ∷ b2 ∷ b3 ∷ b4 ∷ ys)))
        (odd_byte_swap xs e)
      ∙ sum_pairs_swap (odd_byte (xs ++ (b1 ∷ b2 ∷ b3 ∷ b4 ∷ a1 ∷ a2 ∷ a3 ∷ a4 ∷ ys))) xs e
