-- ===== src/Net/Checksum.antt =====
-- `sum` and `checksum` of Dev/Main/src/Base/Math.h: the Internet checksum.
mod Tests
pub mod Swap
use trans_proxy.Base.{
  ℕ, suc, zero, ◌+◌, ◌-◌, ◌*◌, ◌/◌, ◌%◌, ◌^◌, ◌≤◌, ◌<◌, ◌≡◌, refl, sym, subst, ap, ◌∙◌, List, [],
  ◌∷◌, ◌++◌, Option, none, some, ◌==◌, ==_iff, ==_false, if◌then◌else◌, Bool-cases, inl, inr, arith,
}
use native.Mathlib.Decide.{ℕ_discrete}
use trans_proxy.Map.{◌>>=◌}

abbrev pub u32_mod : ℕ
u32_mod = 2 ^ 32

-- The last byte of an odd number of bytes, as the high half of a number.
pub odd_byte : List ℕ → ℕ
odd_byte [] = 0
odd_byte (b ∷ []) = b * 256
odd_byte (a ∷ b ∷ bs) = odd_byte bs

-- The loop over the pairs of bytes, big-endian, from the sum so far.
pub sum_pairs : ℕ → List ℕ → ℕ
sum_pairs cksum [] = cksum
sum_pairs cksum (b ∷ []) = cksum
sum_pairs cksum (a ∷ b ∷ bs) = sum_pairs ((cksum + (a * 256 + b)) % u32_mod) bs

-- `sum`
unfoldable pub sum : List ℕ → ℕ
unfolding odd_byte sum_pairs
sum bytes = sum_pairs (odd_byte bytes) bytes

-- The loop of `checksum`, with the number of rounds that it may take.
pub fold : ℕ → ℕ → Option ℕ
fold zero cksum = none
fold (suc n) cksum =
    let again = fold n (cksum % 2 ^ 16 + cksum / 2 ^ 16) in
    if cksum / 2 ^ 16 == 0 then some cksum else again

-- `checksum`, the result in the order of the host. Three rounds are enough.
unfoldable pub checksum : ℕ → Option ℕ
unfolding fold
checksum cksum = fold 3 cksum >>= λ c. some (2 ^ 16 - 1 - c)

-- One's complement: what is left of a number when its carries have been added.
pub folded : ℕ → ℕ
folded c = if c == 0 then 0 else (c - 1) % (2 ^ 16 - 1) + 1

folded_small : (c : ℕ) → c < 2 ^ 16 → folded c ≡ c
unfolding folded
folded_small c h = ground arith

folded_step : (c : ℕ) → folded (c % 2 ^ 16 + c / 2 ^ 16) ≡ folded c
unfolding folded
folded_step c = ground arith

fold_end : (n c : ℕ) → c < 2 ^ 16 → fold (suc n) c ≡ some (folded c)
unfolding fold
fold_end n c h =
    let no_carry : c / 2 ^ 16 ≡ 0 = omega arith in
    rw ((==_iff (c / 2 ^ 16) 0).1 no_carry, folded_small c h) refl

-- A round that is not the last.
fold_next :
    (n c m : ℕ)
    → c % 2 ^ 16 + c / 2 ^ 16 ≡ m
    → fold (suc n) m ≡ some (folded m)
    → fold (suc (suc n)) c ≡ some (folded c)
unfolding fold
fold_next n c m e f = elim (ℕ_discrete (c / 2 ^ 16) 0) [
  | yes z ↦ rw ((==_iff (c / 2 ^ 16) 0).1 z, folded_small c (omega arith)) refl
  | no d ↦ rw (==_false (c / 2 ^ 16) 0 d) (
      subst (λ q. fold (suc n) q ≡ some (folded c)) (sym e)
        (f ∙ ap some (sym (ap folded e) ∙ folded_step c)))
]

-- The loop ends within three rounds for every 32-bit number, and leaves the one complement sum of its
-- two halves.
pub fold_lem : (c : ℕ) → c < u32_mod → fold 3 c ≡ some (folded c)
fold_lem c h =
    let once = c % 2 ^ 16 + c / 2 ^ 16 in
    let twice = once % 2 ^ 16 + once / 2 ^ 16 in
    let below : twice < 2 ^ 16 = omega arith in
    fold_next 1 c once refl (fold_next 0 once twice refl (fold_end 0 twice below))

folded_bound : (c : ℕ) → folded c < 2 ^ 16
unfolding folded
folded_bound c = ground arith

folded_verify : (c : ℕ) → folded (c + (2 ^ 16 - 1 - folded c)) ≡ 2 ^ 16 - 1
unfolding folded
folded_verify c = ground arith

-- A sum of 32 bits has a checksum of 16 bits, and where the checksum is added to the sum, the
-- checksum of that is 0.
pub checksum_verify :
    (c : ℕ)
    → c < u32_mod - 2 ^ 16
    → (k : ℕ) × (checksum c ≡ some k) × (k < 2 ^ 16) × (checksum (c + k) ≡ some 0)
unfolding checksum
checksum_verify c h =
    let k = 2 ^ 16 - 1 - folded c in
    let zero_left : 2 ^ 16 - 1 - folded (c + k) ≡ 0 = omega (arith, folded_verify c) in
    (
      k,
      ap (λ o. o >>= λ q. some (2 ^ 16 - 1 - q)) (fold_lem c (omega arith)),
      omega arith,
      ap (λ o. o >>= λ q. some (2 ^ 16 - 1 - q)) (fold_lem (c + k) (omega arith))
          ∙ ap some zero_left,
    )

sum_pairs_shift :
    (c v : ℕ) (bs : List ℕ) → sum_pairs ((c + v) % u32_mod) bs ≡ (sum_pairs c bs + v) % u32_mod
unfolding sum_pairs
sum_pairs_shift c v [] = refl
sum_pairs_shift c v (b ∷ []) = refl
sum_pairs_shift c v (a ∷ b ∷ bs) =
    let w = a * 256 + b in
    let swapped : ((c + v) % u32_mod + w) % u32_mod ≡ ((c + w) % u32_mod + v) % u32_mod =
      omega arith in
    ap (λ q. sum_pairs q bs) swapped ∙ sum_pairs_shift ((c + w) % u32_mod) v bs

-- An even number of bytes.
abbrev pub Even : List ℕ → Type 0
Even [] = Unit {0}
Even (b ∷ []) = ⊥
Even (a ∷ b ∷ bs) = Even bs

odd_byte_field :
    (xs : List ℕ) (a b : ℕ) (ys : List ℕ)
    → Even xs
    → odd_byte (xs ++ (a ∷ b ∷ ys)) ≡ odd_byte (xs ++ (0 ∷ 0 ∷ ys))
unfolding odd_byte
odd_byte_field [] a b ys e = refl
odd_byte_field (x ∷ []) a b ys e = absurd e
odd_byte_field (x ∷ y ∷ xs) a b ys e = odd_byte_field xs a b ys e

sum_pairs_field :
    (c : ℕ) (xs : List ℕ) (a b : ℕ) (ys : List ℕ)
    → Even xs
    → sum_pairs c (xs ++ (a ∷ b ∷ ys))
      ≡ (sum_pairs c (xs ++ (0 ∷ 0 ∷ ys)) + (a * 256 + b)) % u32_mod
unfolding sum_pairs
sum_pairs_field c [] a b ys e =
    let w = a * 256 + b in
    let regrouped : (c + w) % u32_mod ≡ ((c + 0) % u32_mod + w) % u32_mod = omega arith in
    ap (λ q. sum_pairs q ys) regrouped ∙ sum_pairs_shift ((c + 0) % u32_mod) w ys
sum_pairs_field c (x ∷ []) a b ys e = absurd e
sum_pairs_field c (x ∷ y ∷ xs) a b ys e =
    sum_pairs_field ((c + (x * 256 + y)) % u32_mod) xs a b ys e

-- A packet whose checksum field, at an even place, has been filled with the checksum of the packet
-- with that field zero has the checksum 0, which is what a receiver tests. The sum has room for one
-- more field in its 32 bits.
pub filled_verify :
    (xs ys : List ℕ)
    → Even xs
    → sum (xs ++ (0 ∷ 0 ∷ ys)) < u32_mod - 2 ^ 16
    → (k : ℕ) × (checksum (sum (xs ++ (0 ∷ 0 ∷ ys))) ≡ some k)
      × (k < 2 ^ 16)
      × (checksum (sum (xs ++ (k / 256 ∷ k % 256 ∷ ys))) ≡ some 0)
unfolding sum
filled_verify xs ys e room =
    let zeroed = xs ++ (0 ∷ 0 ∷ ys) in
    let (k, found, small, verified) = checksum_verify (sum zeroed) room in
    let filled = xs ++ (k / 256 ∷ k % 256 ∷ ys) in
    let added : sum filled ≡ sum zeroed + k =
      ap (λ q. sum_pairs q filled) (odd_byte_field xs (k / 256) (k % 256) ys e)
      ∙ sum_pairs_field (odd_byte zeroed) xs (k / 256) (k % 256) ys e
      ∙ omega arith in
    (k, found, small, ap checksum added ∙ verified)
