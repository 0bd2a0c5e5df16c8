-- ===== src/Net/Checksum/Tests.antt =====
-- The header of an IP packet, its checksum at byte 10.
use trans_proxy.Base.{ℕ, ◌/◌, ◌%◌, ◌^◌, ◌<◌, ◌≡◌, refl, List, [], ◌∷◌, ◌++◌, some, arith}
use trans_proxy.Net.Checksum.{sum, checksum, filled_verify}

abbrev before : List ℕ
before = 69 ∷ 0 ∷ 0 ∷ 115 ∷ 0 ∷ 0 ∷ 64 ∷ 0 ∷ 64 ∷ 17 ∷ []

abbrev behind : List ℕ
behind = 192 ∷ 168 ∷ 0 ∷ 1 ∷ 192 ∷ 168 ∷ 0 ∷ 199 ∷ []

header_checksum : checksum (sum (before ++ (0 ∷ 0 ∷ behind))) ≡ some 47201
unfolding sum checksum
header_checksum = refl

filled_verify_example :
    (k : ℕ) × (checksum (sum (before ++ (0 ∷ 0 ∷ behind))) ≡ some k)
    × (k < 2 ^ 16)
    × (checksum (sum (before ++ (k / 256 ∷ k % 256 ∷ behind))) ≡ some 0)
unfolding sum
filled_verify_example = filled_verify before behind tt (omega arith)
