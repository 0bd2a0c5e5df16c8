-- ===== src/Net/IpFilled.antt =====
-- The checksum of an IP header.
use trans_proxy.Base.{
  ℕ, ◌+◌, ◌-◌, ◌*◌, ◌/◌, ◌%◌, ◌^◌, ◌<◌, ◌≡◌, refl, ap, ◌∙◌, some, List, [], ◌∷◌, ◌++◌, arith,
}
use trans_proxy.Map.{◌>>=◌}
use trans_proxy.Net.Checksum.{sum, checksum, u32_mod, filled_verify, fold_lem, folded}
use trans_proxy.Net.Packet.{Packet, bytes16, bytes32, put16, span}
use trans_proxy.Net.Ip
use trans_proxy.Net.Ip.{IpPacket}

filled_ip :
    (p : IpPacket) (zeroed filled : Packet) (header : List ℕ) (k : ℕ)
    → put16 10 0 p.packet ≡ some zeroed
    → span 0 p.hdrlen zeroed ≡ some header
    → checksum (sum header) ≡ some k
    → put16 10 k zeroed ≡ some filled
    → Ip.fill_checksum p ≡ some (record p { packet = filled })
unfolding Ip.fill_checksum
filled_ip p zeroed filled header k h1 h2 h3 h4 = rw (h1, h2, h3, h4) refl

-- A sum of 32 bits has a checksum.
pub checksum_total : (c : ℕ) → c < u32_mod → (k : ℕ) × (checksum c ≡ some k)
unfolding checksum
checksum_total c h =
    (2 ^ 16 - 1 - folded c, ap (λ o. o >>= λ q. some (2 ^ 16 - 1 - q)) (fold_lem c h))

-- The header of 20 bytes before and behind its checksum.
abbrev pub before : ℕ → ℕ → ℕ → List ℕ
before size id proto = 69 ∷ 0 ∷ (bytes16 (20 + size) ++ (bytes16 id ++ (0 ∷ 0 ∷ 128 ∷ proto ∷ [])))

abbrev pub behind : ℕ → ℕ → List ℕ
behind src dest = bytes32 src ++ bytes32 dest

-- A packet of such a header in a buffer of 1500 bytes.
abbrev pub headed : List ℕ → ℕ → ℕ → List ℕ → IpPacket
headed front a b rest = record {
  packet = record { bytes = front ++ (a ∷ b ∷ rest); size = 1500 };
  hdrlen = 20;
}

two_bytes : (a b : ℕ) → a % 256 * 256 + b % 256 < 65536
two_bytes a b = omega arith

step_small : (c v n : ℕ) → c < n → v < 65536 → n < 2 ^ 31 → (c + v) % u32_mod < n + 65536
step_small c v n h k l = omega arith

header_small :
    (size i proto s d : ℕ)
    → proto < 256
    → sum (before size i proto ++ (0 ∷ 0 ∷ behind s d)) < u32_mod - 2 ^ 16
unfolding sum
header_small size i proto s d h =
    let c1 =
      step_small 17664 _ 17665 (omega arith) (two_bytes ((20 + size) / 256) (20 + size))
        (omega arith) in
    let c2 = step_small _ _ _ c1 (two_bytes (i / 256) i) (omega arith) in
    let c3 = step_small _ 0 _ c2 (omega arith) (omega arith) in
    let c4 = step_small _ (128 * 256 + proto) _ c3 (omega arith) (omega arith) in
    let c5 = step_small _ 0 _ c4 (omega arith) (omega arith) in
    let c6 = step_small _ _ _ c5 (two_bytes (s / 16777216) (s / 65536)) (omega arith) in
    let c7 = step_small _ _ _ c6 (two_bytes (s / 256) s) (omega arith) in
    let c8 = step_small _ _ _ c7 (two_bytes (d / 16777216) (d / 65536)) (omega arith) in
    let c9 = step_small _ _ _ c8 (two_bytes (d / 256) d) (omega arith) in omega (arith, c9)

-- `fillChecksum` sets the two bytes of the checksum, which then holds, and nothing else.
pub ip_filled :
    (size id proto src dest a b : ℕ) (tail : List ℕ)
    → proto < 256
    → (k : ℕ) × (Ip.fill_checksum (headed (before size id proto) a b (behind src dest ++ tail))
        ≡ some (headed (before size id proto) (k / 2 ^ 8) (k % 256) (behind src dest ++ tail)))
      × (checksum (sum (before size id proto ++ (k / 2 ^ 8 ∷ k % 256 ∷ behind src dest))) ≡ some 0)
unfolding put16 span
ip_filled size id proto src dest a b tail h =
    let front = before size id proto in
    let ends = behind src dest in
    let (k, found, small, verified) =
      filled_verify front ends tt (header_small size id proto src dest h) in
    let cut : k / 2 ^ 8 % 256 ≡ k / 2 ^ 8 = omega arith in
    let rest = ends ++ tail in
    (
      k,
      filled_ip (headed front a b rest) (headed front 0 0 rest).packet
            (headed front (k / 2 ^ 8 % 256) (k % 256) rest).packet (front ++ (0 ∷ 0 ∷ ends)) k refl
            refl found refl
          ∙ ap (λ x. some (headed front x (k % 256) rest)) cut,
      verified,
    )
