-- ===== src/Tcp/Wire/Filled.antt =====
-- The two checksums of a packet, and the whole way of a packet through its bytes.
use trans_proxy.Base.{
  ℕ, ◌+◌, ◌*◌, ◌/◌, ◌%◌, ◌^◌, ◌≤◌, ◌≡◌, refl, ap, some, List, ◌++◌, length, take, drop, sub_size,
  length-take, length-append, arith,
}
use trans_proxy.Net.Checksum.{sum, checksum}
use trans_proxy.Net.Packet.{put16, span}
use trans_proxy.Net.IpFilled.{ip_filled, checksum_total}
use trans_proxy.Net.Buffer.{span_fits}
use trans_proxy.Net.Ip
use trans_proxy.Net.Ip.{IpPacket, on_packet}
use trans_proxy.Net.TcpHeader
use trans_proxy.Net.TcpHeader.{TcpPacket, segment_sum}
use trans_proxy.Tcp.State.{Out}
use trans_proxy.Tcp.Wire.Layout.{laid}

filled_tcp :
    (p : TcpPacket) (q zeroed filled : IpPacket) (n s k : ℕ)
    → Ip.fill_checksum p.ip ≡ some q
    → Ip.get_data_size q ≡ some n
    → on_packet (put16 (q.hdrlen + 16) 0) q ≡ some zeroed
    → segment_sum zeroed n ≡ some s
    → checksum s ≡ some k
    → on_packet (put16 (q.hdrlen + 16) k) zeroed ≡ some filled
    → TcpHeader.fill_checksum p ≡ some (record p { ip = filled })
unfolding TcpHeader.fill_checksum
filled_tcp p q zeroed filled n s k h1 h2 h3 h4 h5 h6 = rw (h1, h2, h3, h4, h5, h6) refl

ip_filled_laid :
    (size : ℕ) (o : Out) (a b c d : ℕ) (tail : List ℕ)
    → (k : ℕ) × (Ip.fill_checksum (laid size o a b c d tail).ip
        ≡ some ((laid size o (k / 2 ^ 8) (k % 256) c d tail).ip))
      × (checksum (sum (take 20 (laid size o (k / 2 ^ 8) (k % 256) c d tail).ip.packet.bytes))
          ≡ some 0)
ip_filled_laid size o a b c d tail =
    let p = o.packet in
    ip_filled size o.id 6 p.src.ip p.dest.ip a b
      (drop 20 (laid size o a b c d tail).ip.packet.bytes) (omega arith)

summed :
    (p : IpPacket) (n : ℕ) (ends bytes : List ℕ)
    → span 12 8 p.packet ≡ some ends
    → span p.hdrlen n p.packet ≡ some bytes
    → segment_sum p n ≡ some ((sum ends + TcpHeader.tcp_protocol + n + sum bytes) % 2 ^ 32)
unfolding segment_sum
summed p n ends bytes h1 h2 = rw (h1, h2) refl

-- The length of what `fillChecksum` sums up.
behind_ip :
    (size : ℕ) (o : Out) (a b c d : ℕ) (bytes tail : List ℕ)
    → let n = 20 + length bytes in
      length (take n (drop 20 (laid size o a b c d (bytes ++ tail)).ip.packet.bytes)) ≡ n
behind_ip size o a b c d bytes tail = omega (
  arith,
  length-take (20 + length bytes) (drop 20 (laid size o a b c d (bytes ++ tail)).ip.packet.bytes),
  length-append bytes tail,
)

size_read :
    (n : ℕ)
    → n ≤ 1460
    → sub_size ((20 + (20 + n)) / 2 ^ 8 % 256 * 2 ^ 8 + (20 + (20 + n)) % 256) 20 ≡ 20 + n
size_read n h = omega arith

data_size :
    (o : Out) (a b c d n : ℕ) (tail : List ℕ)
    → n ≤ 1460
    → Ip.get_data_size (laid (20 + n) o a b c d tail).ip ≡ some (20 + n)
unfolding Ip.get_data_size
data_size o a b c d n tail h = ap some (size_read n h)

-- Both checksums are filled in, and nothing else changes; the one of the IP header holds.
pub tcp_filled :
    (o : Out) (a b c d : ℕ) (bytes tail : List ℕ)
    → length bytes ≤ 1460
    → (a' b' c' d' : ℕ) × (TcpHeader.fill_checksum
          (laid (20 + length bytes) o a b c d (bytes ++ tail))
        ≡ some (laid (20 + length bytes) o a' b' c' d' (bytes ++ tail)))
      × (checksum
            (sum (take 20 (laid (20 + length bytes) o a' b' c' d' (bytes ++ tail)).ip.packet.bytes))
          ≡ some 0)
unfolding put16 span
tcp_filled o a b c d bytes tail h =
    let n = 20 + length bytes in
    let rest = bytes ++ tail in
    let (k, filled, verified) = ip_filled_laid n o a b c d rest in
    let q = (laid n o (k / 2 ^ 8) (k % 256) c d rest).ip in
    let zeroed = (laid n o (k / 2 ^ 8) (k % 256) 0 0 rest).ip in
    let data_bytes = take n (drop 20 zeroed.packet.bytes) in
    let ends = take 8 (drop 12 zeroed.packet.bytes) in
    let s = (sum ends + TcpHeader.tcp_protocol + n + sum data_bytes) % 2 ^ 32 in
    let (j, found) = checksum_total s (omega arith) in
    let done = laid n o (k / 2 ^ 8) (k % 256) (j / 2 ^ 8 % 256) (j % 256) rest in
    (
      k / 2 ^ 8,
      k % 256,
      j / 2 ^ 8 % 256,
      j % 256,
      filled_tcp (laid n o a b c d rest) q zeroed done.ip n s j filled
          (data_size o (k / 2 ^ 8) (k % 256) c d (length bytes) rest h) refl
          (summed zeroed n ends data_bytes refl
            (span_fits 20 n zeroed.packet (behind_ip n o (k / 2 ^ 8) (k % 256) 0 0 bytes tail)))
          found refl,
      verified,
    )
