-- ===== src/Udp/Arrived.antt =====
-- What a receiver reads in the bytes of a datagram that the IP layer has cut to their size.
use mathlib.Core.List.{append-nil}
use trans_proxy.Base.{
  [], ltb, leb, leb_iff, lt→ltb, true, ℕ, ◌+◌, ◌*◌, ◌/◌, ◌%◌, ◌^◌, ◌≤◌, ◌<◌, ◌≡◌, refl, sym, ap,
  ◌∙◌, some, List, ◌++◌, length, take, take-append, sub_size, ==_iff, arith,
}
use trans_proxy.Map.{◌>>=◌}
use trans_proxy.Net.Sock.{SockAddr, sock_key}
use trans_proxy.Net.Packet.{span}
use trans_proxy.Net.Buffer.{half_back, word_back}
use trans_proxy.Net.Ip
use trans_proxy.Net.Ip.{IpPacket}
use trans_proxy.Net.UdpHeader
use trans_proxy.Udp.{Socket, Udp, receive, dispatch_packet}
use trans_proxy.Udp.Layout.{laid}

-- An address that fits the fields of a packet.
pub record InFields (a : SockAddr) : Type 0 where
  pub ip_in : a.ip < 2 ^ 32
  pub port_in : a.port < 2 ^ 16

-- The packet with `n` of its bytes, as it comes to the other end.
abbrev pub arrived : ℕ → ℕ → Socket → SockAddr → ℕ → ℕ → ℕ → ℕ → List ℕ → IpPacket
arrived n size s addr a b c d tail = record {
  packet = record { bytes = (laid size s addr a b c d tail).packet.bytes; size = n };
  hdrlen = 20;
}

pub bytes_back :
    (n : ℕ) (s : Socket) (addr : SockAddr) (a b c d : ℕ) (bytes tail : List ℕ)
    → 28 ≤ n
    → length bytes ≤ 1472
    → UdpHeader.payload (arrived n (8 + length bytes) s addr a b c d (bytes ++ tail)) ≡ some bytes
unfolding UdpHeader.payload span
bytes_back n s addr a b c d bytes tail big h =
    let k = 8 + length bytes in
    let size : sub_size (k / 2 ^ 8 % 256 * 2 ^ 8 + k % 256) 8 ≡ length bytes = omega arith in
    rw ((leb_iff 26 n).1 (omega arith), size, take-append bytes tail)
      (rw ((==_iff (length bytes) (length bytes)).1 refl) refl)

module _ (n size : ℕ) (s : Socket) (addr : SockAddr) (a b c d : ℕ) (tail : List ℕ)
    (h : 28 ≤ n) where
  holds_lt : (k : ℕ) → k < 28 → ltb k n ≡ true
  holds_lt k l = lt→ltb k n (omega arith)

  holds_le : (k : ℕ) → k ≤ 28 → leb k n ≡ true
  holds_le k l = (leb_iff k n).1 (omega arith)

  pub dispatched :
      (u : Udp)
      → receive u (arrived n size s addr a b c d tail)
        ≡ (Ip.of_packet (arrived n size s addr a b c d tail).packet >>= dispatch_packet u)
  unfolding dispatch_packet Ip.of_packet
  dispatched u = rw (holds_lt 0 (omega arith), holds_lt 9 (omega arith)) refl

  pub taken_up :
      UdpHeader.of_ip (arrived n size s addr a b c d tail)
      ≡ some (arrived n size s addr a b c d tail)
  unfolding UdpHeader.of_ip
  taken_up = rw (holds_lt 9 (omega arith)) refl

  pub dest_ip_back :
      InFields addr → Ip.get_dest_addr (arrived n size s addr a b c d tail) ≡ some addr.ip
  unfolding Ip.get_dest_addr
  dest_ip_back fit = rw (holds_le 20 (omega arith)) (ap some (word_back addr.ip fit.ip_in))

  pub src_ip_back :
      InFields s.addr → Ip.get_src_addr (arrived n size s addr a b c d tail) ≡ some s.addr.ip
  unfolding Ip.get_src_addr
  src_ip_back fit = rw (holds_le 16 (omega arith)) (ap some (word_back s.addr.ip fit.ip_in))

  pub dest_port_back :
      InFields addr → UdpHeader.get_dest_port (arrived n size s addr a b c d tail) ≡ some addr.port
  unfolding UdpHeader.get_dest_port
  dest_port_back fit = rw (holds_le 24 (omega arith)) (ap some (half_back addr.port fit.port_in))

  pub src_port_back :
      InFields s.addr
      → UdpHeader.get_src_port (arrived n size s addr a b c d tail) ≡ some s.addr.port
  unfolding UdpHeader.get_src_port
  src_port_back fit = rw (holds_le 22 (omega arith)) (ap some (half_back s.addr.port fit.port_in))

-- The IP layer sends the headers and the bytes, and nothing behind them.
pub cut_short :
    (s : Socket) (addr : SockAddr) (a b c d : ℕ) (bytes tail : List ℕ)
    → length bytes ≤ 1472
    → Ip.send_packet (laid (8 + length bytes) s addr a b c d (bytes ++ tail))
      ≡ some (arrived (28 + length bytes) (8 + length bytes) s addr a b c d (bytes ++ [])).packet
unfolding Ip.send_packet
cut_short s addr a b c d bytes tail h =
    let k = length bytes in
    let size : (20 + (8 + k)) / 2 ^ 8 % 256 * 2 ^ 8 + (20 + (8 + k)) % 256 ≡ 28 + k = omega arith in
    let all = (laid (8 + k) s addr a b c d (bytes ++ [])).packet.bytes in
    let long : length all ≡ 28 + k = omega (arith, ap length (append-nil bytes)) in
    let taken : take (28 + k) (laid (8 + k) s addr a b c d (bytes ++ tail)).packet.bytes ≡ all =
      ap (λ xs. take (28 + k) (laid (8 + k) s addr a b c d (xs ++ tail)).packet.bytes)
        (sym (append-nil bytes))
      ∙ ap (λ m. take m (all ++ tail)) (sym long)
      ∙ take-append all tail in
    rw (size, taken) (rw ((==_iff (length all) (28 + k)).1 long) refl)
