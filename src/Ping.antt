-- ===== src/Ping.antt =====
-- Dev/Main/src/TransProxy/Ping.h: the answer to a ping.
mod Tests
use trans_proxy.Base.{
  ℕ, zero, suc, ◌+◌, ◌*◌, ◌/◌, ◌%◌, ◌^◌, ◌≤◌, ◌<◌, ◌≡◌, refl, sym, ap, subst, ◌∙◌, Bool, true,
  Option, none, some, List, [], ◌∷◌, ◌++◌, length, get_elem?, get_or, drop, drop_none, leb, leb_iff,
  ltb, lt→ltb, ◌==◌, add_size, if◌then◌else◌, drop-append, size_mod, arith,
}
use mathlib.Core.List.{append-nil}
use trans_proxy.Map.{◌>>=◌}
use trans_proxy.Net.Checksum.{sum, Even}
use trans_proxy.Net.Checksum.Swap.{sum_swap}
use trans_proxy.Net.Packet
use trans_proxy.Net.Packet.{Packet, bytes32}
use trans_proxy.Net.Buffer.{cells, cells_lem, word_back}
use trans_proxy.Net.Ip
use trans_proxy.Net.Ip.{IpPacket}

-- `IPPROTO_ICMP`
abbrev pub icmp_protocol : ℕ
icmp_protocol = 1

-- The packet with its two addresses exchanged.
unfoldable pub exchange : IpPacket → Option IpPacket
unfolding Ip.get_src_addr Ip.get_dest_addr Ip.set_src_addr Ip.set_dest_addr
exchange p = do
  src ← Ip.get_src_addr p
  dest ← Ip.get_dest_addr p
  q ← Ip.set_src_addr dest p
  Ip.set_dest_addr src q

-- `dispatchPacket`: the packet that is sent, if one is. `none` is the exception.
unfoldable pub dispatch_packet : IpPacket → Option (Option IpPacket)
unfolding Ip.protocol exchange
dispatch_packet p =
    let answered = (exchange p >>= λ q. some (some q)) in
    Ip.protocol p >>= λ n. if n == icmp_protocol then answered else some none

-- A packet whose header has the two addresses behind its first 12 bytes.
abbrev pub addressed : List ℕ → ℕ → ℕ → List ℕ → ℕ → ℕ → IpPacket
addressed front src dest tail size hdrlen = record {
  packet = record { bytes = front ++ (bytes32 src ++ (bytes32 dest ++ tail)); size = size };
  hdrlen = hdrlen;
}

abbrev twelve : (ℕ → ℕ) → List ℕ
twelve m = m 0 ∷ m 1 ∷ m 2 ∷ m 3 ∷ m 4 ∷ m 5 ∷ m 6 ∷ m 7 ∷ m 8 ∷ m 9 ∷ m 10 ∷ m 11 ∷ []

answered_cells :
    (m : ℕ → ℕ) (src dest : ℕ) (tail : List ℕ) (size hdrlen : ℕ)
    → leb 16 size ≡ true
    → leb 20 size ≡ true
    → ltb 9 size ≡ true
    → src < 2 ^ 32
    → dest < 2 ^ 32
    → m 9 ≡ icmp_protocol
    → dispatch_packet (addressed (twelve m) src dest tail size hdrlen)
      ≡ some (some (addressed (twelve m) dest src tail size hdrlen))
unfolding dispatch_packet
answered_cells m src dest tail size hdrlen h k i s d icmp =
    rw (h, k, i) (rw (word_back src s, word_back dest d) (rw icmp refl))

-- Twelve bytes, one by one.
twelve_lem : (front : List ℕ) → length front ≡ 12 → front ≡ twelve (λ i. get_or front i 0)
unfolding cells
twelve_lem front h =
    cells_lem 12 0 front (omega arith)
    ∙ ap (λ xs. cells 12 0 front ++ xs) (drop_none 12 front (omega arith))

-- An ICMP packet, in memory of at least 20 bytes, is sent back with its two addresses exchanged and no
-- other byte changed, and the sum over its header is the same, whatever options follow the addresses:
-- the checksum need not be computed again.
pub ping_lem :
    (front tail options : List ℕ) (src dest size hdrlen : ℕ)
    → length front ≡ 12
    → get_or front 9 0 ≡ icmp_protocol
    → src < 2 ^ 32
    → dest < 2 ^ 32
    → 20 ≤ size
    → (dispatch_packet (addressed front src dest tail size hdrlen)
        ≡ some (some (addressed front dest src tail size hdrlen)))
      × (sum (front ++ (bytes32 dest ++ (bytes32 src ++ options)))
          ≡ sum (front ++ (bytes32 src ++ (bytes32 dest ++ options))))
ping_lem front tail options src dest size hdrlen h icmp s d room =
    let m = λ (i : ℕ). get_or front i 0 in
    let e = twelve_lem front h in
    (
      ap (λ xs. dispatch_packet (addressed xs src dest tail size hdrlen)) e
          ∙ answered_cells m src dest tail size hdrlen ((leb_iff 16 size).1 (omega arith))
              ((leb_iff 20 size).1 room) (lt→ltb 9 size (omega arith)) s d icmp
          ∙ ap (λ xs. some (some (addressed xs dest src tail size hdrlen))) (sym e),
      sum_swap (dest / 2 ^ 24 % 256) (dest / 2 ^ 16 % 256) (dest / 2 ^ 8 % 256) (dest % 256)
          (src / 2 ^ 24 % 256) (src / 2 ^ 16 % 256) (src / 2 ^ 8 % 256) (src % 256) options front
          (subst Even (sym e) tt),
    )
