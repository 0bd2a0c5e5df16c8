-- ===== src/Tcp/Wire/Decoded.antt =====
-- What the receiver reads of bytes that lie as `sendPacket` lays them out.
use trans_proxy.Base.{
  ℕ, ◌+◌, ◌*◌, ◌/◌, ◌%◌, ◌^◌, ◌≤◌, ◌<◌, ◌≡◌, refl, ap, ap₂, Bool, true, false, some, List, ◌++◌,
  length, ◌==◌, ==_iff, add_size, sub_size, take-append, arith,
}
use trans_proxy.Net.Packet.{span}
use trans_proxy.Net.Buffer.{half_back, word_back}
use trans_proxy.Net.TcpHeader
use trans_proxy.Net.TcpHeader.{TcpPacket}
use trans_proxy.Trans.Segment.{Flags, Packet}
use trans_proxy.Tcp.State.{Out}
use trans_proxy.Tcp.Wire.{bit, flag_bits, read_flags}
use trans_proxy.Tcp.Wire.Layout.{laid}

-- The numbers of a packet fit their fields.
pub record InFields (p : Packet) : Type 0 where
  pub src_ip : p.src.ip < 2 ^ 32
  pub src_port : p.src.port < 2 ^ 16
  pub dest_ip : p.dest.ip < 2 ^ 32
  pub dest_port : p.dest.port < 2 ^ 16
  pub seq_in : p.segment.seq < 2 ^ 32
  pub ack_in : p.segment.ack_seq < 2 ^ 32
  pub window_in : p.segment.window_size < 2 ^ 16

bit-le : (b : Bool) → bit b ≤ 1
bit-le true = omega arith
bit-le false = omega arith

bit_back : (b : Bool) (n : ℕ) → n ≡ bit b → (n == 1) ≡ b
bit_back true n h = rw h refl
bit_back false n h = rw h refl

-- The six bits of a number, read one at a time.
flags_back :
    (f : Flags) (n : ℕ)
    → n ≡ flag_bits f % 256
    → ((n / 1 % 2 == 1) ≡ f.fin)
      × ((n / 2 % 2 == 1) ≡ f.syn)
      × ((n / 4 % 2 == 1) ≡ f.rst)
      × ((n / 8 % 2 == 1) ≡ f.psh)
      × ((n / 16 % 2 == 1) ≡ f.ack)
      × ((n / 32 % 2 == 1) ≡ f.urg)
flags_back f n h =
    let k1 = bit-le f.fin in
    let k2 = bit-le f.syn in
    let k3 = bit-le f.rst in
    let k4 = bit-le f.psh in
    let k5 = bit-le f.ack in
    let k6 = bit-le f.urg in
    (
      bit_back f.fin _ (omega arith),
      bit_back f.syn _ (omega arith),
      bit_back f.rst _ (omega arith),
      bit_back f.psh _ (omega arith),
      bit_back f.ack _ (omega arith),
      bit_back f.urg _ (omega arith),
    )

module _ (size : ℕ) (o : Out) (a b c d : ℕ) (tail : List ℕ) (fit : InFields o.packet) where
  pub src_laid : TcpHeader.get_src_sock_addr (laid size o a b c d tail) ≡ some o.packet.src
  unfolding TcpHeader.get_src_sock_addr
  src_laid =
      ap₂ (λ i q. some (record { ip = i; port = q })) (word_back o.packet.src.ip fit.src_ip)
        (half_back o.packet.src.port fit.src_port)

  pub dest_laid : TcpHeader.get_dest_sock_addr (laid size o a b c d tail) ≡ some o.packet.dest
  unfolding TcpHeader.get_dest_sock_addr
  dest_laid =
      ap₂ (λ i q. some (record { ip = i; port = q })) (word_back o.packet.dest.ip fit.dest_ip)
        (half_back o.packet.dest.port fit.dest_port)

  pub seq_laid : TcpHeader.get_seq (laid size o a b c d tail) ≡ some o.packet.segment.seq
  unfolding TcpHeader.get_seq
  seq_laid = ap some (word_back o.packet.segment.seq fit.seq_in)

  pub ack_laid : TcpHeader.get_ack (laid size o a b c d tail) ≡ some o.packet.segment.ack_seq
  unfolding TcpHeader.get_ack
  ack_laid = ap some (word_back o.packet.segment.ack_seq fit.ack_in)

  pub window_laid :
      TcpHeader.get_window_size (laid size o a b c d tail) ≡ some o.packet.segment.window_size
  unfolding TcpHeader.get_window_size
  window_laid = ap some (half_back o.packet.segment.window_size fit.window_in)

  pub flags_laid : read_flags (laid size o a b c d tail) ≡ some o.packet.segment.flags
  unfolding read_flags
  flags_laid =
      let f = o.packet.segment.flags in
      let (e1, e2, e3, e4, e5, e6) = flags_back f (flag_bits f % 256) refl in
      rw (e1, e2, e3, e4, e5, e6) refl

-- The size that the IP header gives, less both headers.
pub size_back : (n : ℕ) → n ≤ 1460 → add_size 20 n % 2 ^ 16 ≡ 20 + n
size_back n h = omega arith

pub payload_laid_back :
    (o : Out) (a b c d : ℕ) (bytes tail : List ℕ)
    → length bytes ≤ 1460
    → TcpHeader.payload (laid (20 + length bytes) o a b c d (bytes ++ tail)) ≡ some bytes
unfolding TcpHeader.payload span
payload_laid_back o a b c d bytes tail h =
    let n = 20 + (20 + length bytes) in
    let size : sub_size (sub_size (n / 2 ^ 8 % 256 * 2 ^ 8 + n % 256) 20) 20 ≡ length bytes =
      omega arith in
    rw (size, take-append bytes tail) (rw ((==_iff (length bytes) (length bytes)).1 refl) refl)
