-- ===== src/Tcp/Wire/Trip.antt =====
-- The whole way of a packet: laid out by `sendPacket`, taken apart by the receiver.
use trans_proxy.Base.{ℕ, ◌+◌, ◌≤◌, ◌≡◌, refl, ap, ◌∙◌, some, List, ◌++◌, length, take, arith}
use trans_proxy.Map.{◌>>=◌}
use trans_proxy.Net.Checksum.{sum, checksum}
use trans_proxy.Net.TcpHeader
use trans_proxy.Net.TcpHeader.{TcpPacket}
use trans_proxy.Trans.Segment.{Packet}
use trans_proxy.Tcp.State.{Out}
use trans_proxy.Tcp.Wire.{put_payload, encode, read_flags, decode, arrive}
use trans_proxy.Tcp.Wire.Layout.{laid, fields_in, payload_laid}
use trans_proxy.Tcp.Wire.Decoded.{
  InFields, src_laid, dest_laid, seq_laid, ack_laid, window_laid, flags_laid, payload_laid_back,
  size_back,
}
use trans_proxy.Tcp.Wire.Filled.{tcp_filled}

-- The bytes that `sendPacket` makes.
encoded :
    (o : Out) (memory : List ℕ)
    → 40 ≤ length memory
    → length o.packet.segment.payload ≤ 1460
    → (a b c d : ℕ) × (tail : List ℕ) × (encode memory o
        ≡ some (
            laid
              (20 + length o.packet.segment.payload)
              o
              a
              b
              c
              d
              (o.packet.segment.payload ++ tail)))
      × (checksum (
            sum (
              take 20
                (laid
                  (20 + length o.packet.segment.payload)
                  o
                  a
                  b
                  c
                  d
                  (o.packet.segment.payload ++ tail)).ip.packet.bytes))
          ≡ some 0)
unfolding encode
encoded o memory h short =
    let bytes = o.packet.segment.payload in
    let (a, b, c, d, rest, e1) = fields_in o memory h in
    let (tail, e2) = payload_laid bytes o a b c d rest short in
    let (a', b', c', d', e3, verified) = tcp_filled o a b c d bytes tail short in
    (
      a',
      b',
      c',
      d',
      tail,
      ap (λ x. x >>= put_payload bytes >>= TcpHeader.fill_checksum) e1
          ∙ ap (λ x. x >>= TcpHeader.fill_checksum) e2
          ∙ ap (λ n. TcpHeader.fill_checksum (laid n o a b c d (bytes ++ tail)))
              (size_back (length bytes) short)
          ∙ e3,
      verified,
    )

decoded :
    (p : TcpPacket) (q : Packet)
    → TcpHeader.get_src_sock_addr p ≡ some q.src
    → TcpHeader.get_dest_sock_addr p ≡ some q.dest
    → read_flags p ≡ some q.segment.flags
    → TcpHeader.get_seq p ≡ some q.segment.seq
    → TcpHeader.get_ack p ≡ some q.segment.ack_seq
    → TcpHeader.get_window_size p ≡ some q.segment.window_size
    → TcpHeader.payload p ≡ some q.segment.payload
    → decode p ≡ some q
unfolding decode
decoded p q h1 h2 h3 h4 h5 h6 h7 = rw (h1, h2, h3, h4, h5, h6, h7) refl

taken_up :
    (size : ℕ) (o : Out) (a b c d : ℕ) (tail : List ℕ)
    → arrive (laid size o a b c d tail).ip.packet ≡ decode (laid size o a b c d tail)
unfolding arrive
taken_up size o a b c d tail = refl

-- A packet whose numbers fit their fields, with at most 1460 bytes: whatever the memory of the buffer
-- held, `sendPacket` lays it out in bytes from which the receiver reads the same ends, flags, numbers,
-- window and bytes, and the checksum of whose IP header holds.
pub wire_lem :
    (memory : List ℕ) (o : Out)
    → length memory ≡ 1500
    → InFields o.packet
    → length o.packet.segment.payload ≤ 1460
    → (p : TcpPacket) × (encode memory o ≡ some p)
      × (arrive p.ip.packet ≡ some o.packet)
      × (checksum (sum (take 20 p.ip.packet.bytes)) ≡ some 0)
wire_lem memory o h fit short =
    let bytes = o.packet.segment.payload in
    let (a, b, c, d, tail, e, verified) = encoded o memory (omega arith) short in
    let size = 20 + length bytes in
    let rest = bytes ++ tail in
    (
      laid size o a b c d rest,
      e,
      taken_up size o a b c d rest
          ∙ decoded (laid size o a b c d rest) o.packet (src_laid size o a b c d rest fit)
              (dest_laid size o a b c d rest fit) (flags_laid size o a b c d rest fit)
              (seq_laid size o a b c d rest fit) (ack_laid size o a b c d rest fit)
              (window_laid size o a b c d rest fit) (payload_laid_back o a b c d bytes tail short),
      verified,
    )
