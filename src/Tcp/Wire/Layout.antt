-- ===== src/Tcp/Wire/Layout.antt =====
-- How the bytes of a packet lie in its buffer.
use trans_proxy.Base.{
  ℕ, ◌+◌, ◌%◌, ◌^◌, ◌≤◌, ◌<◌, ◌≡◌, refl, sym, ap, ◌∙◌, some, List, [], ◌∷◌, ◌++◌, length, drop,
  lt→ltb, leb_iff, blit, get_or, add_size, arith,
}
use trans_proxy.Map.{◌>>=◌}
use trans_proxy.Net.Packet
use trans_proxy.Net.Packet.{bytes16, bytes32, put_byte}
use trans_proxy.Net.Buffer.{cells, cells_lem, write_fits}
use trans_proxy.Net.TcpHeader
use trans_proxy.Net.TcpHeader.{TcpPacket}
use trans_proxy.Tcp.State.{Out}
use trans_proxy.Tcp.Wire.{flag_bits, set_fields, put_payload}

-- The two headers of 20 bytes, with the size behind the IP header, the two checksums and what follows.
abbrev pub laid : ℕ → Out → ℕ → ℕ → ℕ → ℕ → List ℕ → TcpPacket
laid size o a b c d tail =
    let p = o.packet in
    let s = p.segment in
    record {
      ip = record {
        packet = record {
          bytes =
              69
              ∷ 0
              ∷ (bytes16 (20 + size)
                  ++ (bytes16 o.id
                      ++ (0
                          ∷ 0
                          ∷ 128
                          ∷ 6
                          ∷ a
                          ∷ b
                          ∷ (bytes32 p.src.ip
                              ++ (bytes32 p.dest.ip
                                  ++ (bytes16 p.src.port
                                      ++ (bytes16 p.dest.port
                                          ++ (bytes32 s.seq
                                              ++ (bytes32 s.ack_seq
                                                  ++ (80
                                                      ∷ flag_bits s.flags % 256
                                                      ∷ (bytes16 s.window_size
                                                          ++ (c ∷ d ∷ 0 ∷ 0 ∷ tail))))))))))));
          size = 1500;
        };
        hdrlen = 20;
      };
      hdrlen = 20;
    }

fields_laid :
    (o : Out) (m : ℕ → ℕ) (rest : List ℕ)
    → (TcpHeader.create (
          m 0
          ∷ m 1
          ∷ m 2
          ∷ m 3
          ∷ m 4
          ∷ m 5
          ∷ m 6
          ∷ m 7
          ∷ m 8
          ∷ m 9
          ∷ m 10
          ∷ m 11
          ∷ m 12
          ∷ m 13
          ∷ m 14
          ∷ m 15
          ∷ m 16
          ∷ m 17
          ∷ m 18
          ∷ m 19
          ∷ m 20
          ∷ m 21
          ∷ m 22
          ∷ m 23
          ∷ m 24
          ∷ m 25
          ∷ m 26
          ∷ m 27
          ∷ m 28
          ∷ m 29
          ∷ m 30
          ∷ m 31
          ∷ m 32
          ∷ m 33
          ∷ m 34
          ∷ m 35
          ∷ m 36
          ∷ m 37
          ∷ m 38
          ∷ m 39
          ∷ rest)
        >>= set_fields o)
      ≡ some (laid 20 o (m 10) (m 11) (m 36) (m 37) rest)
unfolding TcpHeader.create set_fields
fields_laid o m rest = refl

-- Whatever the memory held, the headers stand in it.
pub fields_in :
    (o : Out) (memory : List ℕ)
    → 40 ≤ length memory
    → (a b c d : ℕ) × (rest : List ℕ) × ((TcpHeader.create memory >>= set_fields o)
        ≡ some (laid 20 o a b c d rest))
unfolding cells
fields_in o memory h =
    let m = λ (i : ℕ). get_or memory i 0 in
    (
      m 10,
      m 11,
      m 36,
      m 37,
      drop 40 memory,
      ap (λ xs. TcpHeader.create xs >>= set_fields o) (cells_lem 40 0 memory h)
          ∙ fields_laid o m (drop 40 memory),
    )

put_some :
    (bytes : List ℕ) (p : TcpPacket)
    → 0 < length bytes
    → (TcpHeader.write 0 bytes p >>= TcpHeader.set_data_size (length bytes)) ≡ put_payload bytes p
unfolding put_payload
put_some bytes p h = rw (lt→ltb 0 (length bytes) h) refl

-- The payload stands behind the headers, before what the buffer held.
pub payload_laid :
    (bytes : List ℕ) (o : Out) (a b c d : ℕ) (rest : List ℕ)
    → length bytes ≤ 1460
    → (tail : List ℕ) × (put_payload bytes (laid 20 o a b c d rest)
        ≡ some (laid (add_size 20 (length bytes) % 2 ^ 16) o a b c d (bytes ++ tail)))
unfolding put_payload TcpHeader.write TcpHeader.set_data_size Packet.write16 blit
payload_laid [] o a b c d rest h = (rest, refl)
payload_laid (x ∷ xs) o a b c d rest h =
    let bytes = x ∷ xs in
    let p = laid 20 o a b c d rest in
    (
      drop (40 + length bytes) p.ip.packet.bytes,
      sym (put_some bytes p (omega arith))
          ∙ ap
              (λ q.
                ((q >>= λ r. some (record (p.ip) { packet = r })) >>= λ i.
                some (record p { ip = i }))
                >>= TcpHeader.set_data_size (length bytes))
              (write_fits 40 bytes p.ip.packet
                ((leb_iff (add_size 40 (length bytes)) 1500).1 (omega arith))),
    )
