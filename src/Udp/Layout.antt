-- ===== src/Udp/Layout.antt =====
-- How the bytes of a datagram lie in its buffer.
use trans_proxy.Base.{
  ℕ, ◌+◌, ◌%◌, ◌^◌, ◌≤◌, ◌≡◌, refl, ap, ◌∙◌, some, List, ◌∷◌, ◌++◌, length, drop, leb_iff, blit,
  get_or, add_size, arith,
}
use trans_proxy.Map.{◌>>=◌}
use trans_proxy.Net.Sock.{SockAddr}
use trans_proxy.Net.Packet.{bytes16}
use trans_proxy.Net.Buffer.{cells, cells_lem, write_fits}
use trans_proxy.Net.Ip.{IpPacket}
use trans_proxy.Net.IpFilled.{before, behind, headed}
use trans_proxy.Net.UdpHeader
use trans_proxy.Udp.{Socket, set_fields}

-- The headers of 20 and of 8 bytes, with the size behind the IP header, the two checksums and what
-- follows.
abbrev pub laid : ℕ → Socket → SockAddr → ℕ → ℕ → ℕ → ℕ → List ℕ → IpPacket
laid size s addr a b c d tail = headed (before size s.id 17) a b (
    behind s.addr.ip addr.ip
    ++ (bytes16 s.addr.port ++ (bytes16 addr.port ++ (bytes16 size ++ (c ∷ d ∷ tail)))))

fields_laid :
    (s : Socket) (addr : SockAddr) (m : ℕ → ℕ) (rest : List ℕ)
    → (UdpHeader.create (
          m 0
          ∷ m 1
          ∷ m 2
          ∷ m 3
          ∷ m 4
          ∷ m 5
          ∷ m 6
          ∷ m 7
          ∷ m 8
          ∷ m 9
          ∷ m 10
          ∷ m 11
          ∷ m 12
          ∷ m 13
          ∷ m 14
          ∷ m 15
          ∷ m 16
          ∷ m 17
          ∷ m 18
          ∷ m 19
          ∷ m 20
          ∷ m 21
          ∷ m 22
          ∷ m 23
          ∷ m 24
          ∷ m 25
          ∷ m 26
          ∷ m 27
          ∷ rest)
        >>= set_fields s addr)
      ≡ some (laid 8 s addr (m 10) (m 11) (m 26) (m 27) rest)
unfolding UdpHeader.create set_fields
fields_laid s addr m rest = refl

-- Whatever the memory held, the headers stand in it.
pub fields_in :
    (s : Socket) (addr : SockAddr) (memory : List ℕ)
    → 28 ≤ length memory
    → (a b c d : ℕ) × (rest : List ℕ) × ((UdpHeader.create memory >>= set_fields s addr)
        ≡ some (laid 8 s addr a b c d rest))
unfolding cells
fields_in s addr memory h =
    let m = λ (i : ℕ). get_or memory i 0 in
    (
      m 10,
      m 11,
      m 26,
      m 27,
      drop 28 memory,
      ap (λ xs. UdpHeader.create xs >>= set_fields s addr) (cells_lem 28 0 memory h)
          ∙ fields_laid s addr m (drop 28 memory),
    )

sized :
    (n : ℕ) (s : Socket) (addr : SockAddr) (a b c d : ℕ) (rest : List ℕ)
    → UdpHeader.set_data_size n (laid 8 s addr a b c d rest)
      ≡ some (record {
        packet = record {
          bytes =
              before (add_size n 8 % 2 ^ 16) s.id 17
              ++ (a
                  ∷ b
                  ∷ (behind s.addr.ip addr.ip
                      ++ (bytes16 s.addr.port
                          ++ (bytes16 addr.port ++ (bytes16 (add_size n 8) ++ (c ∷ d ∷ rest))))));
          size = 1500;
        };
        hdrlen = 20;
      })
unfolding UdpHeader.set_data_size
sized n s addr a b c d rest = refl

-- The bytes stand behind the headers, before what the buffer held.
pub payload_laid :
    (bytes : List ℕ) (s : Socket) (addr : SockAddr) (a b c d : ℕ) (rest : List ℕ)
    → length bytes ≤ 1472
    → (tail : List ℕ) × ((UdpHeader.write 0 bytes (laid 8 s addr a b c d rest)
          >>= UdpHeader.set_data_size (length bytes))
        ≡ some (laid (8 + length bytes) s addr a b c d (bytes ++ tail)))
unfolding UdpHeader.write blit
payload_laid bytes s addr a b c d rest h =
    let p = laid 8 s addr a b c d rest in
    let tail = drop (28 + length bytes) p.packet.bytes in
    let exact : add_size (length bytes) 8 ≡ 8 + length bytes = omega arith in
    let cut : (8 + length bytes) % 2 ^ 16 ≡ 8 + length bytes = omega arith in
    (
      tail,
      ap
            (λ q.
              (q >>= λ r. some (record p { packet = r }))
              >>= UdpHeader.set_data_size (length bytes))
            (write_fits 28 bytes p.packet
              ((leb_iff (add_size 28 (length bytes)) 1500).1 (omega arith)))
          ∙ sized (length bytes) s addr a b c d (bytes ++ tail)
          ∙ rw (exact, cut) refl,
    )
