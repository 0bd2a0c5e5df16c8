-- ===== src/Net/Packet.antt =====
-- `Packet` of Dev/Main/src/Net/Packet.h: bytes that are read and written in the order of the network.
use trans_proxy.Base.{
  ℕ, ◌+◌, ◌*◌, ◌/◌, ◌%◌, ◌^◌, Option, none, some, List, [], ◌∷◌, length, get_elem?, set, take, drop,
  blit, leb, ltb, ◌==◌, add_size, if◌then◌else◌,
}
use trans_proxy.Map.{◌>>=◌}

-- `_ptr` and `_size`: the memory behind the pointer, which holds `size` bytes where the packet is valid.
pub record Packet : Type 0 where
  pub bytes : List ℕ
  pub size : ℕ

-- What `htons` and `htonl` store: the value is cut to its 16 or 32 bits.
abbrev pub bytes16 : ℕ → List ℕ
bytes16 v = v / 2 ^ 8 % 256 ∷ v % 256 ∷ []

abbrev pub bytes32 : ℕ → List ℕ
bytes32 v = v / 2 ^ 24 % 256 ∷ v / 2 ^ 16 % 256 ∷ v / 2 ^ 8 % 256 ∷ v % 256 ∷ []

-- A byte behind a pointer, with no check of the code: `none` where the memory ends before it.
unfoldable pub byte_at : ℕ → Packet → Option ℕ
byte_at i p = get_elem? p.bytes i

unfoldable pub put_byte : ℕ → ℕ → Packet → Option Packet
put_byte i v p = get_elem? p.bytes i >>= λ old. some (record p { bytes = set p.bytes i (v % 256) })

-- The bytes from a pointer on that the code goes through with no check of its own.
unfoldable pub span : ℕ → ℕ → Packet → Option (List ℕ)
span i n p = let bytes = take n (drop i p.bytes) in if length bytes == n then some bytes else none

-- `operator[]`. Here and below `none` is the exception of ASSERT.
unfoldable pub index : ℕ → Packet → Option ℕ
unfolding byte_at
index i p = if ltb i p.size then byte_at i p else none

unfoldable pub read16 : ℕ → Packet → Option ℕ
unfolding byte_at
read16 offset p =
    let value = (do a ← byte_at offset p; b ← byte_at (offset + 1) p; some (a * 2 ^ 8 + b)) in
    if leb (add_size offset 2) p.size then value else none

unfoldable pub read32 : ℕ → Packet → Option ℕ
unfolding byte_at
read32 offset p =
    let value = (do
      a ← byte_at offset p
      b ← byte_at (offset + 1) p
      c ← byte_at (offset + 2) p
      d ← byte_at (offset + 3) p
      some (a * 2 ^ 24 + b * 2 ^ 16 + c * 2 ^ 8 + d)) in
    if leb (add_size offset 4) p.size then value else none

-- `read`: the bytes that it copies
unfoldable pub read : ℕ → ℕ → Packet → Option (List ℕ)
read offset n p =
    if leb (add_size offset n) p.size then some (take n (drop offset p.bytes)) else none

-- A field of two bytes that is stored with no check of the code.
unfoldable pub put16 : ℕ → ℕ → Packet → Option Packet
unfolding put_byte
put16 i v p = put_byte i (v / 2 ^ 8) p >>= put_byte (i + 1) v

unfoldable pub write16 : ℕ → ℕ → Packet → Option Packet
unfolding blit
write16 offset v p =
    if leb (add_size offset 2) p.size
    then some (record p { bytes = blit p.bytes offset (bytes16 v) })
    else none

unfoldable pub write32 : ℕ → ℕ → Packet → Option Packet
unfolding blit
write32 offset v p =
    if leb (add_size offset 4) p.size
    then some (record p { bytes = blit p.bytes offset (bytes32 v) })
    else none

unfoldable pub write : ℕ → List ℕ → Packet → Option Packet
unfolding blit
write offset bytes p =
    if leb (add_size offset (length bytes)) p.size
    then some (record p { bytes = blit p.bytes offset bytes })
    else none
