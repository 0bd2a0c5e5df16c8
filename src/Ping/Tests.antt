-- ===== src/Ping/Tests.antt =====
-- A ping from 192.168.1.2 to 10.0.0.1.
use trans_proxy.Base.{ℕ, ◌≡◌, refl, some, List, [], ◌∷◌, ◌++◌, arith}
use trans_proxy.Net.Checksum.{sum}
use trans_proxy.Net.Packet.{bytes32}
use trans_proxy.Ping.{addressed, dispatch_packet, ping_lem}

abbrev header : List ℕ
header = 69 ∷ 0 ∷ 0 ∷ 24 ∷ 0 ∷ 1 ∷ 0 ∷ 0 ∷ 64 ∷ 1 ∷ 175 ∷ 222 ∷ []

abbrev echo : List ℕ
echo = 8 ∷ 0 ∷ 247 ∷ 255 ∷ []

ping_lem_example :
    (dispatch_packet (addressed header 3232235778 167772161 echo 24 20)
      ≡ some (some (addressed header 167772161 3232235778 echo 24 20)))
    × (sum (header ++ (bytes32 167772161 ++ (bytes32 3232235778 ++ [])))
        ≡ sum (header ++ (bytes32 3232235778 ++ (bytes32 167772161 ++ []))))
ping_lem_example =
    ping_lem header echo [] 3232235778 167772161 24 20 refl refl (omega arith) (omega arith)
      (omega arith)
