-- ===== src/Net/Sock.antt =====
-- Dev/Main/src/Net/IPv4.h: `SockAddr` and its comparison operators.
use trans_proxy.Base.{ℕ, ap₂, Bool, ◌&&◌, ◌||◌, ltb, leb, ◌==◌, ◌!=◌}
use trans_proxy.Map.Order.{Key}
use trans_proxy.Net.Compare.{Agree, Agree-key, numbers-Agree}
use trans_proxy.Net.Lex.{lex-Agree}

-- An `uint32_t` and an `uint16_t`.
pub record SockAddr : Type 0 where
  pub ip : ℕ
  pub port : ℕ

-- `operator==`
abbrev pub eq : SockAddr → SockAddr → Bool
eq a b = (a.ip == b.ip) && (a.port == b.port)

-- `operator!=`
abbrev pub ne : SockAddr → SockAddr → Bool
ne a b = (a.ip != b.ip) || (a.port != b.port)

-- `operator<`
abbrev pub lt : SockAddr → SockAddr → Bool
lt a b = ltb a.ip b.ip || ((a.ip == b.ip) && ltb a.port b.port)

-- `operator<=`
abbrev pub le : SockAddr → SockAddr → Bool
le a b = ltb a.ip b.ip || ((a.ip == b.ip) && leb a.port b.port)

-- `operator>`
abbrev pub gt : SockAddr → SockAddr → Bool
gt a b = ltb b.ip a.ip || ((a.ip == b.ip) && ltb b.port a.port)

-- `operator>=`
abbrev pub ge : SockAddr → SockAddr → Bool
ge a b = ltb b.ip a.ip || ((a.ip == b.ip) && leb b.port a.port)

-- The six operators describe one total order on socket addresses.
pub operators-Agree : Agree eq ne lt le gt ge
operators-Agree =
    lex-Agree (λ (a : SockAddr). a.ip) (λ (a : SockAddr). a.port)
      (λ x y e f. ap₂ (λ i p. record { ip = i; port = p }) e f) numbers-Agree numbers-Agree

instance unfoldable pub sock_key : Key SockAddr
sock_key = Agree-key operators-Agree
