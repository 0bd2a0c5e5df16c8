-- ===== src/Net/Pair.antt =====
-- Dev/Main/src/Net/IPv4.h: `SockAddrPair` and its comparison operators.
use trans_proxy.Base.{ap₂, Bool, ◌&&◌, ◌||◌}
use trans_proxy.Map.Order.{Key}
use trans_proxy.Net.Compare.{Agree, Agree-key}
use trans_proxy.Net.Lex.{lex-Agree}
use trans_proxy.Net.Sock.{SockAddr}
use trans_proxy.Net.Sock

pub record SockAddrPair : Type 0 where
  pub remote : SockAddr
  pub local : SockAddr

-- `operator==`
abbrev pub eq : SockAddrPair → SockAddrPair → Bool
eq a b = Sock.eq a.local b.local && Sock.eq a.remote b.remote

-- `operator!=`
abbrev pub ne : SockAddrPair → SockAddrPair → Bool
ne a b = Sock.ne a.local b.local || Sock.ne a.remote b.remote

-- `operator<`
abbrev pub lt : SockAddrPair → SockAddrPair → Bool
lt a b = Sock.lt a.local b.local || (Sock.eq a.local b.local && Sock.lt a.remote b.remote)

-- `operator<=`
abbrev pub le : SockAddrPair → SockAddrPair → Bool
le a b = Sock.lt a.local b.local || (Sock.eq a.local b.local && Sock.le a.remote b.remote)

-- `operator>`
abbrev pub gt : SockAddrPair → SockAddrPair → Bool
gt a b = Sock.gt a.local b.local || (Sock.eq a.local b.local && Sock.gt a.remote b.remote)

-- `operator>=`
abbrev pub ge : SockAddrPair → SockAddrPair → Bool
ge a b = Sock.gt a.local b.local || (Sock.eq a.local b.local && Sock.ge a.remote b.remote)

-- The six operators describe one total order on the two ends of a connection, the local first.
pub pairs-Agree : Agree eq ne lt le gt ge
pairs-Agree =
    lex-Agree (λ (a : SockAddrPair). a.local) (λ (a : SockAddrPair). a.remote)
      (λ x y e f. ap₂ (λ l r. record { remote = r; local = l }) e f) Sock.operators-Agree
      Sock.operators-Agree

instance unfoldable pub pair_key : Key SockAddrPair
pair_key = Agree-key pairs-Agree
