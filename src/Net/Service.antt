-- ===== src/Net/Service.antt =====
-- Dev/Main/src/Net/IPv4.h: `ServiceAddr` and its comparison operators.
use trans_proxy.Base.{ℕ, ap₂, Bool, ◌&&◌, ◌||◌, ltb, ◌==◌, ◌!=◌}
use trans_proxy.Map.Order.{Key}
use trans_proxy.Net.Compare.{Agree, Agree-key, numbers-Agree}
use trans_proxy.Net.Lex.{lex-Agree}
use trans_proxy.Net.Sock.{SockAddr}
use trans_proxy.Net.Sock

-- `proto` is a constant of the enumeration that starts with `PROTO_NULL = -1`, counted from 0 here.
pub record ServiceAddr : Type 0 where
  pub proto : ℕ
  pub sock_addr : SockAddr

-- `operator==`
abbrev pub eq : ServiceAddr → ServiceAddr → Bool
eq a b = (a.proto == b.proto) && Sock.eq a.sock_addr b.sock_addr

-- `operator!=`
abbrev pub ne : ServiceAddr → ServiceAddr → Bool
ne a b = (a.proto != b.proto) || Sock.ne a.sock_addr b.sock_addr

-- `operator<`
abbrev pub lt : ServiceAddr → ServiceAddr → Bool
lt a b = ltb a.proto b.proto || ((a.proto == b.proto) && Sock.lt a.sock_addr b.sock_addr)

-- `operator<=`
abbrev pub le : ServiceAddr → ServiceAddr → Bool
le a b = ltb a.proto b.proto || ((a.proto == b.proto) && Sock.le a.sock_addr b.sock_addr)

-- `operator>`
abbrev pub gt : ServiceAddr → ServiceAddr → Bool
gt a b = ltb b.proto a.proto || ((a.proto == b.proto) && Sock.gt a.sock_addr b.sock_addr)

-- `operator>=`
abbrev pub ge : ServiceAddr → ServiceAddr → Bool
ge a b = ltb b.proto a.proto || ((a.proto == b.proto) && Sock.ge a.sock_addr b.sock_addr)

-- The six operators describe one total order on service addresses.
pub services-Agree : Agree eq ne lt le gt ge
services-Agree =
    lex-Agree (λ (a : ServiceAddr). a.proto) (λ (a : ServiceAddr). a.sock_addr)
      (λ x y e f. ap₂ (λ p s. record { proto = p; sock_addr = s }) e f) numbers-Agree
      Sock.operators-Agree

instance unfoldable pub service_key : Key ServiceAddr
service_key = Agree-key services-Agree
