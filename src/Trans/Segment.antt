-- ===== src/Trans/Segment.antt =====
-- The fields of a TCP packet that Dev/Main/src/TransProxy/TransTCP.cpp reads and sets.
use trans_proxy.Base.{ℕ, ◌+◌, ◌-◌, ◌%◌, ◌^◌, Bool, false, List}
use trans_proxy.Net.Sock.{SockAddr}

-- `FLAG_FIN` to `FLAG_URG` of Dev/Main/src/Net/IPv4.h.
pub record Flags : Type 0 where
  pub fin : Bool
  pub syn : Bool
  pub rst : Bool
  pub psh : Bool
  pub ack : Bool
  pub urg : Bool

abbrev pub no_flags : Flags
no_flags = record { fin = false; syn = false; rst = false; psh = false; ack = false; urg = false }

pub record Segment : Type 0 where
  pub flags : Flags
  pub seq : ℕ
  pub ack_seq : ℕ
  pub window_size : ℕ
  pub payload : List ℕ

-- A packet on its way: its two addresses and its segment.
pub record Packet : Type 0 where
  pub src : SockAddr
  pub dest : SockAddr
  pub segment : Segment

-- `uint32_t` and `uint16_t`.
abbrev pub word_mod : ℕ
word_mod = 2 ^ 32

abbrev pub half_mod : ℕ
half_mod = 2 ^ 16

abbrev pub add_word : ℕ → ℕ → ℕ
add_word a b = (a + b) % word_mod

-- `a - b` cut to 32 bits, where `b` may be a `size_t`.
abbrev pub sub_word : ℕ → ℕ → ℕ
sub_word a b = (a + word_mod - b % word_mod) % word_mod
