-- ===== src/Tcp/Run.antt =====
-- What can happen to a connection, as steps, and what holds of every connection that they reach.
mod Tests
use trans_proxy.Base.{
  ℕ, ◌≡◌, refl, subst, Bool, true, false, Option, none, some, Option-cases, inl, inr, List, length,
  if◌then◌else◌, arith,
}
use trans_proxy.Map.Api
use trans_proxy.Net.Sock.{SockAddr}
use trans_proxy.Net.Pair.{SockAddrPair, pair_key}
use trans_proxy.Ring.{alloc}
use trans_proxy.Ring.Refine.{alloc-IsValid}
use trans_proxy.Trans.Segment.{Packet}
use trans_proxy.Tcp.State.{Endpoint, create, ring_size}
use trans_proxy.Tcp.Call.{Call, Listener, run_call}
use trans_proxy.Tcp.Receive.{dispatch_packet}
use trans_proxy.Tcp.Timer.{running, fire1, fire2}
use trans_proxy.Tcp.Open.{Connections, is_closed, accept, free_port, is_taken, port_of, connect}
use trans_proxy.Tcp.Valid.{Kept-IsValid, IsValid, Counted, CountedUser, run_call-IsValid}
use trans_proxy.Tcp.Steps.{
  AllValid, LeftValid, dispatch_packet-AllValid, fire1-LeftValid, fire2-IsValid,
}

-- One event: `accept` or `connect`, whatever other connections there are, a packet, one of the timers,
-- or a call of the user.
pub data Step (user : Listener) : Endpoint → Endpoint → Type 0 where
  on_accept :
      (self : ℕ) (addrs : SockAddrPair) (conns conns' : Connections) (e r : Endpoint)
      → accept self addrs e conns ≡ some (r, conns')
      → Step user e r
  on_connect :
      (rounds self : ℕ) (addr : SockAddr) (conns conns' : Connections) (e r : Endpoint)
      → connect rounds self addr e conns ≡ some (r, conns')
      → Step user e r
  on_packet :
      (stack : List ℕ) (q : Packet) (e r : Endpoint)
      → dispatch_packet stack user q e ≡ some r
      → Step user e r
  on_timer1 :
      (stack : List ℕ) (e r : Endpoint) → fire1 stack user e ≡ some (running r) → Step user e r
  on_timer2 : (stack : List ℕ) (e : Endpoint) → Step user e (fire2 stack e)
  on_call :
      (stack : List ℕ) (c : Call) (e : Endpoint) → Counted c → Step user e (run_call stack c e)

-- The events that a connection has seen.
pub data Reached (user : Listener) (from : Endpoint) : Endpoint → Type 0 where
  start : Reached user from from
  next : {e r : Endpoint} → Reached user from e → Step user e r → Reached user from r

abbrev OpenedValid : Option (Endpoint × Connections) → Type 0
OpenedValid none = Unit {0}
OpenedValid (some o) = IsValid o.0

if-OpenedValid :
    (b : Bool) (o : Option (Endpoint × Connections))
    → OpenedValid o
    → OpenedValid (if b then o else none)
if-OpenedValid true o v = v
if-OpenedValid false o v = tt

accept-OpenedValid :
    (self : ℕ) (addrs : SockAddrPair) (e : Endpoint) (conns : Connections)
    → IsValid e
    → OpenedValid (accept self addrs e conns)
unfolding accept
accept-OpenedValid self addrs e conns v =
    if-OpenedValid (is_closed e.state) _
      (elim (Option-cases (Api.add conns (record { id = self; key = addrs }))) [
        | inl n ↦ rw n tt
        | inr (o, s) ↦ rw s (Kept-IsValid {e = e} (refl, refl, refl) v)
      ])

connect-OpenedValid :
    (rounds self : ℕ) (addr : SockAddr) (e : Endpoint) (conns : Connections)
    → IsValid e
    → OpenedValid (connect rounds self addr e conns)
unfolding connect
connect-OpenedValid rounds self addr e conns v =
    let ip = e.addrs.remote.ip in
    if-OpenedValid (is_closed e.state) _
      (elim (Option-cases (port_of (free_port rounds (is_taken conns ip addr) 1024))) [
        | inl n ↦ rw n tt
        | inr (port, p) ↦
            let addrs : SockAddrPair = record {
              remote = record { ip = ip; port = port };
              local = addr;
            } in
            rw p (elim (Option-cases (Api.add conns (record { id = self; key = addrs }))) [
              | inl n ↦ rw n tt
              | inr (o, s) ↦ rw s (Kept-IsValid {e = e} (refl, refl, refl) v)
            ])
      ])

Step-IsValid :
    {user : Listener} {e r : Endpoint} → CountedUser user → IsValid e → Step user e r → IsValid r
Step-IsValid c v (on_accept self addrs conns conns' e r h) =
    subst OpenedValid h (accept-OpenedValid self addrs e conns v)
Step-IsValid c v (on_connect rounds self addr conns conns' e r h) =
    subst OpenedValid h (connect-OpenedValid rounds self addr e conns v)
Step-IsValid {user} c v (on_packet stack q e r h) =
    subst AllValid h (dispatch_packet-AllValid stack user q e c v)
Step-IsValid {user} c v (on_timer1 stack e r h) =
    subst LeftValid h (fire1-LeftValid stack user e c v)
Step-IsValid c v (on_timer2 stack e) = fire2-IsValid stack e v
Step-IsValid c v (on_call stack k e h) = run_call-IsValid stack k e h v

pub all_steps :
    {user : Listener} {from e : Endpoint}
    → CountedUser user
    → IsValid from
    → Reached user from e
    → IsValid e
all_steps c v start = v
all_steps c v (next before step) = Step-IsValid c (all_steps c v before) step

pub create-IsValid :
    (random : ℕ) (in_memory out_memory : List ℕ) (ip : ℕ)
    → length in_memory ≡ ring_size
    → length out_memory ≡ ring_size
    → IsValid (create random in_memory out_memory ip)
unfolding create alloc
create-IsValid random in_memory out_memory ip h k = record {
  in_valid = (alloc-IsValid in_memory ring_size (omega arith) (omega arith) h).0;
  out_valid = (alloc-IsValid out_memory ring_size (omega arith) (omega arith) k).0;
  in_size = refl;
  out_size = refl;
  seq_in = omega arith;
}

-- Whatever `accept`, `connect`, packets, timers and calls come to a new connection, in any order, both
-- of its rings stay valid, of 1400 bytes, and `_localSeq` stays below 2^32; the byte counts of the calls
-- are below 2^64.
pub Reached-IsValid :
    (user : Listener) (random : ℕ) (in_memory out_memory : List ℕ) (ip : ℕ) (e : Endpoint)
    → CountedUser user
    → length in_memory ≡ ring_size
    → length out_memory ≡ ring_size
    → Reached user (create random in_memory out_memory ip) e
    → IsValid e
Reached-IsValid user random in_memory out_memory ip e c h k r =
    all_steps c (create-IsValid random in_memory out_memory ip h k) r
