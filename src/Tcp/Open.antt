-- ===== src/Tcp/Open.antt =====
-- How a connection begins and ends: `accept`, `connect` and the destructor, with the map of all
-- connections.
use trans_proxy.Base.{
  ℕ, zero, suc, ◌+◌, ◌%◌, ltb, Bool, true, false, Option, none, some, if◌then◌else◌,
}
use trans_proxy.Net.Sock.{SockAddr}
use trans_proxy.Net.Pair.{SockAddrPair, pair_key}
use trans_proxy.Map.{◌>>=◌}
use trans_proxy.Map.Api
use trans_proxy.Map.Api.{AvlMap}
use trans_proxy.Trans.Segment.{half_mod}
use trans_proxy.Tcp.State.{State, closed, listen, syn_sent, Endpoint}

-- `TcpConnections`. The identity of an item is that of the connection.
abbrev pub Connections : Type 0
Connections = AvlMap SockAddrPair

abbrev pub is_closed : State → Bool
is_closed closed = true
is_closed _ = false

-- `accept`. `none` is the exception, or the abort of the map.
unfoldable pub accept : ℕ → SockAddrPair → Endpoint → Connections → Option (Endpoint × Connections)
accept self addrs e conns =
    let opened =
      (Api.add conns (record { id = self; key = addrs }) >>= λ (_, conns').
      some (record e { addrs = addrs; state = listen }, conns')) in
    if is_closed e.state then opened else none

-- What the loop of `connect` over the ports has come to: a port that is not taken, its own end and the
-- exception behind it, or, where the rounds are up, the next test, at a port.
pub data Search : Type 0 where
  found_at : ℕ → Search
  ended : Search
  goes_on : ℕ → Search

-- `for (uint16_t port = …; port < 65536; ++port)`, on fuel: `++` wraps at 16 bits.
unfoldable pub free_port : ℕ → (ℕ → Bool) → ℕ → Search
free_port zero taken port = goes_on port
free_port (suc n) taken port =
    let rest = free_port n taken ((port + 1) % half_mod) in
    if ltb port 65536 then (if taken port then rest else found_at port) else ended

abbrev pub port_of : Search → Option ℕ
port_of (found_at port) = some port
port_of ended = none
port_of (goes_on port) = none

-- `_conns->get (addrs) != NULL`
unfoldable pub is_taken : Connections → ℕ → SockAddr → ℕ → Bool
is_taken conns ip addr port =
    elim (Api.get conns.root (record { remote = record { ip = ip; port = port }; local = addr })) [
      | none ↦ false
      | some _ ↦ true
    ]

-- `connect`, with the number of rounds that the loop may take. `none` is an exception, the abort of the
-- map, or that the loop goes on.
unfoldable pub connect : ℕ → ℕ → SockAddr → Endpoint → Connections → Option (Endpoint × Connections)
unfolding free_port is_taken
connect rounds self addr e conns =
    let ip = e.addrs.remote.ip in
    let opened = (do
      port ← port_of (free_port rounds (is_taken conns ip addr) 1024)
      let addrs : SockAddrPair = record { remote = record { ip = ip; port = port }; local = addr }
      (_, conns') ← Api.add conns (record { id = self; key = addrs })
      some (
        record e { addrs = addrs; state = syn_sent; retry_count = 0; timer1 = some 0 },
        conns',
      )) in
    if is_closed e.state then opened else none

-- The destructor takes the connection out of the map. `none` is the abort of the map.
unfoldable pub destroy : ℕ → Endpoint → Connections → Option Connections
destroy self e conns =
    Api.remove conns (record { id = self; key = e.addrs }) >>= λ (_, conns'). some conns'
