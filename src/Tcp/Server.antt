-- ===== src/Tcp/Server.antt =====
-- `TCP` of Dev/Main/src/TransProxy/TCP.h and TCP.cpp: the servers, and which connection a packet belongs
-- to.
pub mod Accepted
mod Tests
use trans_proxy.Base.{
  ℕ, ◌+◌, ◌-◌, Bool, true, false, Option, none, some, List, [], ◌∷◌, ◌++◌, ◌==◌, if◌then◌else◌,
}
use trans_proxy.Map.Order.{Key}
use trans_proxy.Map.{Item, ◌>>=◌}
use trans_proxy.Map.Api
use trans_proxy.Map.Api.{AvlMap}
use trans_proxy.Net.Compare.{numbers-Agree, Agree-key}
use trans_proxy.Net.Sock.{SockAddr, sock_key}
use trans_proxy.Net.Pair.{SockAddrPair, pair_key}
use trans_proxy.Trans.Segment.{no_flags, Segment, Packet}
use trans_proxy.Tcp.State.{Endpoint, create}
use trans_proxy.Tcp.Call.{Listener}
use trans_proxy.Tcp.Receive.{dispatch_packet}
use trans_proxy.Tcp.Open.{Connections, accept}

instance unfoldable pub number_key : Key ℕ
number_key = Agree-key numbers-Agree

-- `_Server`
pub record Server : Type 0 where
  pub addr : SockAddr
  pub listener : Listener

-- The fields of `TCP`. Servers, the IPs of servers and connections are named by numbers; the items of
-- the maps name them, and `next` is the name that comes next. `sent` are the packets that `TCP` itself
-- sent.
pub record Tcp : Type 0 where
  pub server_ips : AvlMap ℕ
  pub counts : ℕ → ℕ
  pub servers : AvlMap SockAddr
  pub server_at : ℕ → Server
  pub connections : Connections
  pub endpoint_at : ℕ → Endpoint
  pub next : ℕ
  pub sent : List Packet

abbrev pub put : {A : Type 0} → ℕ → A → (ℕ → A) → ℕ → A
put i a f j = if j == i then a else f j

-- The IP of a new server is counted. `none` is the abort of the map.
unfoldable pub count_ip : Option (Item ℕ) → ℕ → Tcp → Option Tcp
count_ip (some x) ip t = some (record t { counts = put x.id (t.counts x.id + 1) t.counts })
count_ip none ip t = Api.add t.server_ips (record { id = t.next; key = ip }) >>= λ (_, ips).
    some (record t { server_ips = ips; counts = put t.next 1 t.counts })

-- `listen`: a new server, under the name `next`.
unfoldable pub listen : SockAddr → Listener → Tcp → Option Tcp
unfolding count_ip
listen addr listener t = do
  (_, servers) ← Api.add t.servers (record { id = t.next; key = addr })
  u ← count_ip (Api.get t.server_ips.root addr.ip) addr.ip (record t {
    servers = servers;
    server_at = put t.next (record { addr = addr; listener = listener }) t.server_at;
  })
  some (record u { next = u.next + 1 })

-- The IP of a server that goes. `none` is the exception of ASSERT, or the abort of the map.
unfoldable pub discount_ip : Option (Item ℕ) → Tcp → Option Tcp
discount_ip none t = none
discount_ip (some x) t =
    let left = t.counts x.id - 1 in
    let u = record t { counts = put x.id left t.counts } in
    let removed =
      (Api.remove t.server_ips x >>= λ (_, ips). some (record u { server_ips = ips })) in
    if left == 0 then removed else some u

-- `~_Server`
unfoldable pub unlisten : ℕ → Tcp → Option Tcp
unfolding discount_ip
unlisten i t =
    let addr = (t.server_at i).addr in
    Api.remove t.servers (record { id = i; key = addr }) >>= λ (_, servers).
    discount_ip (Api.get t.server_ips.root addr.ip) (record t { servers = servers })

-- What a new connection finds: the number that `::random` gives, the memory of its rings, and that of
-- the buffer of `_send`.
pub record Chance : Type 0 where
  pub random : ℕ
  pub in_memory : List ℕ
  pub out_memory : List ℕ
  pub stack : List ℕ

-- What a connection that listens does with its first packet, under the name `next`.
unfoldable pub begin : Chance → Listener → Packet → Tcp → Endpoint × Connections → Option Tcp
begin c user q t (e, connections) = dispatch_packet c.stack user q e >>= λ r. some (record t {
  connections = connections;
  endpoint_at = put t.next r t.endpoint_at;
  next = t.next + 1;
})

-- `_Server::dispatchPacket`
unfoldable pub serve : Chance → Server → Packet → Tcp → Option Tcp
unfolding begin
serve c s q t =
    let fresh = create c.random c.in_memory c.out_memory 0 in
    let opened =
      (accept t.next (record { remote = q.src; local = s.addr }) fresh t.connections
        >>= begin c s.listener q t) in
    if q.segment.flags.syn then opened else some t

-- A packet to no server: where its IP is that of one, it is reset.
unfoldable pub refuse : Option (Item ℕ) → Packet → Tcp → Tcp
refuse none q t = t
refuse (some x) q t = record t {
  sent =
      t.sent
      ++ (record {
        src = q.dest;
        dest = q.src;
        segment = record (q.segment) { flags = record no_flags { rst = true } };
      }
          ∷ []);
}

unfoldable pub to_server : Chance → Option (Item SockAddr) → Packet → Tcp → Option Tcp
unfolding serve refuse
to_server c (some x) q t = serve c (t.server_at x.id) q t
to_server c none q t = some (refuse (Api.get t.server_ips.root q.dest.ip) q t)

unfoldable pub to_connection :
    Chance → (ℕ → Listener) → Option (Item SockAddrPair) → Packet → Tcp → Option Tcp
unfolding dispatch_packet to_server
to_connection c users (some x) q t =
    dispatch_packet c.stack (users x.id) q (t.endpoint_at x.id) >>= λ r.
    some (record t { endpoint_at = put x.id r t.endpoint_at })
to_connection c users none q t = to_server c (Api.get t.servers.root q.dest) q t

-- `dispatchPacket`, of a TCP packet. `users` are the users of the connections.
unfoldable pub dispatch : Chance → (ℕ → Listener) → Packet → Tcp → Option Tcp
unfolding to_connection
dispatch c users q t =
    to_connection c users (Api.get t.connections.root (record { remote = q.src; local = q.dest })) q
      t
