-- ===== src/Trans/Table.antt =====
-- The tables of `TransTCP` of Dev/Main/src/TransProxy/TransTCP.h and TransTCP.cpp: which connection a
-- packet belongs to.
pub mod Valid
pub mod Opened
mod Tests
use trans_proxy.Base.{
  ℕ, ◌+◌, Bool, true, false, not, ◌&&◌, Option, none, some, List, [], ◌∷◌, ◌++◌, ◌==◌, max,
  if◌then◌else◌,
}
use trans_proxy.Map.{Item, ◌>>=◌}
use trans_proxy.Map.Api
use trans_proxy.Map.Api.{AvlMap}
use trans_proxy.Net.Sock.{SockAddr, sock_key}
use trans_proxy.Net.Pair.{SockAddrPair, pair_key}
use trans_proxy.Trans.Segment.{Flags, no_flags, Segment, Packet}
use trans_proxy.Trans.Auth.{Auth}
use trans_proxy.Trans.Agent.{alloc_agent_address}
use trans_proxy.Trans.Conn.{
  From, from_client, from_proxy, Conn, Run, new_conn, dispatch_packet, Left, deleted, running, fire,
}

-- What the tables use of the resolver and of the builder of handshakes: the host that a fake address
-- stands for, if it does for one, and the handshake for that host and a port.
pub record Hosts : Type 1 where
  pub Host : Type 0
  pub ddns : ℕ → Option Host
  pub create : Host → ℕ → Auth

-- The fields of `TransTCP`. A connection is named by a number; the items of both maps name it, and
-- `conn_at` is the connection of a name. `next` is the name of the connection that comes next.
pub record Table : Type 0 where
  pub by_pair : AvlMap SockAddrPair
  pub by_agent : AvlMap SockAddr
  pub conn_at : ℕ → Conn
  pub next : ℕ
  pub agent_addr : SockAddr
  pub proxy : SockAddr
  pub total_up_bytes : ℕ
  pub total_down_bytes : ℕ
  pub max_conn_count : ℕ
  pub sent : List Packet

abbrev pub put_conn : ℕ → Conn → (ℕ → Conn) → ℕ → Conn
put_conn i c conns j = if j == i then c else conns j

-- A connection at work, and the table behind its work.
abbrev pub run_of : ℕ → Table → Run
run_of i t = record {
  conn = t.conn_at i;
  total_up_bytes = t.total_up_bytes;
  total_down_bytes = t.total_down_bytes;
  sent = t.sent;
}

abbrev pub put_run : ℕ → Run → Table → Table
put_run i r t = record t {
  conn_at = put_conn i r.conn t.conn_at;
  total_up_bytes = r.total_up_bytes;
  total_down_bytes = r.total_down_bytes;
  sent = r.sent;
}

-- `conn->dispatchPacket (from, in)`
unfoldable pub pass : From → ℕ → Segment → Table → Option Table
pass f i p t = dispatch_packet f p (run_of i t) >>= λ r. some (put_run i r t)

-- `new _Connection`: the connection, under the name `next`, with its two items.
unfoldable pub new_connection : SockAddrPair → Auth → Table → Option Table
new_connection addr create t = do
  let agent = alloc_agent_address t.agent_addr
  (_, by_pair) ← Api.add t.by_pair (record { id = t.next; key = addr })
  (_, by_agent) ← Api.add t.by_agent (record { id = t.next; key = agent })
  some (record t {
    by_pair = by_pair;
    by_agent = by_agent;
    conn_at = put_conn t.next (new_conn addr agent t.proxy create) t.conn_at;
    next = t.next + 1;
    agent_addr = agent;
  })

-- The first packet of a connection.
unfoldable pub open_connection : SockAddrPair → Auth → Segment → Table → Option Table
unfolding new_connection pass
open_connection addr create p t = new_connection addr create t >>= λ u.
    pass from_client t.next p (record u { max_conn_count = max u.max_conn_count u.by_pair.size })

-- The answer to a packet of a connection that there is not.
abbrev pub reset : Packet → Table → Table
reset q t = record t {
  sent =
      t.sent
      ++ (record {
        src = q.dest;
        dest = q.src;
        segment = record (q.segment) { flags = record no_flags { rst = true } };
      }
          ∷ []);
}

-- A packet to the fake address of a host.
unfoldable pub to_host : (h : Hosts) → h.Host → Packet → Table → Option Table
unfolding open_connection
to_host h host q t =
    let addr : SockAddrPair = record { remote = q.src; local = q.dest } in
    let opened = open_connection addr (h.create host q.dest.port) q.segment t in
    if q.segment.flags.syn && not q.segment.flags.ack then opened else some (reset q t)

unfoldable pub to_stranger : (h : Hosts) → Option h.Host → Packet → Table → Option Table
unfolding to_host
to_stranger h none q t = some t
to_stranger h (some host) q t = to_host h host q t

unfoldable pub by_agent : (h : Hosts) → Option (Item SockAddr) → Packet → Table → Option Table
unfolding pass to_stranger
by_agent h (some x) q t = pass from_proxy x.id q.segment t
by_agent h none q t = to_stranger h (h.ddns q.dest.ip) q t

unfoldable pub by_pair : (h : Hosts) → Option (Item SockAddrPair) → Packet → Table → Option Table
unfolding pass by_agent
by_pair h (some x) q t = pass from_client x.id q.segment t
by_pair h none q t = by_agent h (Api.get t.by_agent.root q.dest) q t

-- `dispatchPacket`, of a TCP packet. `none` is a null pointer that is followed, or the abort of a map.
unfoldable pub dispatch : (h : Hosts) → Packet → Table → Option Table
unfolding by_pair
dispatch h q t = by_pair h (Api.get t.by_pair.root (record { remote = q.src; local = q.dest })) q t

-- `~_Connection`
unfoldable pub destroy : ℕ → Table → Option Table
destroy i t = do
  (_, by_pair) ← Api.remove t.by_pair (record { id = i; key = (t.conn_at i).addr_pair })
  (_, by_agent) ← Api.remove t.by_agent (record { id = i; key = (t.conn_at i).agent })
  some (record t { by_pair = by_pair; by_agent = by_agent })

abbrev pub leave : ℕ → Left → Table → Option Table
leave i deleted t = destroy i t
leave i (running r) t = some (put_run i r t)

-- The timer of a connection fires.
unfoldable pub fire_at : ℕ → Table → Option Table
unfolding destroy
fire_at i t = fire (run_of i t) >>= λ left. leave i left t
