-- ===== src/Tcp/Server/Accepted.antt =====
-- A server takes a connection.
use trans_proxy.Base.{
  ℕ, ◌+◌, ◌<◌, ◌≡◌, refl, ap, ◌∙◌, true, none, some, List, ==_self, size_mod, if◌then◌else◌, arith,
}
use trans_proxy.Map.{Item, ◌>>=◌}
use trans_proxy.Map.Sorted.{All, All-map}
use trans_proxy.Map.Api
use trans_proxy.Map.Api.{AvlMap}
use trans_proxy.Map.Api.Valid
use trans_proxy.Map.Api.Valid.{contents, add_lem}
use trans_proxy.Net.Sock.{SockAddr, sock_key}
use trans_proxy.Net.Pair.{SockAddrPair, pair_key}
use trans_proxy.Trans.Segment.{Packet, add_word}
use trans_proxy.Trans.Table.Opened.{placed_found}
use trans_proxy.Tcp.State.{listen, syn_recv, Endpoint, create}
use trans_proxy.Tcp.Receive.{dispatch_packet, dispatch_in, on_listen}
use trans_proxy.Tcp.Call.{Listener}
use trans_proxy.Tcp.Open.{Connections, accept}
use trans_proxy.Tcp.Server.{
  Tcp, Server, Chance, put, begin, serve, to_server, to_connection, dispatch,
}

-- A listening connection and a SYN.
answered :
    (stack : List ℕ) (user : Listener) (q : Packet) (e : Endpoint)
    → e.state ≡ listen
    → q.segment.flags.syn ≡ true
    → (r : Endpoint) × (dispatch_packet stack user q e ≡ some r)
      × (r.state ≡ syn_recv)
      × (r.timer1 ≡ some 0)
      × (r.remote_seq ≡ add_word q.segment.seq 1)
unfolding dispatch_packet dispatch_in on_listen
answered stack user q e h syn =
    let e' = record e { remote_window_size = q.segment.window_size } in
    let r : Endpoint = record e' {
      addrs = record (e.addrs) { remote = q.src };
      remote_seq = add_word q.segment.seq 1;
      state = syn_recv;
      retry_count = 0;
      timer1 = some 0;
    } in
    (
      r,
      ap (λ s. dispatch_in s stack user q e') h ∙ ap (λ b. if b then some r else none) syn,
      refl,
      refl,
      refl,
    )

new_listens :
    (self : ℕ) (addrs : SockAddrPair) (c : Chance) (conns m : Connections)
    → Api.add conns (record { id = self; key = addrs }) ≡ some (true, m)
    → (e : Endpoint) × (accept self addrs (create c.random c.in_memory c.out_memory 0) conns
        ≡ some (e, m))
      × (e.state ≡ listen)
unfolding accept create
new_listens self addrs c conns m h =
    let e = record (create c.random c.in_memory c.out_memory 0) { addrs = addrs; state = listen } in
    (e, ap (λ o. o >>= λ (_, conns'). some (e, conns')) h, refl)

served :
    (c : Chance) (s : Server) (q : Packet) (t : Tcp) (e r : Endpoint) (m : Connections)
    → q.segment.flags.syn ≡ true
    → accept t.next
        (record { remote = q.src; local = s.addr })
        (create c.random c.in_memory c.out_memory 0)
        t.connections
      ≡ some (e, m)
    → dispatch_packet c.stack s.listener q e ≡ some r
    → serve c s q t
      ≡ some (record t {
        connections = m;
        endpoint_at = put t.next r t.endpoint_at;
        next = t.next + 1;
      })
unfolding serve begin
served c s q t e r m syn h k =
    let fresh = create c.random c.in_memory c.out_memory 0 in
    let opened =
      (accept t.next (record { remote = q.src; local = s.addr }) fresh t.connections
        >>= begin c s.listener q t) in
    ap (λ b. if b then opened else some t) syn
    ∙ ap (λ o. o >>= begin c s.listener q t) h
    ∙ ap
        (λ o. o >>= λ r. some (record t {
          connections = m;
          endpoint_at = put t.next r t.endpoint_at;
          next = t.next + 1;
        }))
        k

routed :
    (c : Chance) (users : ℕ → Listener) (q : Packet) (t : Tcp) (x : Item SockAddr)
    → Api.get t.connections.root (record { remote = q.src; local = q.dest }) ≡ none
    → Api.get t.servers.root q.dest ≡ some x
    → dispatch c users q t ≡ serve c (t.server_at x.id) q t
unfolding dispatch to_connection to_server
routed c users q t x e1 e2 =
    ap (λ o. to_connection c users o q t) e1 ∙ ap (λ o. to_server c o q t) e2

put_self : (i : ℕ) (e : Endpoint) (f : ℕ → Endpoint) → put i e f i ≡ e
put_self i e f = rw (==_self i) refl

-- A SYN to the address of a server, from an end that no connection has, where the map of the
-- connections is valid and has room: a connection is made that waits in SYN_RECV, with its timer armed
-- at once and the number behind that of the SYN expected, and the packets of that end go to it from
-- then on.
pub accepted_lem :
    (c : Chance) (users : ℕ → Listener) (q : Packet) (t : Tcp) (x : Item SockAddr)
    → let addrs : SockAddrPair = record { remote = q.src; local = q.dest } in
      Valid.IsValid t.connections
      → All (λ y. y.id < t.next) (contents t.connections)
      → t.connections.size + 1 < size_mod
      → Api.get t.connections.root addrs ≡ none
      → Api.get t.servers.root q.dest ≡ some x
      → (t.server_at x.id).addr ≡ q.dest
      → q.segment.flags.syn ≡ true
      → (u : Tcp) × (dispatch c users q t ≡ some u)
        × (y : Item SockAddrPair) × (Api.get u.connections.root addrs ≡ some y)
        × ((u.endpoint_at y.id).state ≡ syn_recv)
        × ((u.endpoint_at y.id).timer1 ≡ some 0)
        × ((u.endpoint_at y.id).remote_seq ≡ add_word q.segment.seq 1)
accepted_lem c users q t x v names room e1 e2 own syn =
    let addrs : SockAddrPair = record { remote = q.src; local = q.dest } in
    let s = t.server_at x.id in
    let item : Item SockAddrPair = record { id = t.next; key = addrs } in
    let (m, added, w, placed, _) =
      add_lem t.connections item v (All-map (contents t.connections) (λ y h. omega arith) names)
        room in
    let (e, listens, waits) = new_listens t.next addrs c t.connections m added in
    let (r, dispatched, state, timer, number) = answered c.stack s.listener q e waits syn in
    let same : accept t.next (record { remote = q.src; local = s.addr })
          (create c.random c.in_memory c.out_memory 0) t.connections
        ≡ some (e, m) =
      ap
        (λ (a : SockAddr).
          accept t.next (record { remote = q.src; local = a })
            (create c.random c.in_memory c.out_memory 0) t.connections)
        own
      ∙ listens in
    let (y, found, name) = placed_found t.connections m item v w e1 placed in
    let here : put t.next r t.endpoint_at y.id ≡ r =
      ap (put t.next r t.endpoint_at) name ∙ put_self t.next r t.endpoint_at in
    (
      record t { connections = m; endpoint_at = put t.next r t.endpoint_at; next = t.next + 1 },
      routed c users q t x e1 e2 ∙ served c s q t e r m syn same dispatched,
      y,
      found,
      ap (λ (z : Endpoint). z.state) here ∙ state,
      ap (λ (z : Endpoint). z.timer1) here ∙ timer,
      ap (λ (z : Endpoint). z.remote_seq) here ∙ number,
    )
