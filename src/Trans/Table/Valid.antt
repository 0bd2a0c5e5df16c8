-- ===== src/Trans/Table/Valid.antt =====
-- No packet makes the tables of the translator abort.
use trans_proxy.Base.{
  ℕ, ◌+◌, ◌<◌, ◌≡◌, refl, sym, ap, subst, ◌∙◌, Bool, true, false, not, ◌&&◌, inl, inr, Option, none,
  some, List, [], ◌∷◌, ==_iff, ==_self, ==_false, size_mod, max, if_elim, arith,
}
use native.Mathlib.Decide.{ℕ_discrete}
use trans_proxy.Map.{Item, ◌>>=◌}
use trans_proxy.Map.Order.{Key}
use trans_proxy.Map.Sorted.{All, All-map, place, place-All}
use trans_proxy.Map.Identity.{Fresh}
use trans_proxy.Map.Api
use trans_proxy.Map.Api.{AvlMap}
use trans_proxy.Map.Api.Valid
use trans_proxy.Map.Api.Valid.{contents, add_lem}
use trans_proxy.Map.Api.Lookup.{Member, Finds, get-Finds}
use trans_proxy.Net.Sock.{SockAddr, sock_key}
use trans_proxy.Net.Pair.{SockAddrPair, pair_key}
use trans_proxy.Trans.Segment.{Segment, Packet}
use trans_proxy.Trans.Auth.{Auth}
use trans_proxy.Trans.Agent.{alloc_agent_address}
use trans_proxy.Trans.Conn.{
  From, from_client, from_proxy, Conn, Run, new_conn, transfer_syn1, syn_sent,
}
use trans_proxy.Trans.Conn.Lifetime.{IsLive, dispatch_packet-IsLive}
use trans_proxy.Trans.Conn.First.{
  new_conn-closed, new_conn-create, transfer_syn1-create, syn-IsLive,
}
use trans_proxy.Trans.Table.{
  Hosts, Table, put_conn, run_of, put_run, pass, new_connection, open_connection, reset, to_host,
  to_stranger, by_agent, by_pair, dispatch,
}

-- The names in both maps are those of connections that there were, and each of these is live.
pub record IsValid (t : Table) : Type 0 where
  pub pair_valid : Valid.IsValid t.by_pair
  pub agent_valid : Valid.IsValid t.by_agent
  pub pair_names : All (λ y. y.id < t.next) (contents t.by_pair)
  pub agent_names : All (λ y. y.id < t.next) (contents t.by_agent)
  pub lives : (i : ℕ) → i < t.next → IsLive (run_of i t)

pub All-Member : {A : Type 0} (P : A → Type 0) {x : A} (xs : List A) → All P xs → Member x xs → P x
All-Member P [] a m = absurd m
All-Member P (y ∷ ys) a (inl e) = subst P (sym e) a.0
All-Member P (y ∷ ys) a (inr m) = All-Member P ys a.1 m

-- An item that `get` finds.
found_name :
    {K : Type 0} ⦃k : Key K⦄ (n : ℕ) (m : AvlMap K) (key : K) (x : Item K)
    → Valid.IsValid m
    → All (λ y. y.id < n) (contents m)
    → Api.get m.root key ≡ some x
    → x.id < n
found_name n m key x v names e =
    All-Member (λ y. y.id < n) (contents m) names
      (subst (Finds key (contents m)) e (get-Finds m.root key v.sorted)).0

put_conn_self : (i : ℕ) (c : Conn) (conns : ℕ → Conn) → put_conn i c conns i ≡ c
put_conn_self i c conns = rw (==_self i) refl

-- The work of one connection leaves the others as they are.
IsLive-same : (r q : Run) → r.conn ≡ q.conn → IsLive q → IsLive r
IsLive-same r q e v = record { waits = rw e v.waits; shakes = rw e v.shakes }

put_run-lives :
    (i j : ℕ) (r : Run) (t : Table)
    → IsLive r
    → IsLive (run_of j t)
    → IsLive (run_of j (put_run i r t))
put_run-lives i j r t v w = elim (ℕ_discrete j i) [
  | yes e ↦ IsLive-same (run_of j (put_run i r t)) r (rw ((==_iff j i).1 e) refl) v
  | no d ↦ IsLive-same (run_of j (put_run i r t)) (run_of j t) (rw (==_false j i d) refl) w
]

pass-IsValid :
    (f : From) (i : ℕ) (p : Segment) (t : Table)
    → IsValid t
    → i < t.next
    → (u : Table) × (pass f i p t ≡ some u) × IsValid u
unfolding pass
pass-IsValid f i p t v h =
    let (r, e, live) = dispatch_packet-IsLive f p (run_of i t) (v.lives i h) in
    (
      put_run i r t,
      rw e refl,
      record {
        pair_valid = v.pair_valid;
        agent_valid = v.agent_valid;
        pair_names = v.pair_names;
        agent_names = v.agent_names;
        lives = λ j k. put_run-lives i j r t live (v.lives j k);
      },
    )

-- The name of the next connection is on no item.
unused_name :
    {K : Type 0} (n : ℕ) (key : K) (xs : List (Item K))
    → All (λ y. y.id < n) xs
    → Fresh (record { id = n; key = key }) xs
unused_name n key xs names = All-map xs (λ y h. omega arith) names

grow :
    {K : Type 0} (n : ℕ) (xs : List (Item K)) → All (λ y. y.id < n) xs → All (λ y. y.id < n + 1) xs
grow n xs names = All-map xs (λ y h. omega arith) names

-- The table behind `new _Connection`.
abbrev grown : SockAddrPair → Auth → AvlMap SockAddrPair → AvlMap SockAddr → Table → Table
grown addr create m1 m2 t =
    let agent = alloc_agent_address t.agent_addr in
    record t {
      by_pair = m1;
      by_agent = m2;
      conn_at = put_conn t.next (new_conn addr agent t.proxy create) t.conn_at;
      next = t.next + 1;
      agent_addr = agent;
    }

-- The items of a new connection are in both maps.
record Grown (addr : SockAddrPair) (create : Auth) (t : Table) : Type 0 where
  m1 : AvlMap SockAddrPair
  m2 : AvlMap SockAddr
  made : new_connection addr create t ≡ some (grown addr create m1 m2 t)
  valid1 : Valid.IsValid m1
  valid2 : Valid.IsValid m2
  names1 : All (λ y. y.id < t.next + 1) (contents m1)
  names2 : All (λ y. y.id < t.next + 1) (contents m2)
  placed1 : contents m1 ≡ place (record { id = t.next; key = addr }) (contents t.by_pair)

new_connection-Grown :
    (addr : SockAddrPair) (create : Auth) (t : Table)
    → IsValid t
    → t.by_pair.size + 1 < size_mod
    → t.by_agent.size + 1 < size_mod
    → Grown addr create t
unfolding new_connection
new_connection-Grown addr create t v room1 room2 =
    let agent = alloc_agent_address t.agent_addr in
    let x : Item SockAddrPair = record { id = t.next; key = addr } in
    let y : Item SockAddr = record { id = t.next; key = agent } in
    let (m1, e1, v1, c1, _) =
      add_lem t.by_pair x v.pair_valid (unused_name t.next addr (contents t.by_pair) v.pair_names)
        room1 in
    let (m2, e2, v2, c2, _) =
      add_lem t.by_agent y v.agent_valid
        (unused_name t.next agent (contents t.by_agent) v.agent_names) room2 in
    record {
      m1 = m1;
      m2 = m2;
      made = rw (e1, e2) refl;
      valid1 = v1;
      valid2 = v2;
      names1 = rw c1 (
          place-All (λ z. z.id < t.next + 1) x (contents t.by_pair) (omega arith)
            (grow t.next (contents t.by_pair) v.pair_names));
      names2 = rw c2 (
          place-All (λ z. z.id < t.next + 1) y (contents t.by_agent) (omega arith)
            (grow t.next (contents t.by_agent) v.agent_names));
      placed1 = c1;
    }

pub open_connection-IsValid :
    (addr : SockAddrPair) (create : Auth) (p : Segment) (t : Table)
    → IsValid t
    → t.by_pair.size + 1 < size_mod
    → t.by_agent.size + 1 < size_mod
    → p.flags.syn ≡ true
    → (u : Table) × (open_connection addr create p t ≡ some u)
      × IsValid u
      × (contents u.by_pair ≡ place (record { id = t.next; key = addr }) (contents t.by_pair))
      × ((u.conn_at t.next).state ≡ syn_sent)
      × ((u.conn_at t.next).create ≡ create)
unfolding open_connection pass
open_connection-IsValid addr create p t v room1 room2 syn =
    let g = new_connection-Grown addr create t v room1 room2 in
    let u0 = grown addr create g.m1 g.m2 t in
    let u = record u0 { max_conn_count = max u0.max_conn_count u0.by_pair.size } in
    let r = run_of t.next u in
    let r' = transfer_syn1 from_client p r in
    let own : (new_conn addr (alloc_agent_address t.agent_addr) t.proxy create) ≡ r.conn =
      rw (==_self t.next) refl in
    let begins =
      ap (λ (c : Conn). c.state) (sym own)
      ∙ new_conn-closed addr (alloc_agent_address t.agent_addr) t.proxy create in
    let (e, live, state) = syn-IsLive p r begins syn in
    (
      put_run t.next r' u,
      ap
            (λ o. o >>= λ w.
              pass from_client t.next p
                (record w { max_conn_count = max w.max_conn_count w.by_pair.size }))
            g.made
          ∙ ap (λ o. o >>= λ q. some (put_run t.next q u)) e,
      record {
        pair_valid = g.valid1;
        agent_valid = g.valid2;
        pair_names = g.names1;
        agent_names = g.names2;
        lives = λ j k. elim (ℕ_discrete j t.next) [
          | yes s ↦
              IsLive-same (run_of j (put_run t.next r' u)) r' (rw ((==_iff j t.next).1 s) refl) live
          | no d ↦
              IsLive-same (run_of j (put_run t.next r' u)) (run_of j t)
                (rw (==_false j t.next d) refl) (v.lives j (omega arith))
        ];
      },
      g.placed1,
      ap (λ (c : Conn). c.state) (put_conn_self t.next r'.conn u.conn_at) ∙ state,
      ap (λ (c : Conn). c.create) (put_conn_self t.next r'.conn u.conn_at)
          ∙ transfer_syn1-create p r
          ∙ ap (λ (c : Conn). c.create) (sym own)
          ∙ new_conn-create addr (alloc_agent_address t.agent_addr) t.proxy create,
    )

-- There is room for one more connection.
abbrev pub Room : Table → Type 0
Room t = (t.by_pair.size + 1 < size_mod) × (t.by_agent.size + 1 < size_mod)

reset-IsValid : (q : Packet) (t : Table) → IsValid t → IsValid (reset q t)
reset-IsValid q t v = record {
  pair_valid = v.pair_valid;
  agent_valid = v.agent_valid;
  pair_names = v.pair_names;
  agent_names = v.agent_names;
  lives = λ i h. IsLive-same (run_of i (reset q t)) (run_of i t) refl (v.lives i h);
}

-- A step that succeeds and keeps the tables valid.
abbrev pub Works : Option Table → Type 0
Works o = (u : Table) × (o ≡ some u) × IsValid u

pub syn_alone : (a b : Bool) → a && not b ≡ true → a ≡ true
syn_alone true b h = refl
syn_alone false b h = h

to_host-Works :
    (h : Hosts) (host : h.Host) (q : Packet) (t : Table)
    → IsValid t
    → Room t
    → Works (to_host h host q t)
unfolding to_host
to_host-Works h host q t v room =
    let addr : SockAddrPair = record { remote = q.src; local = q.dest } in
    let f = q.segment.flags in
    if_elim Works (f.syn && not f.ack)
      (open_connection addr (h.create host q.dest.port) q.segment t) (some (reset q t))
      (λ b.
        let (u, e, w, _, _, _) =
          open_connection-IsValid addr (h.create host q.dest.port) q.segment t v room.0 room.1
            (syn_alone f.syn f.ack b) in
        (u, e, w))
      (λ b. (reset q t, refl, reset-IsValid q t v))

to_stranger-Works :
    (h : Hosts) (o : Option h.Host) (q : Packet) (t : Table)
    → IsValid t
    → Room t
    → Works (to_stranger h o q t)
unfolding to_stranger
to_stranger-Works h none q t v room = (t, refl, v)
to_stranger-Works h (some host) q t v room = to_host-Works h host q t v room

by_agent-Works :
    (h : Hosts) (o : Option (Item SockAddr)) (q : Packet) (t : Table)
    → Api.get t.by_agent.root q.dest ≡ o
    → IsValid t
    → Room t
    → Works (by_agent h o q t)
unfolding by_agent
by_agent-Works h none q t e v room = to_stranger-Works h (h.ddns q.dest.ip) q t v room
by_agent-Works h (some x) q t e v room =
    pass-IsValid from_proxy x.id q.segment t v
      (found_name t.next t.by_agent q.dest x v.agent_valid v.agent_names e)

by_pair-Works :
    (h : Hosts) (o : Option (Item SockAddrPair)) (q : Packet) (t : Table)
    → Api.get t.by_pair.root (record { remote = q.src; local = q.dest }) ≡ o
    → IsValid t
    → Room t
    → Works (by_pair h o q t)
unfolding by_pair
by_pair-Works h none q t e v room =
    by_agent-Works h (Api.get t.by_agent.root q.dest) q t refl v room
by_pair-Works h (some x) q t e v room =
    let addr : SockAddrPair = record { remote = q.src; local = q.dest } in
    pass-IsValid from_client x.id q.segment t v
      (found_name t.next t.by_pair addr x v.pair_valid v.pair_names e)

-- Whatever packet comes, valid tables with room for one more connection follow no null pointer, abort
-- in no map and stay valid: both maps are valid, their items name connections that there were, and
-- each of these has its timer armed and its handshake at hand where it is used.
pub dispatch-IsValid :
    (h : Hosts) (q : Packet) (t : Table)
    → IsValid t
    → Room t
    → (u : Table) × (dispatch h q t ≡ some u) × IsValid u
unfolding dispatch
dispatch-IsValid h q t v room =
    by_pair-Works h (Api.get t.by_pair.root (record { remote = q.src; local = q.dest })) q t refl v
      room
