-- ===== src/Trans/Table/Opened.antt =====
-- A new connection is the one to which the next packets of its client go.
use trans_proxy.Base.{
  ◌≡◌, ◌≢◌, refl, sym, ap, subst, ◌∙◌, true, not, ◌&&◌, inl, inr, none, some, Option-cases, List,
  [], ◌∷◌,
}
use trans_proxy.Map.{Item}
use trans_proxy.Map.Order.{Key, compare}
use trans_proxy.Map.Sorted.{All, All-map, Sign-cases, place, place_before, place_after, place-All}
use trans_proxy.Map.Api
use trans_proxy.Map.Api.{AvlMap}
use trans_proxy.Map.Api.Valid
use trans_proxy.Map.Api.Valid.{contents}
use trans_proxy.Map.Api.Lookup.{Finds, get-Finds}
use trans_proxy.Net.Sock.{sock_key}
use trans_proxy.Net.Pair.{SockAddrPair, pair_key}
use trans_proxy.Trans.Segment.{Packet}
use trans_proxy.Trans.Conn.{syn_sent}
use trans_proxy.Trans.Table.{
  Hosts, Table, open_connection, to_host, to_stranger, by_agent, by_pair, dispatch,
}
use trans_proxy.Trans.Table.Valid.{IsValid, Room, All-Member, open_connection-IsValid, syn_alone}

module _ {K : Type 0} ⦃k : Key K⦄ where
  -- What holds of all items holds of the one that was placed among them.
  placed_too : (P : Item K → Type 0) (x : Item K) (xs : List (Item K)) → All P (place x xs) → P x
  placed_too P x [] a = (unfold place in a.0)
  placed_too P x (y ∷ ys) a = elim (Sign-cases (compare x.key y.key)) [
    | inl e ↦ (subst (All P) (place_before x y ys e) a).0
    | inr n ↦ placed_too P x ys (subst (All P) (place_after x y ys n) a).1
  ]

  -- An item placed in a map that had none with its key is the one that `get` finds.
  pub placed_found :
      (m m' : AvlMap K) (x : Item K)
      → Valid.IsValid m
      → Valid.IsValid m'
      → Api.get m.root x.key ≡ none
      → contents m' ≡ place x (contents m)
      → (y : Item K) × (Api.get m'.root x.key ≡ some y) × (y.id ≡ x.id)
  placed_found m m' x v w e c =
      let others : All (λ y. y.key ≢ x.key) (contents m) =
        subst (Finds x.key (contents m)) e (get-Finds m.root x.key v.sorted) in
      let finds = get-Finds m'.root x.key w.sorted in
      elim (Option-cases (Api.get m'.root x.key)) [
        | inl n ↦
            let all : All (λ y. y.key ≢ x.key) (contents m') =
              subst (Finds x.key (contents m')) n finds in
            absurd (
              placed_too (λ y. y.key ≢ x.key) x (contents m)
                (subst (All (λ y. y.key ≢ x.key)) c all) refl)
        | inr (y, s) ↦
            let (member, key) = subst (Finds x.key (contents m')) s finds in
            let own : All (λ z. z.key ≡ x.key → z.id ≡ x.id) (contents m') =
              subst (All (λ z. z.key ≡ x.key → z.id ≡ x.id)) (sym c) (
                place-All (λ z. z.key ≡ x.key → z.id ≡ x.id) x (contents m) (λ q. refl)
                  (All-map (contents m) (λ z n q. absurd (n q)) others)) in
            (y, s, All-Member (λ z. z.key ≡ x.key → z.id ≡ x.id) (contents m') own member key)
      ]

-- What `dispatch` does with the first packet of a client.
pub as_new :
    (h : Hosts) (host : h.Host) (q : Packet) (t : Table)
    → let addr : SockAddrPair = record { remote = q.src; local = q.dest } in
      Api.get t.by_pair.root addr ≡ none
      → Api.get t.by_agent.root q.dest ≡ none
      → h.ddns q.dest.ip ≡ some host
      → (q.segment.flags.syn && not q.segment.flags.ack) ≡ true
      → dispatch h q t ≡ open_connection addr (h.create host q.dest.port) q.segment t
unfolding dispatch by_pair by_agent to_stranger to_host
as_new h host q t e1 e2 e3 b =
    ap (λ o. by_pair h o q t) e1
    ∙ ap (λ o. by_agent h o q t) e2
    ∙ ap (λ o. to_stranger h o q t) e3
    ∙ rw b refl

-- A SYN with no ACK, from an end and to an address that no connection has, where the address stands for
-- a host and there is room for one more connection: a connection is made and waits for the upstream
-- proxy, with the handshake that is built for that host and the port of the SYN, the tables stay valid,
-- and the packets of that client go to this connection from then on.
pub opened_lem :
    (h : Hosts) (host : h.Host) (q : Packet) (t : Table)
    → let addr : SockAddrPair = record { remote = q.src; local = q.dest } in
      IsValid t
      → Room t
      → Api.get t.by_pair.root addr ≡ none
      → Api.get t.by_agent.root q.dest ≡ none
      → h.ddns q.dest.ip ≡ some host
      → (q.segment.flags.syn && not q.segment.flags.ack) ≡ true
      → (u : Table) × (dispatch h q t ≡ some u)
        × IsValid u
        × (y : Item SockAddrPair) × (Api.get u.by_pair.root addr ≡ some y)
        × ((u.conn_at y.id).state ≡ syn_sent)
        × ((u.conn_at y.id).create ≡ h.create host q.dest.port)
opened_lem h host q t v room e1 e2 e3 b =
    let addr : SockAddrPair = record { remote = q.src; local = q.dest } in
    let syn = syn_alone q.segment.flags.syn q.segment.flags.ack b in
    let (u, made, w, c, state, create) =
      open_connection-IsValid addr (h.create host q.dest.port) q.segment t v room.0 room.1 syn in
    let (y, found, name) =
      placed_found t.by_pair u.by_pair (record { id = t.next; key = addr }) v.pair_valid
        w.pair_valid e1 c in
    (u, as_new h host q t e1 e2 e3 b ∙ made, w, y, found, rw name state, rw name create)
