-- ===== src/Resolver/Opens.antt =====
-- The resolver behind the translator: a client that connects to an address it was given by name.
use trans_proxy.Base.{
  ℕ, ◌^◌, ◌<◌, ◌≡◌, sym, ap, subst, ◌∙◌, true, false, not, ◌&&◌, none, some, length,
}
use trans_proxy.Map.{Item}
use trans_proxy.Map.Api
use trans_proxy.Text.{Text}
use trans_proxy.Net.Sock.{sock_key}
use trans_proxy.Net.Pair.{SockAddrPair, pair_key}
use trans_proxy.Trans.Auth.{Auth}
use trans_proxy.Trans.Segment.{Packet}
use trans_proxy.Trans.Conn.{syn_sent}
use trans_proxy.Trans.Table.{Hosts, Table, dispatch}
use trans_proxy.Trans.Table.Valid
use trans_proxy.Trans.Table.Valid.{Room}
use trans_proxy.Trans.Table.Opened.{opened_lem}
use trans_proxy.Resolver.{Resolver, any_denies, any_accepts, dns, named_or_dotted, ddns}
use trans_proxy.Resolver.Valid.{IsValid}
use trans_proxy.Resolver.Names.{Given, dns-Given}

-- What the translator asks of the resolver, and of the builder of handshakes.
unfoldable pub hosts_of : (Text → ℕ → Auth) → Resolver → Hosts
unfolding ddns
hosts_of build r = record { Host = Text; ddns = λ ip. ddns ip r; create = build }

both_same : {A : Type 0} {p q : ℕ × A} → some p ≡ some q → (p.0 ≡ q.0) × (p.1 ≡ q.1)
both_same {p} {q} e = let same : p ≡ q = cc in (ap (λ x. x.0) same, ap (λ x. x.1) same)

dns_then_ddns :
    (base client : ℕ) (name : Text) (r after : Resolver) (ip : ℕ)
    → Given base client name r
    → dns client name r ≡ some (ip, after)
    → ddns ip after ≡ some name
unfolding ddns named_or_dotted
dns_then_ddns base client name r after ip g e =
    let (same, then) = both_same (sym g.result ∙ e) in
    subst (λ x. ddns ip x ≡ some name) then
      (subst (λ x. ddns x g.after ≡ some name) same
        (ap (λ o. named_or_dotted o g.ip) g.found ∙ ap some g.named))

-- Where a resolver with valid tables and addresses left has given a client an address for a name that
-- no rules deny and some accept, a SYN with no ACK to that address, from an end and to an address that
-- no connection has, comes to valid tables with room for one more connection: a connection is opened,
-- to which the packets of that client go from then on, and the handshake that it has is the one that is
-- built for that very name and the port of the SYN.
pub dispatch-dns :
    (base client : ℕ) (name : Text) (r after : Resolver) (build : Text → ℕ → Auth) (q : Packet)
    (t : Table)
    → let addr : SockAddrPair = record { remote = q.src; local = q.dest } in
      IsValid base r.table
      → length r.table.hosts < 2 ^ 32
      → any_denies r.rules client name ≡ false
      → any_accepts r.rules client name ≡ true
      → dns client name r ≡ some (q.dest.ip, after)
      → Valid.IsValid t
      → Room t
      → Api.get t.by_pair.root addr ≡ none
      → Api.get t.by_agent.root q.dest ≡ none
      → (q.segment.flags.syn && not q.segment.flags.ack) ≡ true
      → (u : Table) × (dispatch (hosts_of build after) q t ≡ some u)
        × (y : Item SockAddrPair) × (Api.get u.by_pair.root addr ≡ some y)
        × ((u.conn_at y.id).state ≡ syn_sent)
        × ((u.conn_at y.id).create ≡ build name q.dest.port)
unfolding hosts_of
dispatch-dns base client name r after build q t v room d a given tables more e1 e2 syn =
    let known =
      dns_then_ddns base client name r after q.dest.ip (dns-Given base client name r v room d a)
        given in
    let (u, made, _, y, found, state, create) =
      opened_lem (hosts_of build after) name q t tables more e1 e2 known syn in
    (u, made, y, found, state, create)
