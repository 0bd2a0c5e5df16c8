-- ===== src/Trans/Table/Tests.antt =====
-- The first packets at a translator with no connections.
use trans_proxy.Base.{ℕ, ◌≡◌, refl, true, none, some, [], ◌∷◌, arith}
use trans_proxy.Map.{Item, leaf}
use trans_proxy.Map.Api
use trans_proxy.Map.Api.{AvlMap}
use trans_proxy.Net.Sock.{SockAddr, sock_key}
use trans_proxy.Net.Pair.{SockAddrPair, pair_key}
use trans_proxy.Trans.Segment.{no_flags, Packet}
use trans_proxy.Trans.Auth.{sock5}
use trans_proxy.Trans.Conn.{new_conn, syn_sent}
use trans_proxy.Trans.Table.{Hosts, Table, dispatch}
use trans_proxy.Trans.Table.Valid.{IsValid, Room, dispatch-IsValid}
use trans_proxy.Trans.Table.Opened.{opened_lem}

abbrev client : SockAddr
client = record { ip = 3232235778; port = 40000 }

abbrev server : SockAddr
server = record { ip = 100; port = 443 }

abbrev syn_packet : Packet
syn_packet = record {
  src = client;
  dest = server;
  segment = record {
    flags = record no_flags { syn = true };
    seq = 1000;
    ack_seq = 0;
    window_size = 1400;
    payload = [];
  };
}

-- Every address stands for a host, and the upstream proxy speaks SOCKS5.
abbrev hosts : Hosts
hosts = record { Host = ℕ; ddns = λ ip. some ip; create = λ host port. sock5 (5 ∷ 1 ∷ 0 ∷ []) 1 [] }

abbrev table : Table
table = record {
  by_pair = record { named = true; root = leaf; size = 0 };
  by_agent = record { named = true; root = leaf; size = 0 };
  conn_at =
      λ i. new_conn (record { remote = client; local = server }) client server (sock5 [] 0 []);
  next = 0;
  agent_addr = record { ip = 167837696; port = 1024 };
  proxy = record { ip = 3232235777; port = 1080 };
  total_up_bytes = 0;
  total_down_bytes = 0;
  max_conn_count = 0;
  sent = [];
}

table-IsValid : IsValid table
table-IsValid = record {
  pair_valid = record { balanced = tt; linked = tt; sorted = tt; distinct = tt; counted = refl };
  agent_valid = record { balanced = tt; linked = tt; sorted = tt; distinct = tt; counted = refl };
  pair_names = tt;
  agent_names = tt;
  lives = λ i h. absurd (omega arith);
}

room : Room table
room = (omega arith, omega arith)

no_pair : Api.get table.by_pair.root (record { remote = client; local = server }) ≡ none
unfolding Api.get
no_pair = refl

no_agent : Api.get table.by_agent.root server ≡ none
unfolding Api.get
no_agent = refl

dispatch-IsValid_example : (u : Table) × (dispatch hosts syn_packet table ≡ some u) × IsValid u
dispatch-IsValid_example = dispatch-IsValid hosts syn_packet table table-IsValid room

opened_lem_example :
    (u : Table) × (dispatch hosts syn_packet table ≡ some u)
    × IsValid u
    × (y : Item SockAddrPair) × (Api.get u.by_pair.root (record { remote = client; local = server })
        ≡ some y)
    × ((u.conn_at y.id).state ≡ syn_sent)
    × ((u.conn_at y.id).create ≡ hosts.create 100 server.port)
opened_lem_example =
    opened_lem hosts 100 syn_packet table table-IsValid room no_pair no_agent refl refl
