-- ===== src/Resolver/Tests.antt =====
-- A resolver with one set of rules, and the file that it leaves.
use trans_proxy.Base.{ℕ, ◌+◌, ◌^◌, ◌<◌, ◌≡◌, refl, true, false, Option, none, some, [], ◌∷◌, arith}
use trans_proxy.Map.{Item, leaf, node, adjust, ◌>>=◌}
use trans_proxy.Map.Api
use trans_proxy.Text.{Text, codes, eq, gt}
use trans_proxy.Text.Order.{text_key}
use trans_proxy.Net.Pair.{SockAddrPair, pair_key}
use trans_proxy.Net.Compare.{Agree-key}
use trans_proxy.Tcp.Server.{number_key}
use trans_proxy.Trans.Segment.{no_flags, Packet}
use trans_proxy.Trans.Auth.{Auth, sock5}
use trans_proxy.Trans.Conn.{new_conn, syn_sent}
use trans_proxy.Trans.Table.{Table, dispatch}
use trans_proxy.Trans.Table.Valid
use trans_proxy.Resolver.{
  ResolvItem, Resolver, Rules, fresh, add_item, create, add_rules, any_denies, any_accepts, host_at,
  dns, ddns,
}
use trans_proxy.Resolver.Valid.{IsValid}
use trans_proxy.Resolver.Found.{fresh-IsValid}
use trans_proxy.Resolver.Names.{ddns-dns}
use trans_proxy.Resolver.Saved.{entries, file_of, Keeps}
use trans_proxy.Resolver.Reload.{IsHost, add_items}
use trans_proxy.Resolver.Restart.{Saved, create-file, dns-Saved}
use trans_proxy.Resolver.Opens.{hosts_of, dispatch-dns}

abbrev all_hosts : Rules
all_hosts = record { accept_proxy = λ client name. true; deny_proxy = λ client name. false }

abbrev two_hosts : Option (ℕ × ℕ × Resolver)
two_hosts = do
  r ← create 100 none
  (a, r1) ← dns 7 (codes "a.com") (add_rules all_hosts r)
  (b, r2) ← dns 7 (codes "b.com") r1
  some (a, b, r2)

addresses : (two_hosts >>= λ (a, b, r). some (a + b)) ≡ some 201
unfolding create add_rules dns text_key number_key Agree-key eq gt adjust
addresses = refl

name_back : (two_hosts >>= λ (a, b, r). ddns b r) ≡ some (codes "b.com")
unfolding create add_rules dns ddns text_key number_key Agree-key eq gt adjust
name_back = refl

reloaded :
    (two_hosts >>= λ (a, b, r). create 100 r.file >>= λ r'. some r'.table)
    ≡ (two_hosts >>= λ (a, b, r). some r.table)
unfolding create add_rules dns ddns text_key number_key Agree-key eq gt adjust
reloaded = refl

abbrev first : Resolver
first = record { table = fresh 100; rules = all_hosts ∷ []; file = none }

abbrev one_host : Resolver
one_host = record {
  table = record {
    ip = 101;
    by_name = record {
      named = true;
      root = node none 1 leaf (record { id = 0; key = codes "a.com" }) leaf;
      size = 1;
    };
    by_ip = record {
      named = true;
      root = node none 1 leaf (record { id = 0; key = 100 }) leaf;
      size = 1;
    };
    hosts = record { name = codes "a.com"; ip = 100 } ∷ [];
  };
  rules = all_hosts ∷ [];
  file = some (file_of (record { name = codes "a.com"; ip = 100 } ∷ []));
}

a_com : (ip : ℕ) → ip < 2 ^ 32 → IsHost (record { name = codes "a.com"; ip = ip })
a_com ip h = record {
  text = (refl, (refl, (refl, (refl, (refl, tt)))));
  short = omega arith;
  word = h;
}

first_tables : IsValid 100 first.table
first_tables = fresh-IsValid 100 (omega arith)

first_in_step : Saved 100 first
unfolding add_items Keeps
first_in_step = record { made = refl; hosts = tt; file = refl }

one_in_step : Saved 100 one_host
unfolding add_items Keeps add_item text_key number_key Agree-key eq gt adjust
one_in_step = record { made = refl; hosts = (a_com 100 (omega arith), tt); file = refl }

ddns-dns_example :
    (ip : ℕ) × (after : Resolver) × (dns 7 (codes "a.com") first ≡ some (ip, after))
    × (ddns ip after ≡ some (codes "a.com"))
    × IsValid 100 after.table
    × (dns 7 (codes "a.com") after ≡ some (ip, after))
    × ((ip' : ℕ) (h : ResolvItem) → host_at ip' first.table ≡ some h → ddns ip' after ≡ some h.name)
unfolding any_denies any_accepts
ddns-dns_example = ddns-dns 100 7 (codes "a.com") first first_tables (omega arith) refl refl

create-file_example : create 100 one_host.file ≡ some (record one_host { rules = [] })
unfolding entries
create-file_example = create-file 100 one_host one_in_step (omega arith)

dns-Saved_example :
    (ip : ℕ) × (after : Resolver) × (dns 7 (codes "a.com") first ≡ some (ip, after))
    × Saved 100 after
unfolding entries
dns-Saved_example =
    dns-Saved 100 7 (codes "a.com") first first_tables (omega arith) first_in_step
      (a_com 100 (omega arith)) (omega arith)

abbrev syn_packet : Packet
syn_packet = record {
  src = record { ip = 7; port = 40000 };
  dest = record { ip = 100; port = 443 };
  segment = record {
    flags = record no_flags { syn = true };
    seq = 1000;
    ack_seq = 0;
    window_size = 1400;
    payload = [];
  };
}

abbrev no_connections : Table
no_connections = record {
  by_pair = record { named = true; root = leaf; size = 0 };
  by_agent = record { named = true; root = leaf; size = 0 };
  conn_at = λ i.
      new_conn (record { remote = syn_packet.src; local = syn_packet.dest }) syn_packet.src
        syn_packet.dest (sock5 [] 0 []);
  next = 0;
  agent_addr = record { ip = 167837696; port = 1024 };
  proxy = record { ip = 167837697; port = 1080 };
  sent = [];
  total_up_bytes = 0;
  total_down_bytes = 0;
  max_conn_count = 0;
}

abbrev by_sock5 : Text → ℕ → Auth
by_sock5 name port = sock5 (5 ∷ 1 ∷ 0 ∷ []) 1 name

no_connections-IsValid : Valid.IsValid no_connections
no_connections-IsValid = record {
  pair_valid = record { balanced = tt; linked = tt; sorted = tt; distinct = tt; counted = refl };
  agent_valid = record { balanced = tt; linked = tt; sorted = tt; distinct = tt; counted = refl };
  pair_names = tt;
  agent_names = tt;
  lives = λ i h. absurd (omega arith);
}

dispatch-dns_example :
    (u : Table) × (dispatch (hosts_of by_sock5 one_host) syn_packet no_connections ≡ some u)
    × (y : Item SockAddrPair) × (Api.get u.by_pair.root
          (record { remote = syn_packet.src; local = syn_packet.dest })
        ≡ some y)
    × ((u.conn_at y.id).state ≡ syn_sent)
    × ((u.conn_at y.id).create ≡ by_sock5 (codes "a.com") 443)
unfolding any_denies any_accepts dns text_key number_key Agree-key eq gt adjust file_of Api.get
dispatch-dns_example =
    dispatch-dns 100 7 (codes "a.com") first one_host by_sock5 syn_packet no_connections
      first_tables (omega arith) refl refl refl no_connections-IsValid (omega arith, omega arith)
      refl refl refl
