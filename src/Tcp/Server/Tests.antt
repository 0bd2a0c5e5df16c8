-- ===== src/Tcp/Server/Tests.antt =====
-- A server on port 80 takes its first connection.
use trans_proxy.Base.{◌≡◌, refl, true, none, some, [], replicate, arith}
use trans_proxy.Map.{Item, leaf, node}
use trans_proxy.Map.Api
use trans_proxy.Map.Api.Valid
use trans_proxy.Net.Compare.{Agree-key}
use trans_proxy.Net.Sock.{SockAddr, sock_key}
use trans_proxy.Net.Pair.{SockAddrPair, pair_key}
use trans_proxy.Trans.Segment.{no_flags, Packet, add_word}
use trans_proxy.Tcp.State.{create, ring_size, syn_recv}
use trans_proxy.Tcp.Call.{Listener}
use trans_proxy.Tcp.Server.{Tcp, Chance, dispatch}
use trans_proxy.Tcp.Server.Accepted.{accepted_lem}

abbrev client : SockAddr
client = record { ip = 3232235778; port = 40000 }

abbrev port80 : SockAddr
port80 = record { ip = 167772161; port = 80 }

abbrev silent : Listener
silent = record {
  on_server_connected = λ e. (true, []);
  on_connected = λ e. [];
  on_to_recv = λ e. [];
  on_to_send = λ e. [];
}

abbrev chance : Chance
chance = record {
  random = 77;
  in_memory = replicate ring_size 0;
  out_memory = replicate ring_size 0;
  stack = [];
}

abbrev bound : Item SockAddr
bound = record { id = 0; key = port80 }

abbrev host : Tcp
host = record {
  server_ips = record {
    named = true;
    root = node none 1 leaf (record { id = 0; key = 167772161 }) leaf;
    size = 1;
  };
  counts = λ i. 1;
  servers = record { named = true; root = node none 1 leaf bound leaf; size = 1 };
  server_at = λ i. record { addr = port80; listener = silent };
  connections = record { named = true; root = leaf; size = 0 };
  endpoint_at = λ i. create 0 [] [] 0;
  next = 1;
  sent = [];
}

abbrev hello : Packet
hello = record {
  src = client;
  dest = port80;
  segment = record {
    flags = record no_flags { syn = true };
    seq = 4294967295;
    ack_seq = 0;
    window_size = 1400;
    payload = [];
  };
}

empty_conns : Valid.IsValid host.connections
empty_conns = record { balanced = tt; linked = tt; sorted = tt; distinct = tt; counted = refl }

no_conn : Api.get host.connections.root (record { remote = client; local = port80 }) ≡ none
unfolding Api.get
no_conn = refl

on_port : Api.get host.servers.root port80 ≡ some bound
unfolding Api.get sock_key Agree-key
on_port = refl

accepted_lem_example :
    (u : Tcp) × (dispatch chance (λ i. silent) hello host ≡ some u)
    × (y : Item SockAddrPair) × (Api.get u.connections.root
          (record { remote = client; local = port80 })
        ≡ some y)
    × ((u.endpoint_at y.id).state ≡ syn_recv)
    × ((u.endpoint_at y.id).timer1 ≡ some 0)
    × ((u.endpoint_at y.id).remote_seq ≡ add_word 4294967295 1)
accepted_lem_example =
    accepted_lem chance (λ i. silent) hello host bound empty_conns tt (omega arith) no_conn on_port
      refl refl
