-- ===== src/Trans/Conn/Tests.antt =====
-- A connection of 192.168.1.2 to a server, through a SOCKS5 proxy.
use trans_proxy.Base.{◌≡◌, refl, true, false, none, some, [], ◌∷◌}
use trans_proxy.Net.Sock.{SockAddr}
use trans_proxy.Net.Pair.{SockAddrPair}
use trans_proxy.Trans.Segment.{no_flags, Segment}
use trans_proxy.Trans.Auth.{Auth, sock5}
use trans_proxy.Trans.Conn.{
  from_client, from_proxy, auth, established, Conn, Run, dispatch_packet, Left, deleted, fire,
}
use trans_proxy.Trans.Conn.Lifetime.{IsLive, dispatch_packet-IsLive}
use trans_proxy.Trans.Conn.Idle.{idle, idle_lem}
use trans_proxy.Trans.Conn.Owner.{Owned}
use trans_proxy.Trans.Conn.Owner.Events.{OwnedLeft, begun, on_packet, Lived, Lived-Owned}

abbrev client : SockAddr
client = record { ip = 3232235778; port = 40000 }

abbrev server : SockAddr
server = record { ip = 100; port = 443 }

abbrev agent_addr : SockAddr
agent_addr = record { ip = 167837696; port = 1025 }

abbrev upstream : SockAddr
upstream = record { ip = 3232235777; port = 1080 }

abbrev ends : SockAddrPair
ends = record { remote = client; local = server }

abbrev greeting : Auth
greeting = sock5 (5 ∷ 1 ∷ 0 ∷ []) 1 []

-- After the handshake: 10 bytes went to the upstream proxy and 12 came back before the client's.
abbrev open_conn : Conn
open_conn = record {
  addr_pair = ends;
  agent = agent_addr;
  proxy = upstream;
  create = greeting;
  timer = some 900000;
  state = established;
  retry_count = 0;
  client_seq = 4294967290;
  proxy_seq = 5000;
  client_window_size = 100;
  proxy_window_size = 100;
  handshake = none;
  proxy_out_total = 10;
  proxy_in_total = 12;
  up_bytes = 0;
  down_bytes = 0;
  client_fin = false;
  proxy_fin = false;
}

abbrev open_run : Run
open_run = record { conn = open_conn; total_up_bytes = 7; total_down_bytes = 8; sent = [] }

abbrev auth_run : Run
auth_run = record open_run {
  conn = record open_conn { state = auth; handshake = some greeting; timer = some 0 };
}

abbrev data_segment : Segment
data_segment = record {
  flags = record no_flags { ack = true };
  seq = 4294967290;
  ack_seq = 5000;
  window_size = 90;
  payload = 1 ∷ 2 ∷ [];
}

-- The upstream proxy acknowledges 4 bytes, behind the wrap-around.
abbrev ack_segment : Segment
ack_segment = record data_segment { seq = 5012; ack_seq = 8 }

abbrev syn_segment : Segment
syn_segment = record data_segment { flags = record no_flags { syn = true } }

open_run-IsLive : IsLive open_run
open_run-IsLive = record { waits = tt; shakes = tt }

auth_run-IsLive : IsLive auth_run
auth_run-IsLive = record { waits = tt; shakes = tt }

dispatch_packet-IsLive_example :
    (r' : Run) × (dispatch_packet from_proxy ack_segment auth_run ≡ some r') × IsLive r'
dispatch_packet-IsLive_example =
    dispatch_packet-IsLive from_proxy ack_segment auth_run auth_run-IsLive

-- A segment of the client, and then the timer.
abbrev after_data : Run
unfolding dispatch_packet
after_data = elim (dispatch_packet from_client data_segment open_run) [
  | none ↦ open_run
  | some r ↦ r
]

after_data_lived : Lived open_run after_data
unfolding dispatch_packet
after_data_lived = on_packet from_client data_segment open_run after_data begun refl

Lived-Owned_example :
    Owned open_run after_data
    × ((r' : Run) × (dispatch_packet from_proxy ack_segment after_data ≡ some r')
        × Owned open_run r')
    × ((l : Left) × (fire after_data ≡ some l) × OwnedLeft open_run l)
Lived-Owned_example =
    Lived-Owned open_run after_data from_proxy ack_segment open_run-IsLive after_data_lived

idle_lem_example : idle 9 auth_run ≡ some deleted
idle_lem_example = idle_lem auth_run auth_run-IsLive
