-- ===== src/Tcp/Stale.antt =====
-- Packets that a connection does not take: those that come again.
use trans_proxy.Base.{ℕ, zero, suc, Option, some, List}
use trans_proxy.Map.{◌>>=◌}
use trans_proxy.Trans.Segment.{Segment, Packet}
use trans_proxy.Tcp.State.{State, Endpoint}
use trans_proxy.Tcp.Call.{Listener}
use trans_proxy.Tcp.Receive.{dispatch_packet}

-- The same packet, `n` times.
abbrev pub again : ℕ → List ℕ → Listener → Packet → Endpoint → Option Endpoint
again zero stack user q e = some e
again (suc n) stack user q e = dispatch_packet stack user q e >>= again n stack user q
