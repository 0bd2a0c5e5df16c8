-- ===== src/Trans/Conn/First.antt =====
-- The first packet of a connection, from whatever totals and packets the translator has.
use trans_proxy.Base.{◌≡◌, refl, ap, inl, inr, Bool-cases, true, some}
use trans_proxy.Net.Sock.{SockAddr}
use trans_proxy.Net.Pair.{SockAddrPair}
use trans_proxy.Trans.Segment.{Segment}
use trans_proxy.Trans.Auth.{Auth}
use trans_proxy.Trans.Conn.{
  from_client, closed, syn_sent, Run, new_conn, transfer_syn1, dispatch_in, dispatch_packet,
}
use trans_proxy.Trans.Conn.Lifetime.{IsLive}

pub new_conn-closed :
    (pair : SockAddrPair) (agent proxy : SockAddr) (create : Auth)
    → (new_conn pair agent proxy create).state ≡ closed
unfolding new_conn
new_conn-closed pair agent proxy create = refl

-- A SYN of the client arms the timer of a connection that is new.
pub syn-IsLive :
    (p : Segment) (r : Run)
    → r.conn.state ≡ closed
    → p.flags.syn ≡ true
    → (dispatch_packet from_client p r ≡ some (transfer_syn1 from_client p r))
      × IsLive (transfer_syn1 from_client p r)
      × ((transfer_syn1 from_client p r).conn.state ≡ syn_sent)
unfolding dispatch_packet dispatch_in transfer_syn1
syn-IsLive p r h syn = (
  ap (λ s. dispatch_in s from_client p r) h,
  rw syn (record { waits = tt; shakes = tt }),
  rw syn refl,
)

-- The first packet leaves the builder's handshake as it is.
pub transfer_syn1-create :
    (p : Segment) (r : Run) → (transfer_syn1 from_client p r).conn.create ≡ r.conn.create
unfolding transfer_syn1
transfer_syn1-create p r = elim (Bool-cases p.flags.syn) [ inl e ↦ rw e refl | inr e ↦ rw e refl ]

pub new_conn-create :
    (addr : SockAddrPair) (agent proxy : SockAddr) (create : Auth)
    → (new_conn addr agent proxy create).create ≡ create
unfolding new_conn
new_conn-create addr agent proxy create = refl
