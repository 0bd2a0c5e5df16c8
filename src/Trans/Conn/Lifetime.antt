-- ===== src/Trans/Conn/Lifetime.antt =====
-- How long a connection lives: it never follows a null pointer, always has a timer once it has
-- begun, and is deleted when no more packets come.
use trans_proxy.Base.{
  ℕ, ◌≡◌, subst, refl, sym, Bool, true, false, Option, none, some, List, [], ◌∷◌, Bool-cases, inl,
  inr, if◌then◌else◌, length, add_size, ◌&&◌, ◌==◌,
}
use trans_proxy.Trans.Segment.{Segment, add_word}
use trans_proxy.Trans.Auth.{
  Auth, Call, send_request, commit_request, Reply, refused, accepted, more, on_auth_response,
}
use trans_proxy.Net.Sock.{SockAddr}
use trans_proxy.Net.Pair.{SockAddrPair}
use trans_proxy.Trans.Conn.{
  From, from_client, from_proxy, State, closed, syn_sent, syn_received, auth, establishing,
  established, fin_wait, closing, Conn, Run, send_packet, transfer_data, transfer_syn1,
  transfer_syn2, transfer_syn3, observe_fin, answer_call, answer_calls, after_answer, answered,
  auth_dispatch_packet, dispatch_in, acknowledge_fin, closing_dispatch_packet, pass_on,
  dispatch_packet, new_conn,
}

abbrev pub Waits : Option ℕ → Type 0
Waits none = ⊥
Waits (some t) = Unit {0}

abbrev pub Present : Option Auth → Type 0
Present none = ⊥
Present (some a) = Unit {0}

-- The state that uses a handshake has one.
abbrev pub Shakes : State → Option Auth → Type 0
Shakes auth h = Present h
Shakes _ h = Unit {0}

-- The timer is armed, and the handshake is at hand where it is used.
pub record IsLive (r : Run) : Type 0 where
  pub waits : Waits r.conn.timer
  pub shakes : Shakes r.conn.state r.conn.handshake

Shakes-some : (s : State) (a : Auth) → Shakes s (some a)
Shakes-some auth a = tt
Shakes-some closed a = tt
Shakes-some syn_sent a = tt
Shakes-some syn_received a = tt
Shakes-some establishing a = tt
Shakes-some established a = tt
Shakes-some fin_wait a = tt
Shakes-some closing a = tt

if-IsLive : (b : Bool) (x y : Run) → IsLive x → IsLive y → IsLive (if b then x else y)
if-IsLive true x y v w = v
if-IsLive false x y v w = w

transfer_syn1-IsLive : (f : From) (p : Segment) (r : Run) → IsLive r → IsLive (transfer_syn1 f p r)
unfolding transfer_syn1
transfer_syn1-IsLive from_proxy p r v = v
transfer_syn1-IsLive from_client p r v =
    if-IsLive p.flags.syn _ r (record { waits = tt; shakes = tt }) v

transfer_syn2-IsLive : (f : From) (p : Segment) (r : Run) → IsLive r → IsLive (transfer_syn2 f p r)
unfolding transfer_syn2
transfer_syn2-IsLive from_client p r v = v
transfer_syn2-IsLive from_proxy p r v =
    if-IsLive (p.flags.syn && (p.flags.ack && (p.ack_seq == r.conn.client_seq))) _ r
      (record { waits = tt; shakes = tt }) v

transfer_syn3-IsLive : (f : From) (p : Segment) (r : Run) → IsLive r → IsLive (transfer_syn3 f p r)
unfolding transfer_syn3
transfer_syn3-IsLive from_proxy p r v = v
transfer_syn3-IsLive from_client p r v =
    if-IsLive (p.flags.ack && (p.ack_seq == r.conn.proxy_seq)) _ r
      (record { waits = tt; shakes = tt }) v

-- A step that leaves the timer, the state and the handshake alone.
abbrev pub Keeps : Conn → Conn → Type 0
Keeps c d =
    (d.timer ≡ c.timer)
    × (d.state ≡ c.state)
    × (d.handshake ≡ c.handshake)
    × (d.retry_count ≡ c.retry_count)

pub Keeps-IsLive : (r r' : Run) → Keeps r.conn r'.conn → IsLive r → IsLive r'
Keeps-IsLive r r' (t, s, h, _) v = record {
  waits = subst Waits (sym t) v.waits;
  shakes = rw (s, h) v.shakes;
}

observe_fin-Keeps : (f : From) (p : Segment) (c : Conn) → Keeps c (observe_fin f p c)
unfolding observe_fin
observe_fin-Keeps from_client p c = elim (Bool-cases p.flags.fin) [
  | inl e ↦ rw e (refl, refl, refl, refl)
  | inr e ↦ rw e (refl, refl, refl, refl)
]
observe_fin-Keeps from_proxy p c = elim (Bool-cases p.flags.fin) [
  | inl e ↦ rw e (refl, refl, refl, refl)
  | inr e ↦ rw e (refl, refl, refl, refl)
]

acknowledge_fin-Keeps : (f : From) (p : Segment) (c : Conn) → Keeps c (acknowledge_fin f p c)
unfolding acknowledge_fin
acknowledge_fin-Keeps from_client p c = elim (Bool-cases (p.ack_seq == add_word c.proxy_seq 1)) [
  | inl e ↦ rw e (refl, refl, refl, refl)
  | inr e ↦ rw e (refl, refl, refl, refl)
]
acknowledge_fin-Keeps from_proxy p c =
    elim (Bool-cases (p.ack_seq == add_size (add_size c.client_seq c.proxy_out_total) 1)) [
      | inl e ↦ rw e (refl, refl, refl, refl)
      | inr e ↦ rw e (refl, refl, refl, refl)
    ]

transfer_data-Keeps : (f : From) (p : Segment) (r : Run) → Keeps r.conn (transfer_data f p r).conn
unfolding transfer_data
transfer_data-Keeps from_client p r = (refl, refl, refl, refl)
transfer_data-Keeps from_proxy p r = (refl, refl, refl, refl)

pub answer_calls-Keeps : (cs : List Call) (r : Run) → Keeps r.conn (answer_calls cs r).conn
unfolding answer_calls send_packet
answer_calls-Keeps [] r = (refl, refl, refl, refl)
answer_calls-Keeps (send_request b n ∷ cs) r =
    answer_calls-Keeps cs (answer_call (send_request b n) r)
answer_calls-Keeps (commit_request n ∷ cs) r =
    answer_calls-Keeps cs (answer_call (commit_request n) r)

pass_on-IsLive :
    (f : From) (p : Segment) (r : Run)
    → Shakes r.conn.state r.conn.handshake
    → IsLive (pass_on f p r)
unfolding pass_on
pass_on-IsLive f p r h =
    let (_, s, k, _) = transfer_data-Keeps f p r in
    let (_, s', k', _) = observe_fin-Keeps f p (transfer_data f p r).conn in
    let c = observe_fin f p (transfer_data f p r).conn in
    if-IsLive (c.client_fin && c.proxy_fin) _ _ (record { waits = tt; shakes = tt })
      (record { waits = tt; shakes = rw (s', k', s, k) h })

closing_dispatch_packet-IsLive :
    (f : From) (p : Segment) (r : Run) → IsLive r → IsLive (closing_dispatch_packet f p r)
unfolding closing_dispatch_packet
closing_dispatch_packet-IsLive f p r v =
    let c = acknowledge_fin f p r.conn in
    let kept = Keeps-IsLive r (record r { conn = c }) (acknowledge_fin-Keeps f p r.conn) v in
    if-IsLive p.flags.ack _ r
      (if-IsLive (c.client_fin && c.proxy_fin) _ (record r { conn = c })
        (record { waits = tt; shakes = tt }) kept)
      v

after_answer-IsLive :
    (a : Reply) (h : Auth) (p : Segment) (r : Run)
    → Waits r.conn.timer
    → IsLive (after_answer a h p r)
unfolding after_answer
after_answer-IsLive more h p r w = record { waits = w; shakes = Shakes-some r.conn.state h }
after_answer-IsLive accepted h p r w = record { waits = tt; shakes = tt }
after_answer-IsLive refused h p r w = record { waits = tt; shakes = tt }

answered-IsLive :
    (h : Option Auth) (p : Segment) (r : Run)
    → Present h
    → Waits r.conn.timer
    → (r' : Run) × (answered h p r ≡ some r') × IsLive r'
unfolding answered
answered-IsLive (some a) p r h w =
    let o = on_auth_response a p.payload in
    let r2 = answer_calls o.2 r in
    let (t, _, _, _) = answer_calls-Keeps o.2 r in
    (after_answer o.0 o.1 p r2, refl, after_answer-IsLive o.0 o.1 p r2 (subst Waits (sym t) w))
answered-IsLive none p r h w = absurd h

auth_dispatch_packet-IsLive :
    (f : From) (p : Segment) (r : Run)
    → IsLive r
    → Present r.conn.handshake
    → (r' : Run) × (auth_dispatch_packet f p r ≡ some r') × IsLive r'
unfolding auth_dispatch_packet
auth_dispatch_packet-IsLive from_client p r v h = (r, refl, v)
auth_dispatch_packet-IsLive from_proxy p r v h =
    let c = r.conn in
    let in_total = add_size c.proxy_in_total (length p.payload) in
    let r1 = record r { conn = record c { proxy_in_total = in_total } } in
    let (r2, d, w) = answered-IsLive c.handshake p r1 h v.waits in
    elim (Bool-cases (p.seq == add_size c.proxy_seq c.proxy_in_total)) [
      | inr n ↦ (r, rw n refl, v)
      | inl e ↦ (r2, rw e d, w)
    ]

dispatch_in-IsLive :
    (s : State) (f : From) (p : Segment) (r : Run)
    → Shakes s r.conn.handshake
    → IsLive r
    → (r' : Run) × (dispatch_in s f p r ≡ some r') × IsLive r'
unfolding dispatch_in
dispatch_in-IsLive closed f p r h v = (transfer_syn1 f p r, refl, transfer_syn1-IsLive f p r v)
dispatch_in-IsLive syn_sent f p r h v =
    let r1 = transfer_syn1 f p r in
    (transfer_syn2 f p r1, refl, transfer_syn2-IsLive f p r1 (transfer_syn1-IsLive f p r v))
dispatch_in-IsLive syn_received f p r h v =
    let r1 = transfer_syn2 f p r in
    (transfer_syn3 f p r1, refl, transfer_syn3-IsLive f p r1 (transfer_syn2-IsLive f p r v))
dispatch_in-IsLive auth f p r h v = auth_dispatch_packet-IsLive f p r v h
dispatch_in-IsLive establishing f p r h v =
    let r1 = record r { conn = record (r.conn) { state = established } } in
    (pass_on f p r1, refl, pass_on-IsLive f p r1 tt)
dispatch_in-IsLive established f p r h v = (pass_on f p r, refl, pass_on-IsLive f p r v.shakes)
dispatch_in-IsLive fin_wait f p r h v =
    (transfer_data f p r, refl, Keeps-IsLive r (transfer_data f p r) (transfer_data-Keeps f p r) v)
dispatch_in-IsLive closing f p r h v =
    (closing_dispatch_packet f p r, refl, closing_dispatch_packet-IsLive f p r v)

-- A packet leaves a connection that has its timer and handshake such a connection, and no null
-- pointer is followed.
pub dispatch_packet-IsLive :
    (f : From) (p : Segment) (r : Run)
    → IsLive r
    → (r' : Run) × (dispatch_packet f p r ≡ some r') × IsLive r'
unfolding dispatch_packet
dispatch_packet-IsLive f p r v = dispatch_in-IsLive r.conn.state f p r v.shakes v

-- A new connection with no totals and nothing sent.
abbrev pub begun : SockAddrPair → SockAddr → SockAddr → Auth → Run
unfolding new_conn
begun pair agent proxy create = record {
  conn = new_conn pair agent proxy create;
  total_up_bytes = 0;
  total_down_bytes = 0;
  sent = [];
}

-- The first SYN of a client gives a new connection its timer.
pub first_packet-IsLive :
    (p : Segment) (pair : SockAddrPair) (agent proxy : SockAddr) (create : Auth)
    → p.flags.syn ≡ true
    → let r = transfer_syn1 from_client p (begun pair agent proxy create) in
      (dispatch_packet from_client p (begun pair agent proxy create) ≡ some r)
      × IsLive r
      × (r.conn.state ≡ syn_sent)
unfolding dispatch_packet dispatch_in transfer_syn1 new_conn
first_packet-IsLive p pair agent proxy create h =
    (refl, rw h (record { waits = tt; shakes = tt }), rw h refl)
