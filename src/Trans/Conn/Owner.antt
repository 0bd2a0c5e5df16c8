-- ===== src/Trans/Conn/Owner.antt =====
-- The addresses of the packets that a connection sends.
pub mod Events
use mathlib.Core.List.{append_assoc, append-nil}
use trans_proxy.Base.{
  sym, ap, ◌∙◌, ℕ, ◌≡◌, ◌⊎◌, inl, inr, refl, subst, Bool, true, false, ◌&&◌, Option, none, some,
  List, [], ◌∷◌, ◌++◌, ◌==◌, if◌then◌else◌, add_size, Bool-cases,
}
use trans_proxy.Map.Sorted.{All, append-All}
use trans_proxy.Trans.Segment.{Flags, no_flags, Segment, Packet, add_word}
use trans_proxy.Trans.Auth.{
  Auth, Call, send_request, commit_request, Reply, refused, accepted, more, on_auth_response,
}
use trans_proxy.Trans.Conn.{
  From, from_client, from_proxy, State, closed, syn_sent, syn_received, auth, establishing,
  established, fin_wait, closing, Conn, Run, send_packet, send_segment, transfer_data,
  transfer_syn1, transfer_syn2, transfer_syn3, observe_fin, answer_call, answer_calls, after_answer,
  answered, auth_dispatch_packet, dispatch_in, acknowledge_fin, closing_dispatch_packet, pass_on,
  dispatch_packet,
}
use trans_proxy.Trans.Conn.Lifetime.{IsLive, dispatch_packet-IsLive}

-- A packet from the agent to the upstream proxy, or from the server to the client.
abbrev pub Owns : Conn → Packet → Type 0
Owns c q =
    ((q.src ≡ c.agent) × (q.dest ≡ c.proxy))
    ⊎ ((q.src ≡ c.addr_pair.local) × (q.dest ≡ c.addr_pair.remote))

-- Two states of one connection.
abbrev pub SameAddresses : Conn → Conn → Type 0
SameAddresses c d = (d.agent ≡ c.agent) × (d.proxy ≡ c.proxy) × (d.addr_pair ≡ c.addr_pair)

-- What a connection has come to since it was `start`: its addresses are the same, and all packets that
-- it has sent since then are its own.
pub record Owned (start r : Run) : Type 0 where
  pub since : List Packet
  pub sent_since : r.sent ≡ start.sent ++ since
  pub all_owned : All (Owns start.conn) since
  pub same : SameAddresses start.conn r.conn

pub none_since : (r : Run) → Owned r r
none_since r = record {
  since = [];
  sent_since = sym (append-nil r.sent);
  all_owned = tt;
  same = (refl, refl, refl);
}

-- A step that sends nothing.
pub kept :
    {start r r' : Run}
    → Owned start r
    → r'.sent ≡ r.sent
    → SameAddresses r.conn r'.conn
    → Owned start r'
kept v e (a, p, t) = record {
  since = v.since;
  sent_since = e ∙ v.sent_since;
  all_owned = v.all_owned;
  same = (a ∙ v.same.0, p ∙ v.same.1, t ∙ v.same.2);
}

pub if-Owned :
    {start : Run} (b : Bool) (x y : Run)
    → Owned start x
    → Owned start y
    → Owned start (if b then x else y)
if-Owned true x y v w = v
if-Owned false x y v w = w

one_more :
    {start r : Run} (v : Owned start r) (q : Packet)
    → Owns start.conn q
    → Owned start (record r { sent = r.sent ++ (q ∷ []) })
one_more {start} v q o = record {
  since = v.since ++ (q ∷ []);
  sent_since = ap (λ qs. qs ++ (q ∷ [])) v.sent_since ∙ append_assoc start.sent v.since (q ∷ []);
  all_owned = append-All (Owns start.conn) v.since _ v.all_owned (o, tt);
  same = v.same;
}

send_packet-Owned :
    {start : Run} (f : From) (s : Segment) (r : Run)
    → Owned start r
    → Owned start (send_packet f s r)
unfolding send_packet
send_packet-Owned from_client s r v = one_more v _ (inl (v.same.0, v.same.1))
send_packet-Owned from_proxy s r v =
    one_more v _ (inr (ap (λ a. a.local) v.same.2, ap (λ a. a.remote) v.same.2))

pub send_segment-Owned :
    {start : Run} (f : From) (flags : Flags) (seq ack_seq window_size : ℕ) (bytes : List ℕ)
    (r : Run)
    → Owned start r
    → Owned start (send_segment f flags seq ack_seq window_size bytes r)
unfolding send_segment
send_segment-Owned f flags seq ack_seq window_size bytes r v = send_packet-Owned f _ r v

transfer_data-Owned :
    {start : Run} (f : From) (p : Segment) (r : Run)
    → Owned start r
    → Owned start (transfer_data f p r)
unfolding transfer_data
transfer_data-Owned from_client p r v =
    send_packet-Owned from_client _ _ (kept v refl (refl, refl, refl))
transfer_data-Owned from_proxy p r v =
    send_packet-Owned from_proxy _ _ (kept v refl (refl, refl, refl))

transfer_syn1-Owned :
    {start : Run} (f : From) (p : Segment) (r : Run)
    → Owned start r
    → Owned start (transfer_syn1 f p r)
unfolding transfer_syn1
transfer_syn1-Owned from_proxy p r v = v
transfer_syn1-Owned from_client p r v =
    let sent' = send_packet-Owned from_client (record p { window_size = 0 }) r v in
    if-Owned p.flags.syn _ r (kept sent' refl (refl, refl, refl)) v

transfer_syn2-Owned :
    {start : Run} (f : From) (p : Segment) (r : Run)
    → Owned start r
    → Owned start (transfer_syn2 f p r)
unfolding transfer_syn2
transfer_syn2-Owned from_client p r v = v
transfer_syn2-Owned from_proxy p r v =
    let sent' = send_packet-Owned from_proxy (record p { window_size = 0 }) r v in
    if-Owned (p.flags.syn && (p.flags.ack && (p.ack_seq == r.conn.client_seq))) _ r
      (kept sent' refl (refl, refl, refl)) v

transfer_syn3-Owned :
    {start : Run} (f : From) (p : Segment) (r : Run)
    → Owned start r
    → Owned start (transfer_syn3 f p r)
unfolding transfer_syn3
transfer_syn3-Owned from_proxy p r v = v
transfer_syn3-Owned from_client p r v =
    let sent' = send_packet-Owned from_client (record p { window_size = 0 }) r v in
    if-Owned (p.flags.ack && (p.ack_seq == r.conn.proxy_seq)) _ r
      (kept sent' refl (refl, refl, refl)) v

observe_fin-addresses : (f : From) (p : Segment) (c : Conn) → SameAddresses c (observe_fin f p c)
unfolding observe_fin
observe_fin-addresses from_client p c = elim (Bool-cases p.flags.fin) [
  | inl e ↦ rw e (refl, refl, refl)
  | inr e ↦ rw e (refl, refl, refl)
]
observe_fin-addresses from_proxy p c = elim (Bool-cases p.flags.fin) [
  | inl e ↦ rw e (refl, refl, refl)
  | inr e ↦ rw e (refl, refl, refl)
]

acknowledge_fin-addresses :
    (f : From) (p : Segment) (c : Conn) → SameAddresses c (acknowledge_fin f p c)
unfolding acknowledge_fin
acknowledge_fin-addresses from_client p c =
    elim (Bool-cases (p.ack_seq == add_word c.proxy_seq 1)) [
      | inl e ↦ rw e (refl, refl, refl)
      | inr e ↦ rw e (refl, refl, refl)
    ]
acknowledge_fin-addresses from_proxy p c =
    elim (Bool-cases (p.ack_seq == add_size (add_size c.client_seq c.proxy_out_total) 1)) [
      | inl e ↦ rw e (refl, refl, refl)
      | inr e ↦ rw e (refl, refl, refl)
    ]

pass_on-Owned :
    {start : Run} (f : From) (p : Segment) (r : Run) → Owned start r → Owned start (pass_on f p r)
unfolding pass_on
pass_on-Owned f p r v =
    let r1 = transfer_data f p r in
    let c = observe_fin f p r1.conn in
    let w = transfer_data-Owned f p r v in
    let same = observe_fin-addresses f p r1.conn in
    if-Owned (c.client_fin && c.proxy_fin) _ _ (kept w refl same) (kept w refl same)

closing_dispatch_packet-Owned :
    {start : Run} (f : From) (p : Segment) (r : Run)
    → Owned start r
    → Owned start (closing_dispatch_packet f p r)
unfolding closing_dispatch_packet
closing_dispatch_packet-Owned f p r v =
    let c = acknowledge_fin f p r.conn in
    let same = acknowledge_fin-addresses f p r.conn in
    if-Owned p.flags.ack _ r
      (if-Owned (c.client_fin && c.proxy_fin) _ (record r { conn = c }) (kept v refl same)
        (kept v refl same))
      v

pub answer_calls-Owned :
    {start : Run} (cs : List Call) (r : Run) → Owned start r → Owned start (answer_calls cs r)
unfolding answer_calls
answer_calls-Owned [] r v = v
answer_calls-Owned (send_request b n ∷ cs) r v =
    answer_calls-Owned cs (answer_call (send_request b n) r)
      (send_segment-Owned from_client (record no_flags { psh = true }) _ _ _ _ r v)
answer_calls-Owned (commit_request n ∷ cs) r v =
    answer_calls-Owned cs (answer_call (commit_request n) r) (kept v refl (refl, refl, refl))

after_answer-Owned :
    {start : Run} (a : Reply) (h : Auth) (p : Segment) (r : Run)
    → Owned start r
    → Owned start (after_answer a h p r)
unfolding after_answer
after_answer-Owned more h p r v = kept v refl (refl, refl, refl)
after_answer-Owned accepted h p r v = kept v refl (refl, refl, refl)
after_answer-Owned refused h p r v = kept v refl (refl, refl, refl)

-- A result, if there is one, that sends only its own packets.
abbrev pub OwnedResult : Run → Option Run → Type 0
OwnedResult start none = Unit {0}
OwnedResult start (some r) = Owned start r

answered-Owned :
    {start : Run} (h : Option Auth) (p : Segment) (r : Run)
    → Owned start r
    → OwnedResult start (answered h p r)
unfolding answered
answered-Owned none p r v = tt
answered-Owned (some a) p r v =
    let o = on_auth_response a p.payload in
    after_answer-Owned o.0 o.1 p (answer_calls o.2 r) (answer_calls-Owned o.2 r v)

auth_dispatch_packet-Owned :
    {start : Run} (f : From) (p : Segment) (r : Run)
    → Owned start r
    → OwnedResult start (auth_dispatch_packet f p r)
unfolding auth_dispatch_packet
auth_dispatch_packet-Owned from_client p r v = v
auth_dispatch_packet-Owned from_proxy p r v =
    elim (Bool-cases (p.seq == add_size r.conn.proxy_seq r.conn.proxy_in_total)) [
      | inl e ↦ rw e (answered-Owned r.conn.handshake p _ (kept v refl (refl, refl, refl)))
      | inr e ↦ rw e v
    ]

dispatch_in-Owned :
    {start : Run} (s : State) (f : From) (p : Segment) (r : Run)
    → Owned start r
    → OwnedResult start (dispatch_in s f p r)
unfolding dispatch_in
dispatch_in-Owned closed f p r v = transfer_syn1-Owned f p r v
dispatch_in-Owned syn_sent f p r v = transfer_syn2-Owned f p _ (transfer_syn1-Owned f p r v)
dispatch_in-Owned syn_received f p r v = transfer_syn3-Owned f p _ (transfer_syn2-Owned f p r v)
dispatch_in-Owned auth f p r v = auth_dispatch_packet-Owned f p r v
dispatch_in-Owned establishing f p r v = pass_on-Owned f p _ (kept v refl (refl, refl, refl))
dispatch_in-Owned established f p r v = pass_on-Owned f p r v
dispatch_in-Owned fin_wait f p r v = transfer_data-Owned f p r v
dispatch_in-Owned closing f p r v = closing_dispatch_packet-Owned f p r v

pub dispatch_packet-OwnedResult :
    {start : Run} (f : From) (p : Segment) (r : Run)
    → Owned start r
    → OwnedResult start (dispatch_packet f p r)
unfolding dispatch_packet
dispatch_packet-OwnedResult f p r v = dispatch_in-Owned r.conn.state f p r v
