-- ===== src/Trans/Conn/Owner/Events.antt =====
-- The packets that a connection sends in its whole life: behind packets and behind its timer.
use trans_proxy.Base.{ℕ, ◌+◌, ◌≡◌, true, refl, subst, Bool-cases, inl, inr, Option, none, some, ltb}
use trans_proxy.Map.{◌>>=◌}
use trans_proxy.Trans.Segment.{Segment, no_flags}
use trans_proxy.Trans.Auth.{Auth, send_auth_request}
use trans_proxy.Trans.Conn.{
  From, from_client, from_proxy, State, closed, syn_sent, syn_received, auth, establishing,
  established, fin_wait, closing, Run, close, set_closed, auth_send_request, timeout_in,
  establishing_send_request, closing_send_request, attempt, Left, deleted, running, on_timeout,
  fire, dispatch_packet,
}
use trans_proxy.Trans.Conn.Lifetime.{IsLive, dispatch_packet-IsLive}
use trans_proxy.Trans.Conn.Idle.{Fired, ended, left, fire-Fired}
use trans_proxy.Trans.Conn.Owner.{
  Owned, OwnedResult, none_since, kept, if-Owned, send_segment-Owned, answer_calls-Owned,
  dispatch_packet-OwnedResult,
}

-- What a timer leaves, if anything, has sent only its own packets.
abbrev pub OwnedLeft : Run → Left → Type 0
OwnedLeft start deleted = Unit {0}
OwnedLeft start (running r) = Owned start r

abbrev OwnedAfter : Run → Option Left → Type 0
OwnedAfter start none = Unit {0}
OwnedAfter start (some l) = OwnedLeft start l

auth_send_request-Owned :
    {start : Run} (h : Option Auth) (r : Run)
    → Owned start r
    → OwnedResult start (auth_send_request h r)
unfolding auth_send_request
auth_send_request-Owned none r v = tt
auth_send_request-Owned (some a) r v = answer_calls-Owned (send_auth_request a) r v

establishing_send_request-Owned :
    {start : Run} (r : Run) → Owned start r → Owned start (establishing_send_request r)
unfolding establishing_send_request
establishing_send_request-Owned r v =
    send_segment-Owned from_client no_flags _ _ _ _ _
      (send_segment-Owned from_proxy no_flags _ _ _ _ r v)

closing_send_request-Owned :
    {start : Run} (r : Run) → Owned start r → Owned start (closing_send_request r)
unfolding closing_send_request
closing_send_request-Owned r v =
    let flags = record no_flags { fin = true } in
    let w = if-Owned r.conn.client_fin r _ v (send_segment-Owned from_proxy flags _ _ _ _ r v) in
    if-Owned r.conn.proxy_fin _ _ w (send_segment-Owned from_client flags _ _ _ _ _ w)

rearmed-OwnedAfter :
    (start : Run) (o : Option Run)
    → OwnedResult start o
    → OwnedAfter start (
        o >>= (λ q. some (record q { conn = record (q.conn) { timer = some 3000 } })) >>= λ q.
        some (running q))
rearmed-OwnedAfter start none v = tt
rearmed-OwnedAfter start (some q) v = kept v refl (refl, refl, refl)

attempt-OwnedAfter :
    {start : Run} (fn : Run → Option Run) (timeout : Run → Run) (r : Run)
    → let r1 = record r { conn = record (r.conn) { retry_count = r.conn.retry_count + 1 } } in
      OwnedResult start (fn r1)
      → Owned start (timeout r1)
      → OwnedAfter start (attempt fn timeout r >>= λ q. some (running q))
attempt-OwnedAfter {start} fn timeout r v w = elim (Bool-cases (ltb r.conn.retry_count 3)) [
  | inl b ↦ rw b (rearmed-OwnedAfter start _ v)
  | inr b ↦ rw b w
]

timeout_in-OwnedAfter :
    {start : Run} (s : State) (r : Run) → Owned start r → OwnedAfter start (timeout_in s r)
unfolding timeout_in
timeout_in-OwnedAfter closed r v = tt
timeout_in-OwnedAfter syn_sent r v = kept v refl (refl, refl, refl)
timeout_in-OwnedAfter syn_received r v = kept v refl (refl, refl, refl)
timeout_in-OwnedAfter established r v = kept v refl (refl, refl, refl)
timeout_in-OwnedAfter fin_wait r v = kept v refl (refl, refl, refl)
timeout_in-OwnedAfter auth r v =
    attempt-OwnedAfter (auth_send_request r.conn.handshake) close r
      (auth_send_request-Owned r.conn.handshake _ (kept v refl (refl, refl, refl)))
      (kept v refl (refl, refl, refl))
timeout_in-OwnedAfter establishing r v =
    attempt-OwnedAfter (λ q. some (establishing_send_request q)) close r
      (establishing_send_request-Owned _ (kept v refl (refl, refl, refl)))
      (kept v refl (refl, refl, refl))
timeout_in-OwnedAfter closing r v =
    attempt-OwnedAfter (λ q. some (closing_send_request q)) set_closed r
      (closing_send_request-Owned _ (kept v refl (refl, refl, refl)))
      (kept v refl (refl, refl, refl))

fire-OwnedAfter : {start : Run} (r : Run) → Owned start r → OwnedAfter start (fire r)
unfolding fire on_timeout
fire-OwnedAfter r v = timeout_in-OwnedAfter r.conn.state _ (kept v refl (refl, refl, refl))

-- What has come to a connection since it was `start`.
pub data Lived (start : Run) : Run → Type 0 where
  begun : Lived start start
  on_packet :
      (f : From) (p : Segment) (r r' : Run)
      → Lived start r
      → dispatch_packet f p r ≡ some r'
      → Lived start r'
  on_timer : (r r' : Run) → Lived start r → fire r ≡ some (running r') → Lived start r'

abbrev LiveLeft : Option Left → Type 0
LiveLeft none = Unit {0}
LiveLeft (some deleted) = Unit {0}
LiveLeft (some (running r)) = IsLive r

Fired-LiveLeft : {n : ℕ} (o : Option Left) → Fired n o → LiveLeft o
Fired-LiveLeft o ended = tt
Fired-LiveLeft o (left r v less) = v

abbrev LiveResult : Option Run → Type 0
LiveResult none = Unit {0}
LiveResult (some r) = IsLive r

dispatch_packet-LiveResult :
    (f : From) (p : Segment) (r : Run) → IsLive r → LiveResult (dispatch_packet f p r)
dispatch_packet-LiveResult f p r v = let (r', e, w) = dispatch_packet-IsLive f p r v in rw e w

still-IsLive : {start r : Run} → IsLive start → Lived start r → IsLive r
still-IsLive v begun = v
still-IsLive v (on_packet f p r r' before e) =
    subst LiveResult e (dispatch_packet-LiveResult f p r (still-IsLive v before))
still-IsLive v (on_timer r r' before e) =
    subst LiveLeft e (Fired-LiveLeft (fire r) (fire-Fired r (still-IsLive v before)))

still-Owned : {start r : Run} → Lived start r → Owned start r
still-Owned {start} begun = none_since start
still-Owned {start} (on_packet f p r r' before e) =
    subst (OwnedResult start) e (dispatch_packet-OwnedResult f p r (still-Owned before))
still-Owned {start} (on_timer r r' before e) =
    subst (OwnedAfter start) e (fire-OwnedAfter r (still-Owned before))

Fired-some : {n : ℕ} (o : Option Left) → Fired n o → (l : Left) × (o ≡ some l)
Fired-some o ended = (deleted, refl)
Fired-some o (left r v less) = (running r, refl)

-- Whatever packets and firings of its timer a live connection has seen: it has the addresses that it
-- had, what it has sent since goes only from its agent to the upstream proxy and from the server to the
-- client, and the next packet and the next firing succeed and keep this so.
pub Lived-Owned :
    (start r : Run) (f : From) (p : Segment)
    → IsLive start
    → Lived start r
    → Owned start r
      × ((r' : Run) × (dispatch_packet f p r ≡ some r') × Owned start r')
      × ((l : Left) × (fire r ≡ some l) × OwnedLeft start l)
Lived-Owned start r f p v life =
    let live = still-IsLive v life in
    let owned = still-Owned life in
    let (r', e, _) = dispatch_packet-IsLive f p r live in
    let (l, d) = Fired-some (fire r) (fire-Fired r live) in
    (
      owned,
      (r', e, still-Owned (on_packet f p r r' life e)),
      (l, d, subst (OwnedAfter start) d (fire-OwnedAfter r owned)),
    )
