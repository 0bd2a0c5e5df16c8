-- ===== src/Trans/Conn/Idle.antt =====
-- The timer of a connection: every firing leads it nearer to its end.
use trans_proxy.Base.{
  ℕ, suc, zero, ◌+◌, ◌-◌, ◌≤◌, ◌<◌, ◌≡◌, ◌∙◌, refl, Option, none, some, List, Bool-cases, inl, inr,
  ltb, ltb→lt, arith,
}
use trans_proxy.Map.{◌>>=◌}
use trans_proxy.Trans.Segment.{Flags}
use trans_proxy.Trans.Auth.{Auth, send_auth_request}
use trans_proxy.Trans.Conn.{
  From, from_client, from_proxy, State, closed, syn_sent, syn_received, auth, establishing,
  established, fin_wait, closing, Run, send_packet, send_segment, close, set_closed, answer_calls,
  auth_send_request, timeout_in, establishing_send_request, closing_send_request, attempt, Left,
  deleted, running, on_timeout, fire,
}
use trans_proxy.Trans.Conn.Lifetime.{Waits, Present, Shakes, IsLive, Keeps, answer_calls-Keeps}

-- How often the timer of a connection fires at most before it is deleted, if no packet comes.
abbrev pub fires_in : State → ℕ → ℕ
fires_in closed n = 1
fires_in fin_wait n = 2
fires_in closing n = 3 - n + 2
fires_in auth n = 3 - n + 6
fires_in establishing n = 3 - n + 6
fires_in _ n = 6

abbrev pub fires_left : Run → ℕ
fires_left r = fires_in r.conn.state r.conn.retry_count

-- What a timer leaves: nothing, or a live connection that is nearer to its end.
pub data Fired (n : ℕ) : Option Left → Type 0 where
  ended : Fired n (some deleted)
  left : (r : Run) → IsLive r → fires_left r + 1 ≤ n → Fired n (some (running r))

send_segment-Keeps :
    (f : From) (flags : Flags) (seq ack_seq window_size : ℕ) (bytes : List ℕ) (r : Run)
    → Keeps r.conn (send_segment f flags seq ack_seq window_size bytes r).conn
unfolding send_segment send_packet
send_segment-Keeps from_client flags seq ack_seq window_size bytes r = (refl, refl, refl, refl)
send_segment-Keeps from_proxy flags seq ack_seq window_size bytes r = (refl, refl, refl, refl)

auth_send_request-Keeps :
    (h : Option Auth) (r : Run)
    → Present h
    → (q : Run) × (auth_send_request h r ≡ some q) × Keeps r.conn q.conn
unfolding auth_send_request
auth_send_request-Keeps none r p = absurd p
auth_send_request-Keeps (some a) r p =
    (answer_calls (send_auth_request a) r, refl, answer_calls-Keeps (send_auth_request a) r)

establishing_send_request-Keeps : (r : Run) → Keeps r.conn (establishing_send_request r).conn
unfolding establishing_send_request send_packet
establishing_send_request-Keeps r = (refl, refl, refl, refl)

closing_send_request-Keeps : (r : Run) → Keeps r.conn (closing_send_request r).conn
unfolding closing_send_request send_packet
closing_send_request-Keeps r = elim (Bool-cases r.conn.client_fin) [
  | inl e ↦ elim (Bool-cases r.conn.proxy_fin) [
    | inl d ↦ rw (e, d) (refl, refl, refl, refl)
    | inr d ↦ rw (e, d) (refl, refl, refl, refl)
  ]
  | inr e ↦ elim (Bool-cases r.conn.proxy_fin) [
    | inl d ↦ rw (e, d) (refl, refl, refl, refl)
    | inr d ↦ rw (e, d) (refl, refl, refl, refl)
  ]
]

-- An attempt leaves its state with one attempt less, the last one leaves what `timeout` does.
attempt-Fired :
    (s : State) (n : ℕ) (fn : Run → Option Run) (timeout : Run → Run) (r q : Run)
    → let r1 = record r { conn = record (r.conn) { retry_count = r.conn.retry_count + 1 } } in
      (fn r1 ≡ some q)
      → Keeps r1.conn q.conn
      → r.conn.state ≡ s
      → Shakes s r.conn.handshake
      → (r.conn.retry_count < 3 → fires_in s (r.conn.retry_count + 1) + 1 ≤ n)
      → IsLive (timeout r1)
      → (fires_left (timeout r1) + 1 ≤ n)
      → Fired n (attempt fn timeout r >>= λ q'. some (running q'))
attempt-Fired s n fn timeout r q g (_, st, hs, rc) e h less t last =
    elim (Bool-cases (ltb r.conn.retry_count 3)) [
      | inl b ↦
          rw (b, g)
            (left (record q { conn = record (q.conn) { timer = some 3000 } })
              (record { waits = tt; shakes = rw (st, e, hs) h })
              (rw (st, e, rc) (less (ltb→lt r.conn.retry_count 3 b))))
      | inr b ↦ rw b (left _ t last)
    ]

timeout_in-Fired :
    (s : State) (r : Run)
    → r.conn.state ≡ s
    → Shakes s r.conn.handshake
    → Fired (fires_in s r.conn.retry_count) (timeout_in s r)
unfolding timeout_in
timeout_in-Fired closed r e h = ended
timeout_in-Fired syn_sent r e h = left _ (record { waits = tt; shakes = tt }) (omega arith)
timeout_in-Fired syn_received r e h = left _ (record { waits = tt; shakes = tt }) (omega arith)
timeout_in-Fired established r e h = left _ (record { waits = tt; shakes = tt }) (omega arith)
timeout_in-Fired fin_wait r e h = left _ (record { waits = tt; shakes = tt }) (omega arith)
timeout_in-Fired auth r e h =
    let r1 = record r { conn = record (r.conn) { retry_count = r.conn.retry_count + 1 } } in
    let (q, g, kept) = auth_send_request-Keeps r.conn.handshake r1 h in
    attempt-Fired auth _ (auth_send_request r.conn.handshake) close r q g kept e h
      (λ b. omega arith) (record { waits = tt; shakes = tt }) (omega arith)
timeout_in-Fired establishing r e h =
    let r1 = record r { conn = record (r.conn) { retry_count = r.conn.retry_count + 1 } } in
    attempt-Fired establishing _ (λ q. some (establishing_send_request q)) close r
      (establishing_send_request r1) refl (establishing_send_request-Keeps r1) e h
      (λ b. omega arith) (record { waits = tt; shakes = tt }) (omega arith)
timeout_in-Fired closing r e h =
    let r1 = record r { conn = record (r.conn) { retry_count = r.conn.retry_count + 1 } } in
    attempt-Fired closing _ (λ q. some (closing_send_request q)) set_closed r
      (closing_send_request r1) refl (closing_send_request-Keeps r1) e h (λ b. omega arith)
      (record { waits = tt; shakes = tt }) (omega arith)

-- A timer that fires either deletes the connection, or leaves it with its timer armed again and its
-- handshake at hand, and nearer to its end.
pub fire-Fired : (r : Run) → IsLive r → Fired (fires_left r) (fire r)
unfolding fire on_timeout
fire-Fired r v =
    timeout_in-Fired r.conn.state (record r { conn = record (r.conn) { timer = none } }) refl
      v.shakes

-- What `f` makes of the connection that a timer has left.
next : (Run → Option Left) → Option Left → Option Left
next f none = none
next f (some deleted) = some deleted
next f (some (running r)) = f r

-- What comes of a timer: nothing where it is not armed.
armed : Option ℕ → Run → Option Left → Option Left
armed none r o = some (running r)
armed (some t) r o = o

armed-Waits : (t : Option ℕ) (r : Run) (o : Option Left) → Waits t → armed t r o ≡ o
unfolding armed
armed-Waits none r o w = absurd w
armed-Waits (some t) r o w = refl

-- The timer of a connection fires `n` times, or until the connection is deleted or its timer is not
-- armed.
unfoldable pub idle : ℕ → Run → Option Left
unfolding fire next armed
idle zero r = some (running r)
idle (suc n) r = armed r.conn.timer r (next (idle n) (fire r))

fires_in_pos : (s : State) (n : ℕ) → 0 < fires_in s n
fires_in_pos closed n = omega arith
fires_in_pos syn_sent n = omega arith
fires_in_pos syn_received n = omega arith
fires_in_pos auth n = omega arith
fires_in_pos establishing n = omega arith
fires_in_pos established n = omega arith
fires_in_pos fin_wait n = omega arith
fires_in_pos closing n = omega arith

fires_in_bound : (s : State) (n : ℕ) → fires_in s n ≤ 9
fires_in_bound closed n = omega arith
fires_in_bound syn_sent n = omega arith
fires_in_bound syn_received n = omega arith
fires_in_bound auth n = omega arith
fires_in_bound establishing n = omega arith
fires_in_bound established n = omega arith
fires_in_bound fin_wait n = omega arith
fires_in_bound closing n = omega arith

next-Fired :
    (m n : ℕ) (o : Option Left)
    → Fired m o
    → m ≤ n + 1
    → ((r : Run) → IsLive r → fires_left r ≤ n → idle n r ≡ some deleted)
    → next (idle n) o ≡ some deleted
unfolding next
next-Fired m n _ ended le f = refl
next-Fired m n _ (left r v less) le f = f r v (omega arith)

idle_enough : (n : ℕ) (r : Run) → IsLive r → fires_left r ≤ n → idle n r ≡ some deleted
unfolding idle
idle_enough zero r v le = absurd (omega (arith, fires_in_pos r.conn.state r.conn.retry_count))
idle_enough (suc n) r v le =
    armed-Waits r.conn.timer r (next (idle n) (fire r)) v.waits
    ∙ next-Fired (fires_left r) n (fire r) (fire-Fired r v) (omega arith) (idle_enough n)

-- A live connection to which no packet comes any more is deleted after nine firings of its timer at
-- most.
pub idle_lem : (r : Run) → IsLive r → idle 9 r ≡ some deleted
idle_lem r v = idle_enough 9 r v (fires_in_bound r.conn.state r.conn.retry_count)
