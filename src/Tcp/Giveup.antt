-- ===== src/Tcp/Giveup.antt =====
-- A connection that hears nothing: its first timer ends it.
use trans_proxy.Base.{
  ℕ, zero, suc, ◌+◌, ◌≤◌, ◌<◌, ◌≡◌, refl, ap, ◌∙◌, true, false, inl, inr, Bool-cases, Option, none,
  some, List, ltb, ltb→lt, lt→ltb, arith,
}
use trans_proxy.Map.{◌>>=◌}
use trans_proxy.Trans.Segment.{Flags, no_flags}
use trans_proxy.Tcp.State.{
  State, closed, syn_sent, syn_recv, last_ack, fin_wait_1, fin_wait_2, closing, Endpoint,
  send_packet, ack_flag,
}
use trans_proxy.Tcp.Call.{Listener}
use trans_proxy.Tcp.Timer.{Left, deleted, running, give_up, retry, retry_closing, timeout_in, fire1}

-- A timer that is armed fires; one that is not armed never does.
unfoldable pub fire_armed : Option ℕ → List ℕ → Listener → Endpoint → Option Left
unfolding fire1
fire_armed none stack user e = some (running e)
fire_armed (some t) stack user e = fire1 stack user e

-- The first timer, up to `n` times, with nothing else between.
unfoldable pub fires : ℕ → List ℕ → Listener → Left → Option Left
unfolding fire_armed
fires zero stack user left = some left
fires (suc n) stack user deleted = some deleted
fires (suc n) stack user (running e) = fire_armed e.timer1 stack user e >>= fires n stack user

-- The states in which a connection waits for an answer and gives up.
pub data Waiting : State → Type 0 where
  in_syn_sent : Waiting syn_sent
  in_syn_recv : Waiting syn_recv
  in_last_ack : Waiting last_ack
  in_fin_wait_1 : Waiting fin_wait_1
  in_fin_wait_2 : Waiting fin_wait_2

fires_deleted :
    (n : ℕ) (stack : List ℕ) (user : Listener) → fires n stack user deleted ≡ some deleted
unfolding fires
fires_deleted zero stack user = refl
fires_deleted (suc n) stack user = refl

-- One round of a connection in the state `s`, which gives the connection `r`.
one_round :
    (n : ℕ) (stack : List ℕ) (user : Listener) (s : State) (t : ℕ) (left : Left) (e : Endpoint)
    → e.state ≡ s
    → e.timer1 ≡ some t
    → timeout_in s stack user (record e { timer1 = none }) ≡ some left
    → fires (suc n) stack user (running e) ≡ fires n stack user left
unfolding fires fire_armed fire1
one_round n stack user s t left e h k o =
    ap (λ x. fire_armed x stack user e >>= fires n stack user) k
    ∙ ap (λ x. timeout_in x stack user (record e { timer1 = none }) >>= fires n stack user) h
    ∙ ap (λ x. x >>= fires n stack user) o

-- A closed connection is deleted.
when_closed :
    (n : ℕ) (stack : List ℕ) (user : Listener) (t : ℕ) (e : Endpoint)
    → e.state ≡ closed
    → e.timer1 ≡ some t
    → 0 < n
    → fires n stack user (running e) ≡ some deleted
unfolding timeout_in
when_closed zero stack user t e h k pos = absurd (omega arith)
when_closed (suc n) stack user t e h k pos =
    one_round n stack user closed t deleted e h k refl ∙ fires_deleted n stack user

retry_more :
    (flags : Flags) (e : Endpoint)
    → ltb e.retry_count 3 ≡ true
    → let r = retry flags e in
      (r.state ≡ e.state) × (r.timer1 ≡ some 3000) × (r.retry_count ≡ e.retry_count + 1)
unfolding retry send_packet
retry_more flags e h = rw h (refl, refl, refl)

retry_end :
    (flags : Flags) (e : Endpoint)
    → ltb e.retry_count 3 ≡ false
    → let r = retry flags e in (r.state ≡ closed) × (r.timer1 ≡ some 0)
unfolding retry give_up send_packet
retry_end flags e h = rw h (refl, refl)

-- A state that sends its packet again.
retrying :
    (n : ℕ) (stack : List ℕ) (user : Listener) (flags : Flags) (s : State) (t : ℕ) (e : Endpoint)
    → ((e : Endpoint) → timeout_in s stack user e ≡ some (running (retry flags e)))
    → e.state ≡ s
    → e.timer1 ≡ some t
    → 5 ≤ n + e.retry_count
    → 2 ≤ n
    → fires n stack user (running e) ≡ some deleted
retrying zero stack user flags s t e again h k enough two = absurd (omega arith)
retrying (suc n) stack user flags s t e again h k enough two =
    let e' = record e { timer1 = none } in
    one_round n stack user s t (running (retry flags e')) e h k (again e')
    ∙ elim (Bool-cases (ltb e'.retry_count 3)) [
      | inl b ↦
          let (same, armed, count) = retry_more flags e' b in
          retrying n stack user flags s 3000 (retry flags e') again (same ∙ h) armed
            (omega (arith, count)) (omega (arith, ltb→lt e.retry_count 3 b))
      | inr b ↦
          let (ended, armed) = retry_end flags e' b in
          when_closed n stack user 0 (retry flags e') ended armed (omega arith)
    ]

giving_up : (e : Endpoint) → let r = give_up e in (r.state ≡ closed) × (r.timer1 ≡ some 0)
unfolding give_up send_packet
giving_up e = (refl, refl)

by_state :
    (stack : List ℕ) (user : Listener) (t : ℕ) (e : Endpoint) {s : State}
    → Waiting s
    → e.state ≡ s
    → e.timer1 ≡ some t
    → fires 5 stack user (running e) ≡ some deleted
unfolding timeout_in
by_state stack user t e in_syn_sent h k =
    retrying 5 stack user (record no_flags { syn = true }) syn_sent t e (λ e. refl) h k
      (omega arith) (omega arith)
by_state stack user t e in_syn_recv h k =
    retrying 5 stack user (record ack_flag { syn = true }) syn_recv t e (λ e. refl) h k
      (omega arith) (omega arith)
by_state stack user t e in_last_ack h k =
    retrying 5 stack user (record ack_flag { fin = true }) last_ack t e (λ e. refl) h k
      (omega arith) (omega arith)
by_state stack user t e in_fin_wait_1 h k =
    retrying 5 stack user (record ack_flag { fin = true }) fin_wait_1 t e (λ e. refl) h k
      (omega arith) (omega arith)
by_state stack user t e in_fin_wait_2 h k =
    let e' = record e { timer1 = none } in
    one_round 4 stack user fin_wait_2 t (running (give_up e')) e h k refl
    ∙ when_closed 4 stack user 0 (give_up e') (giving_up e').0 (giving_up e').1 (omega arith)

-- A connection that waits for an answer, in SYN_SENT, SYN_RECV, LAST_ACK, FIN_WAIT_1 or FIN_WAIT_2 with
-- its first timer armed, and hears nothing more, is deleted when the timer has fired at most five times.
pub Waiting-ends :
    (stack : List ℕ) (user : Listener) (t : ℕ) (e : Endpoint)
    → Waiting e.state
    → e.timer1 ≡ some t
    → fires 5 stack user (running e) ≡ some deleted
Waiting-ends stack user t e w k = by_state stack user t e w refl k

-- When no timer is armed, nothing happens.
unarmed :
    (n : ℕ) (stack : List ℕ) (user : Listener) (e : Endpoint)
    → e.timer1 ≡ none
    → fires n stack user (running e) ≡ some (running e)
unfolding fires fire_armed
unarmed zero stack user e h = refl
unarmed (suc n) stack user e h =
    ap (λ x. fire_armed x stack user e >>= fires n stack user) h ∙ unarmed n stack user e h

retry_closing_more :
    (e : Endpoint)
    → ltb e.retry_count 3 ≡ true
    → let r = retry_closing e in (r.state ≡ e.state) × (r.timer1 ≡ e.timer1)
unfolding retry_closing send_packet
retry_closing_more e h = rw h (refl, refl)

-- A connection in CLOSING with its timer armed, that was not asked three times yet and hears nothing
-- more, is never deleted: after one more packet it stays in CLOSING and no timer is armed.
pub closing_waits :
    (n : ℕ) (stack : List ℕ) (user : Listener) (t : ℕ) (e : Endpoint)
    → e.state ≡ closing
    → e.timer1 ≡ some t
    → e.retry_count < 3
    → (r : Endpoint) × (fires (suc n) stack user (running e) ≡ some (running r))
      × (r.state ≡ closing)
      × (r.timer1 ≡ none)
unfolding timeout_in
closing_waits n stack user t e h k few =
    let e' = record e { timer1 = none } in
    let r = retry_closing e' in
    let (same, quiet) = retry_closing_more e' (lt→ltb e.retry_count 3 few) in
    (
      r,
      one_round n stack user closing t (running r) e h k refl ∙ unarmed n stack user r quiet,
      same ∙ h,
      quiet,
    )
