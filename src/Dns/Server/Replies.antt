-- ===== src/Dns/Server/Replies.antt =====
-- The answer of `DNS::onReceived` to a query for one name.
use trans_proxy.Base.{
  ℕ, ◌+◌, ◌/◌, ◌%◌, ◌^◌, ◌<◌, ◌≡◌, ◌≢◌, refl, ap, ap₂, arith, ◌∙◌, false, some, List, [], ◌∷◌, ◌++◌,
  !=_iff, drop, none, ==_self,
}
use trans_proxy.Map.{◌>>=◌}
use trans_proxy.Map.Sorted.{All}
use trans_proxy.Text.{Text, eq}
use trans_proxy.Net.Sock.{SockAddr}
use trans_proxy.Resolver
use trans_proxy.Resolver.{Resolver}
use trans_proxy.Dns.Agent
use trans_proxy.Dns.Agent.{Agent, join_id, table_size, answered_twice}
use trans_proxy.Dns.Server.{
  Dns, log, send, ask, is_question, with_top, flagged, counted, record_a, own_name, look_up, answer,
  put_request, on_question, on_received, deliver, on_agent_response,
}
use trans_proxy.Dns.Server.Query.{wire, dots, IsLabel, query, question_read}

looked_up :
    (addr : SockAddr) (name : Text) (d : Dns) (ip : ℕ) (r : Resolver)
    → eq name own_name ≡ false
    → Resolver.dns addr.ip name d.resolver ≡ some (ip, r)
    → look_up addr name d ≡ some (ip, record d { resolver = r })
unfolding look_up
looked_up addr name d ip r other e =
    rw other (ap (λ o. o >>= λ (n, x). some (n, record d { resolver = x })) e)

top_set : (f : ℕ) → f < 256 → with_top f ≡ f % 128 + 128
top_set f h = ground arith

answered :
    (addr : SockAddr) (i i' f f' : ℕ) (l : Text) (ls : List Text) (ip : ℕ) (d : Dns)
    → ip ≢ 0
    → answer addr (query i i' f f' l ls 1) (l ++ dots ls) 1 1 ip d
      ≡ some (
          log addr.ip (l ++ dots ls) ip (
            send addr
              ((i
                  ∷ i'
                  ∷ with_top f
                  ∷ with_top f'
                  ∷ 0
                  ∷ 1
                  ∷ 0
                  ∷ 1
                  ∷ 0
                  ∷ 0
                  ∷ 0
                  ∷ 0
                  ∷ (wire (l ∷ ls) ++ (0 ∷ 1 ∷ 0 ∷ 1 ∷ [])))
                ++ record_a ip)
              d))
unfolding answer flagged counted query
answered addr i i' f f' l ls ip d n = rw ((!=_iff ip 0).1 n) refl

-- A query with one question, answered by what follows the look-up.
one_question :
    (addr : SockAddr) (i i' f f' : ℕ) (l : Text) (ls : List Text) (qtype ip : ℕ) (d : Dns)
    (r : Resolver)
    → All IsLabel (l ∷ ls)
    → eq (l ++ dots ls) own_name ≡ false
    → Resolver.dns addr.ip (l ++ dots ls) d.resolver ≡ some (ip, r)
    → on_received addr (query i i' f f' l ls qtype) d
      ≡ answer addr
          (query i i' f f' l ls qtype)
          (l ++ dots ls)
          qtype
          1
          ip
          (record d { resolver = r })
unfolding on_received is_question query on_question look_up
one_question addr i i' f f' l ls qtype ip d r a other e =
    let name = l ++ dots ls in
    let bytes = query i i' f f' l ls qtype in
    ap (λ o. o >>= λ (h, t, c). look_up addr h d >>= λ (n, d'). answer addr bytes h t c n d')
      (question_read i i' f f' l ls qtype a)
    ∙ ap (λ o. o >>= λ (n, d'). answer addr bytes name qtype 1 n d')
        (looked_up addr name d ip r other e)

-- The answer with an address: the name at byte 12 of the query, type A, class IN, no time to live, and the
-- four bytes of the address, the highest first.
abbrev pub address_answer : ℕ → List ℕ
address_answer ip =
    (192 ∷ 12 ∷ [])
    ++ (0 ∷ 1 ∷ 0 ∷ 1 ∷ [])
    ++ (0 ∷ 0 ∷ 0 ∷ 0 ∷ [])
    ++ (0 ∷ 4 ∷ ip / 2 ^ 24 % 256 ∷ ip / 2 ^ 16 % 256 ∷ ip / 2 ^ 8 % 256 ∷ ip % 256 ∷ [])

-- A query for the address of a name other than transproxy.cn, of labels that are not empty, have less
-- than 256 bytes and no NUL, for which `dns` gives an address other than 0: the asker is sent the query
-- back, with the top bits of both flag bytes set and one answer counted, and behind it the answer of
-- type A and class IN with the four bytes of that address; the resolver is left as `dns` leaves it, the
-- query is logged and nobody else is asked.
pub on_received-dns :
    (addr : SockAddr) (i i' f f' : ℕ) (l : Text) (ls : List Text) (ip : ℕ) (d : Dns) (r : Resolver)
    → f < 256
    → f' < 256
    → All IsLabel (l ∷ ls)
    → eq (l ++ dots ls) own_name ≡ false
    → Resolver.dns addr.ip (l ++ dots ls) d.resolver ≡ some (ip, r)
    → ip ≢ 0
    → (d' : Dns) × (on_received addr (query i i' f f' l ls 1) d ≡ some d')
      × (d'.sent
          ≡ d.sent
            ++ ((
              addr,
              (i ∷ i' ∷ (f % 128 + 128) ∷ (f' % 128 + 128) ∷ 0 ∷ 1 ∷ 0 ∷ 1 ∷ 0 ∷ 0 ∷ 0 ∷ 0 ∷ [])
                  ++ ((wire (l ∷ ls) ++ (0 ∷ 1 ∷ 0 ∷ 1 ∷ [])) ++ address_answer ip),
            )
                ∷ []))
      × (d'.asked ≡ d.asked)
      × (d'.resolver ≡ r)
      × (d'.logs ≡ (log addr.ip (l ++ dots ls) ip d).logs)
      × (d'.count ≡ (d.count + 1) % 2 ^ 64)
unfolding record_a log send
on_received-dns addr i i' f f' l ls ip d r hf hf' a other e n =
    let name = l ++ dots ls in
    let body =
      (0 ∷ 1 ∷ 0 ∷ 1 ∷ 0 ∷ 0 ∷ 0 ∷ 0 ∷ [])
      ++ ((wire (l ∷ ls) ++ (0 ∷ 1 ∷ 0 ∷ 1 ∷ [])) ++ record_a ip) in
    let sent' : List ℕ = i ∷ i' ∷ with_top f ∷ with_top f' ∷ body in
    (
      log addr.ip name ip (send addr sent' (record d { resolver = r })),
      one_question addr i i' f f' l ls 1 ip d r a other e
          ∙ answered addr i i' f f' l ls ip (record d { resolver = r }) n,
      ap₂ (λ x y. d.sent ++ ((addr, i ∷ i' ∷ x ∷ y ∷ body) ∷ [])) (top_set f hf) (top_set f' hf'),
      refl,
      refl,
      refl,
      refl,
    )

-- The server that has asked for `addr`, with what the agent is and has sent then.
abbrev waiting : SockAddr → Agent ℕ → List ℕ → Dns → Dns
waiting addr g out d = record d {
  agent = g;
  requests = put_request d.next_request (some addr) d.requests;
  next_request = d.next_request + 1;
  asked = d.asked ++ (out ∷ []);
}

passed_on :
    (addr : SockAddr) (i i' f f' : ℕ) (l : Text) (ls : List Text) (d : Dns) (g : Agent ℕ) (id : ℕ)
    (out : List ℕ)
    → Agent.query d.agent d.next_request (query i i' f f' l ls 1) ≡ some (id, g, out)
    → answer addr (query i i' f f' l ls 1) (l ++ dots ls) 1 1 0 d
      ≡ some (waiting addr g out (log addr.ip (l ++ dots ls) 0 d))
unfolding answer ask log
passed_on addr i i' f f' l ls d g id out e =
    ap
      (λ o.
        o >>= λ (n, agent, bytes). some (waiting addr agent bytes (log addr.ip (l ++ dots ls) 0 d)))
      e

responded :
    (bytes : List ℕ) (d : Dns) (name : ℕ) (reply : List ℕ)
    → Agent.on_received d.agent bytes ≡ some (some (name, reply))
    → on_agent_response bytes d ≡ deliver (some (name, reply)) d
unfolding on_agent_response
responded bytes d name reply e = ap (λ o. o >>= λ x. deliver x d) e

-- A query of bytes for a name other than transproxy.cn, of labels that are not empty, have less than 256
-- bytes and no NUL, for which `dns` gives 0, while the table of the agent has room: it is passed on
-- under an id of the agent, and a reply with that id is sent to the asker with the id of the query. A
-- second reply with that id uses the request that the first one has deleted.
pub on_agent_response-on_received :
    (addr : SockAddr) (i i' f f' : ℕ) (l : Text) (ls : List Text) (d : Dns) (r : Resolver)
    (reply again : List ℕ)
    → i < 256
    → i' < 256
    → d.agent.next_id < table_size
    → All IsLabel (l ∷ ls)
    → eq (l ++ dots ls) own_name ≡ false
    → Resolver.dns addr.ip (l ++ dots ls) d.resolver ≡ some (0, r)
    → (asked after : Dns) × (on_received addr (query i i' f f' l ls 1) d ≡ some asked)
      × (asked.asked ≡ d.asked ++ (join_id d.agent.next_id (drop 2 (query i i' f f' l ls 1)) ∷ []))
      × (on_agent_response (join_id d.agent.next_id reply) asked ≡ some after)
      × (after.sent ≡ d.sent ++ ((addr, i ∷ i' ∷ reply) ∷ []))
      × (on_agent_response (join_id d.agent.next_id again) after ≡ none)
unfolding query log deliver
on_agent_response-on_received addr i i' f f' l ls d r reply again hi hi' room a other e =
    let rest = drop 2 (query i i' f f' l ls 1) in
    let name = d.next_request in
    let logged : Dns = log addr.ip (l ++ dots ls) 0 (record d { resolver = r }) in
    let (g, asks, back) = answered_twice d.agent name i i' rest reply again hi hi' room in
    let asked = waiting addr g (join_id d.agent.next_id rest) logged in
    let after : Dns = record (send addr (i ∷ i' ∷ reply) asked) {
      requests = put_request name none asked.requests;
    } in
    (
      asked,
      after,
      one_question addr i i' f f' l ls 1 0 d r a other e
          ∙ passed_on addr i i' f f' l ls (record d { resolver = r }) g d.agent.next_id
              (join_id d.agent.next_id rest) asks,
      refl,
      responded (join_id d.agent.next_id reply) asked name (i ∷ i' ∷ reply) back.0
          ∙ (rw (==_self name) refl),
      refl,
      responded (join_id d.agent.next_id again) after name (i ∷ i' ∷ again) back.1
          ∙ (rw (==_self name) refl),
    )
