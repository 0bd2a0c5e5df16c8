-- ===== src/Dns/Server.antt =====
-- Dev/Main/src/TransProxy/DNS.h and DNS.cpp: queries that are answered with fake addresses, and those
-- that are passed on. `none` is an access outside of the data or of `hostname_buf`, or an abort.
pub mod Query
pub mod Replies
pub mod Logs
mod Tests
use trans_proxy.Base.{
  ℕ, zero, suc, ◌+◌, ◌-◌, ◌*◌, ◌/◌, ◌%◌, ◌^◌, Bool, true, false, not, ◌&&◌, Option, none, some,
  List, [], ◌∷◌, ◌++◌, ltb, leb, ◌==◌, ◌!=◌, length, take, drop, if◌then◌else◌,
}
use trans_proxy.Map.{◌>>=◌}
use trans_proxy.Text.{Text, codes, eq}
use trans_proxy.Net.Sock.{SockAddr}
use trans_proxy.Resolver
use trans_proxy.Resolver.{Resolver}
use trans_proxy.Resolver.File.{c_string}
use trans_proxy.Dns.Agent
use trans_proxy.Dns.Agent.{Agent}

-- `_LogItem`, less the time
pub record LogItem : Type 0 where
  pub client : ℕ
  pub hostname : Text
  pub ip : ℕ

abbrev pub max_logs : ℕ
max_logs = 1000

-- `DNS`. The requests that wait for the agent are named by numbers: `requests` has the address of each
-- that is not deleted, and `next_request` is the name that comes next. `sent` are the datagrams of
-- `_dnsServer`, and `asked` those of the agent.
pub record Dns : Type 0 where
  pub server_ip : ℕ
  pub resolver : Resolver
  pub agent : Agent ℕ
  pub requests : ℕ → Option SockAddr
  pub next_request : ℕ
  pub logs : List LogItem
  pub count : ℕ
  pub sent : List (SockAddr × List ℕ)
  pub asked : List (List ℕ)

abbrev pub remove_first : List LogItem → List LogItem
remove_first [] = []
remove_first (x ∷ xs) = xs

-- `_log`
unfoldable pub log : ℕ → Text → ℕ → Dns → Dns
log client hostname ip d =
    let kept = (if leb max_logs (length d.logs) then remove_first d.logs else d.logs) in
    record d {
      logs = kept ++ (record { client = client; hostname = hostname; ip = ip } ∷ []);
      count = (d.count + 1) % 2 ^ 64;
    }

unfoldable pub send : SockAddr → List ℕ → Dns → Dns
send addr bytes d = record d { sent = d.sent ++ ((addr, bytes) ∷ []) }

abbrev pub put_request : ℕ → Option SockAddr → (ℕ → Option SockAddr) → ℕ → Option SockAddr
put_request name o requests j = if j == name then o else requests j

-- `new _AgentRequest`
unfoldable pub ask : SockAddr → List ℕ → Dns → Option Dns
ask addr bytes d = do
  (id, agent, out) ← Agent.query d.agent d.next_request bytes
  some (record d {
    agent = agent;
    requests = put_request d.next_request (some addr) d.requests;
    next_request = d.next_request + 1;
    asked = d.asked ++ (out ∷ []);
  })

-- `ntohs (*(uint16_t*) a)`, and the bytes behind it.
abbrev pub read_half : List ℕ → Option (ℕ × List ℕ)
read_half [] = none
read_half (a ∷ []) = none
read_half (a ∷ b ∷ rest) = some (a * 256 + b, rest)

-- The loop that copies the labels of the name behind dots: what `hostname_buf` then holds before its
-- NUL, and the bytes behind the name.
unfoldable pub read_labels : ℕ → List ℕ → Option (Text × List ℕ)
read_labels zero bytes = none
read_labels (suc fuel) [] = none
read_labels (suc fuel) (l ∷ a) =
    let rest = read_labels fuel (drop l a) in
    if l == 0
    then some ([], a)
    else if ltb (length a) l
    then none
    else (rest >>= λ (buf, behind). some ((b'.' ∷ take l a) ++ buf, behind))

-- `hostname_buf + 1`: a name with no labels leaves nothing there.
abbrev pub behind_dot : Text → Option Text
behind_dot [] = none
behind_dot (c ∷ s) = some (c_string s)

-- The first question: the name, QTYPE and QCLASS. `hostname_buf` has `bytes - 16` bytes.
unfoldable pub question_of : ℕ → Text → List ℕ → Option (Text × ℕ × ℕ)
unfolding c_string
question_of bytes buf a = do
  hostname ← behind_dot buf
  (qtype, a') ← read_half a
  (qclass, _) ← read_half a'
  if ltb bytes 16
      then none
      else if ltb (bytes - 16) (length buf + 1)
      then none
      else some (hostname, qtype, qclass)

unfoldable pub read_question : List ℕ → Option (Text × ℕ × ℕ)
unfolding read_labels question_of
read_question bytes =
    read_labels (length bytes) (drop 12 bytes) >>= λ (buf, a). question_of (length bytes) buf a

-- QDCOUNT is 1 and the three other counts are 0.
unfoldable pub is_question : List ℕ → Option Bool
is_question (_ ∷ _ ∷ _ ∷ _ ∷ q ∷ q' ∷ a ∷ a' ∷ n ∷ n' ∷ r ∷ r' ∷ _) = some (
    (q * 256 + q' == 1)
    && ((a == 0) && (a' == 0))
    && ((n == 0) && (n' == 0))
    && ((r == 0) && (r' == 0)))
is_question _ = none

-- `| 0x80` for a byte
abbrev pub with_top : ℕ → ℕ
with_top b = if ltb b 128 then b + 128 else b

-- The response to AAAA: the query with QR and RA.
unfoldable pub flagged : List ℕ → List ℕ
flagged (i ∷ i' ∷ f ∷ f' ∷ rest) = i ∷ i' ∷ with_top f ∷ with_top f' ∷ rest
flagged bytes = bytes

-- ANCOUNT = 1
unfoldable pub counted : List ℕ → List ℕ
counted (i ∷ i' ∷ f ∷ f' ∷ q ∷ q' ∷ a ∷ a' ∷ rest) = i ∷ i' ∷ f ∷ f' ∷ q ∷ q' ∷ 0 ∷ 1 ∷ rest
counted bytes = bytes

-- The answer that refers to the name in the query.
unfoldable pub record_a : ℕ → List ℕ
record_a ip =
    192
    ∷ 12
    ∷ 0
    ∷ 1
    ∷ 0
    ∷ 1
    ∷ 0
    ∷ 0
    ∷ 0
    ∷ 0
    ∷ 0
    ∷ 4
    ∷ ip / 2 ^ 24 % 256
    ∷ ip / 2 ^ 16 % 256
    ∷ ip / 2 ^ 8 % 256
    ∷ ip % 256
    ∷ []

abbrev pub own_name : Text
own_name = codes "transproxy.cn"

-- The address of the name.
unfoldable pub look_up : SockAddr → Text → Dns → Option (ℕ × Dns)
unfolding eq Resolver.dns
look_up addr hostname d =
    if eq hostname own_name
    then some (d.server_ip, d)
    else (Resolver.dns addr.ip hostname d.resolver >>= λ (ip, r).
        some (ip, record d { resolver = r }))

-- What follows the look-up.
unfoldable pub answer : SockAddr → List ℕ → Text → (qtype qclass ip : ℕ) → Dns → Option Dns
unfolding log send ask flagged counted record_a
answer addr bytes hostname qtype qclass ip d =
    if (qtype == 1) && (qclass == 1)
    then (if ip != 0
        then some (log addr.ip hostname ip (send addr (counted (flagged bytes) ++ record_a ip) d))
        else ask addr bytes (log addr.ip hostname 0 d))
    else if (qtype == 28) && (qclass == 1)
    then (if ip != 0 then some (send addr (flagged bytes) d) else ask addr bytes d)
    else ask addr bytes d

-- The branch of a query with one question.
unfoldable pub on_question : SockAddr → List ℕ → Dns → Option Dns
unfolding read_question look_up answer
on_question addr bytes d = do
  (hostname, qtype, qclass) ← read_question bytes
  (ip, d') ← look_up addr hostname d
  answer addr bytes hostname qtype qclass ip d'

-- `onReceived`
unfoldable pub on_received : SockAddr → List ℕ → Dns → Option Dns
unfolding is_question on_question ask
on_received addr bytes d = do
  one ← is_question bytes
  if one then on_question addr bytes d else ask addr bytes d

-- `onDnsAgentResponse`: the request is deleted, with an `_id` that keeps the destructor from `cancel`.
-- `none` is the use of a request that is deleted.
unfoldable pub deliver : Option (ℕ × List ℕ) → Dns → Option Dns
unfolding send
deliver none d = some d
deliver (some (name, bytes)) d = d.requests name >>= λ addr.
    some (record (send addr bytes d) { requests = put_request name none d.requests })

-- An answer of the server above: `onReceived` of the agent, and `onDnsAgentResponse`.
unfoldable pub on_agent_response : List ℕ → Dns → Option Dns
unfolding deliver
on_agent_response bytes d = Agent.on_received d.agent bytes >>= λ o. deliver o d
