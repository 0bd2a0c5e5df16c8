-- ===== src/Dns/Server/Tests.antt =====
-- A query for a.com.
use trans_proxy.Base.{
  ◌≤◌, ◌≡◌, refl, true, false, none, some, List, [], ◌∷◌, ◌++◌, length, drop, arith,
}
use trans_proxy.Map.{adjust}
use trans_proxy.Text.{codes, eq, gt}
use trans_proxy.Text.Order.{text_key}
use trans_proxy.Net.Compare.{Agree-key}
use trans_proxy.Net.Sock.{SockAddr}
use trans_proxy.Tcp.Server.{number_key}
use trans_proxy.Resolver
use trans_proxy.Resolver.{Resolver, fresh, any_denies, any_accepts}
use trans_proxy.Dns.Agent.{join_id}
use trans_proxy.Dns.Server.{LogItem, Dns, max_logs, log, on_received, on_agent_response}
use trans_proxy.Dns.Server.Query.{wire, dots, IsLabel, query}
use trans_proxy.Dns.Server.Replies.{on_received-dns, on_agent_response-on_received}
use trans_proxy.Dns.Server.Logs.{log_all, newest, log_all_lem}

abbrev asker : SockAddr
asker = record { ip = 7; port = 5353 }

abbrev resolver : List Resolver.Rules → Resolver
resolver rules = record { table = fresh 100; rules = rules; file = none }

abbrev all_names : Resolver.Rules
all_names = record { accept_proxy = λ client name. true; deny_proxy = λ client name. false }

abbrev server : Resolver → Dns
server r = record {
  server_ip = 1;
  resolver = r;
  agent = record { items = λ j. record { user = 0; id = 0; valid = false }; next_id = 1 };
  requests = λ j. none;
  next_request = 0;
  logs = [];
  count = 0;
  sent = [];
  asked = [];
}

top_name : IsLabel (codes "com")
top_name = record { full = omega arith; short = omega arith; text = (refl, (refl, (refl, tt))) }

host_name : IsLabel (codes "a")
host_name = record { full = omega arith; short = omega arith; text = (refl, tt) }

abbrev given : Resolver
given = elim (Resolver.dns 7 (codes "a.com") (resolver (all_names ∷ []))) [
  | none ↦ resolver []
  | some p ↦ p.1
]

on_received-dns_example :
    (d' : Dns) × (on_received asker
        (query 1 2 1 0 (codes "a") (codes "com" ∷ []) 1)
        (server (resolver (all_names ∷ [])))
      ≡ some d')
    × (d'.sent ≡ (
        (
          asker,
          (1 ∷ 2 ∷ 129 ∷ 128 ∷ 0 ∷ 1 ∷ 0 ∷ 1 ∷ 0 ∷ 0 ∷ 0 ∷ 0 ∷ [])
              ++ ((wire (codes "a" ∷ codes "com" ∷ []) ++ (0 ∷ 1 ∷ 0 ∷ 1 ∷ []))
                  ++ (192 ∷ 12 ∷ 0 ∷ 1 ∷ 0 ∷ 1 ∷ 0 ∷ 0 ∷ 0 ∷ 0 ∷ 0 ∷ 4 ∷ 0 ∷ 0 ∷ 0 ∷ 100 ∷ [])),
        )
        ∷ []))
    × (d'.asked ≡ [])
    × (d'.resolver ≡ given)
    × (d'.logs
        ≡ (log 7
            (codes "a" ++ dots (codes "com" ∷ []))
            100
            (server (resolver (all_names ∷ [])))).logs)
    × (d'.count ≡ 1)
unfolding eq gt dots Resolver.dns text_key number_key Agree-key adjust
on_received-dns_example =
    on_received-dns asker 1 2 1 0 (codes "a") (codes "com" ∷ []) 100
      (server (resolver (all_names ∷ []))) given (omega arith) (omega arith)
      (host_name, (top_name, tt)) refl refl (omega arith)

on_agent_response-on_received_example :
    (asked after : Dns) × (on_received asker
        (query 1 2 1 0 (codes "a") (codes "com" ∷ []) 1)
        (server (resolver []))
      ≡ some asked)
    × (asked.asked
        ≡ [] ++ (join_id 1 (drop 2 (query 1 2 1 0 (codes "a") (codes "com" ∷ []) 1)) ∷ []))
    × (on_agent_response (join_id 1 (129 ∷ 128 ∷ [])) asked ≡ some after)
    × (after.sent ≡ [] ++ ((asker, 1 ∷ 2 ∷ 129 ∷ 128 ∷ []) ∷ []))
    × (on_agent_response (join_id 1 (129 ∷ 131 ∷ [])) after ≡ none)
unfolding eq dots Resolver.dns
on_agent_response-on_received_example =
    on_agent_response-on_received asker 1 2 1 0 (codes "a") (codes "com" ∷ [])
      (server (resolver [])) (resolver []) (129 ∷ 128 ∷ []) (129 ∷ 131 ∷ []) (omega arith)
      (omega arith) (omega arith) (host_name, (top_name, tt)) refl refl

abbrev entry : LogItem
entry = record { client = 7; hostname = codes "a.com"; ip = 100 }

log_all_lem_example :
    ((log_all (entry ∷ entry ∷ []) (server (resolver []))).logs ≡ newest (entry ∷ entry ∷ []))
    × (length (log_all (entry ∷ entry ∷ []) (server (resolver []))).logs ≤ max_logs)
log_all_lem_example = log_all_lem (entry ∷ entry ∷ []) (server (resolver [])) refl
