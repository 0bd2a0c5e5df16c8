-- ===== src/Dns/Agent/Tests.antt =====
-- An agent that has passed on no query yet, for callers that are numbers.
use trans_proxy.Base.{ℕ, ◌≡◌, false, [], ◌∷◌, none, some, arith}
use trans_proxy.Dns.Agent.{
  Agent, Entry, create, query, on_received, cancel, join_id, queries, query-answer, queries_lem,
}

abbrev memory : ℕ → Entry ℕ
memory i = record { user = 0; id = 0; valid = false }

abbrev fresh : Agent ℕ
fresh = record { items = memory; next_id = 1 }

query-answer_example :
    (g' : Agent ℕ) × (query fresh 77 (18 ∷ 52 ∷ 1 ∷ []) ≡ some (1, g', join_id 1 (1 ∷ [])))
    × (on_received g' (join_id 1 (129 ∷ [])) ≡ some (some (77, 18 ∷ 52 ∷ 129 ∷ [])))
    × (g'' : Agent ℕ) × (cancel g' 1 ≡ some g'')
    × (on_received g'' (join_id 1 (129 ∷ [])) ≡ some none)
query-answer_example =
    query-answer fresh 77 18 52 (1 ∷ []) (129 ∷ []) (omega arith) (omega arith) (omega arith)

queries_lem_example :
    (g : Agent ℕ) × (queries 4999 (create memory) 77 (18 ∷ 52 ∷ []) ≡ some g)
    × (query g 77 (18 ∷ 52 ∷ []) ≡ none)
queries_lem_example = queries_lem memory 77 18 52 []
