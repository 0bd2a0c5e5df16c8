-- ===== src/Dns/Agent.antt =====
-- `DnsAgent` of Dev/Main/src/TransProxy/DnsAgent.h: queries get an id of the agent's own, under which
-- their answers are told apart.
mod Tests
use trans_proxy.Base.{
  ℕ, suc, zero, ◌+◌, ◌-◌, ◌*◌, ◌/◌, ◌%◌, ◌^◌, ◌≤◌, ◌<◌, ◌≡◌, ◌≢◌, refl, sym, subst, ap, ◌∙◌, Bool,
  true, false, Option, none, some, List, [], ◌∷◌, ltb, lt→ltb, ltb-false, ◌==◌, ==_self, ==_false,
  if◌then◌else◌, arith,
}
use trans_proxy.Map.{◌>>=◌}

-- An entry of `_items`. `U` is the type of the callers that wait for an answer.
pub record Entry (U : Type 0) : Type 0 where
  pub user : U
  pub id : ℕ
  pub valid : Bool

abbrev pub min_id : ℕ
min_id = 1

abbrev pub max_id : ℕ
max_id = 5000

-- The length of `_items`.
abbrev pub table_size : ℕ
table_size = max_id - min_id + 1

pub record Agent (U : Type 0) : Type 0 where
  pub items : ℕ → Entry U
  pub next_id : ℕ

-- `*(uint16_t*) data` in the order of the host, and the bytes behind it.
abbrev pub split_id : List ℕ → Option (ℕ × List ℕ)
split_id [] = none
split_id (a ∷ []) = none
split_id (a ∷ b ∷ rest) = some (a * 256 + b, rest)

-- The same bytes with another id.
abbrev pub join_id : ℕ → List ℕ → List ℕ
join_id id rest = id / 256 % 256 ∷ id % 256 ∷ rest

module _ {U : Type 0} where
  abbrev pub set_item : (ℕ → Entry U) → ℕ → Entry U → ℕ → Entry U
  set_item items i x j = if j == i then x else items j

  -- The constructor, over what the memory of `_items` holds.
  pub create : (ℕ → Entry U) → Agent U
  create memory = record { items = memory; next_id = min_id }

  -- `query`: its result, the agent and the bytes that are sent. `none` is an access outside of
  -- `_items` or of the data.
  pub query : Agent U → U → List ℕ → Option (ℕ × Agent U × List ℕ)
  query g user bytes = do
    (own, rest) ← split_id bytes
    let id = g.next_id
    let items' = set_item g.items id (record { user = user; id = own; valid = true })
    let g' : Agent U = record { items = items'; next_id = (id + 1) % 2 ^ 16 }
    if ltb id table_size then some (id, g', join_id id rest) else none

  -- `cancel`
  pub cancel : Agent U → ℕ → Option (Agent U)
  cancel g id =
      if ltb id table_size
      then some (record g { items = set_item g.items id (record (g.items id) { valid = false }) })
      else none

  -- `onReceived`: the caller and the bytes that it is given, if any.
  pub on_received : Agent U → List ℕ → Option (Option (U × List ℕ))
  on_received g bytes = do
    (id, rest) ← split_id bytes
    let x = g.items id
    if ltb id table_size
        then some (if x.valid then some (x.user, join_id x.id rest) else none)
        else none

  -- A query of bytes whose id is within the table is sent under that id; an answer with that id goes to its
  -- caller under the id of the caller, and to nobody when the query has been cancelled.
  pub query-answer :
      (g : Agent U) (user : U) (a b : ℕ) (rest reply : List ℕ)
      → a < 256
      → b < 256
      → g.next_id < table_size
      → (g' : Agent U) × (query g user (a ∷ b ∷ rest)
          ≡ some (g.next_id, g', join_id g.next_id rest))
        × (on_received g' (join_id g.next_id reply) ≡ some (some (user, a ∷ b ∷ reply)))
        × (g'' : Agent U) × (cancel g' g.next_id ≡ some g'')
        × (on_received g'' (join_id g.next_id reply) ≡ some none)
  unfolding query on_received cancel
  query-answer g user a b rest reply ha hb room =
      let id = g.next_id in
      let entry : Entry U = record { user = user; id = a * 256 + b; valid = true } in
      let items1 = set_item g.items id entry in
      let g' : Agent U = record { items = items1; next_id = (id + 1) % 2 ^ 16 } in
      let g'' : Agent U = record g' {
        items = set_item items1 id (record (items1 id) { valid = false });
      } in
      let same : id / 256 % 256 * 256 + id % 256 ≡ id = omega arith in
      let high : (a * 256 + b) / 256 % 256 ≡ a = omega arith in
      let low : (a * 256 + b) % 256 ≡ b = omega arith in
      let inside = lt→ltb id table_size room in
      (
        g',
        rw inside refl,
        rw (same, inside, ==_self id, high, low) refl,
        g'',
        rw inside refl,
        rw (same, inside, ==_self id) refl,
      )

  -- Two replies with the id under which a query was sent both go to its caller.
  pub answered_twice :
      (g : Agent U) (user : U) (a b : ℕ) (rest reply again : List ℕ)
      → a < 256
      → b < 256
      → g.next_id < table_size
      → (g' : Agent U) × (query g user (a ∷ b ∷ rest)
          ≡ some (g.next_id, g', join_id g.next_id rest))
        × ((on_received g' (join_id g.next_id reply) ≡ some (some (user, a ∷ b ∷ reply)))
            × (on_received g' (join_id g.next_id again) ≡ some (some (user, a ∷ b ∷ again))))
  answered_twice g user a b rest reply again ha hb room =
      let (g', asks, back, _, _, _) = query-answer g user a b rest reply ha hb room in
      let (g1, asks1, back1, _, _, _) = query-answer g user a b rest again ha hb room in
      let same : g1 ≡ g' = cc in
      (
        g',
        asks,
        (
          back,
          subst (λ x. on_received x (join_id g.next_id again) ≡ some (some (user, a ∷ b ∷ again)))
              same back1,
        ),
      )

  -- A query whose id is not within the table writes behind its end.
  pub query_outside :
      (g : Agent U) (user : U) (bytes : List ℕ) → table_size ≤ g.next_id → query g user bytes ≡ none
  unfolding query
  query_outside g user [] h = refl
  query_outside g user (a ∷ []) h = refl
  query_outside g user (a ∷ b ∷ rest) h = rw (ltb-false g.next_id table_size h) refl

  query_inside :
      (g : Agent U) (user : U) (a b : ℕ) (rest : List ℕ)
      → g.next_id < table_size
      → (g' : Agent U) × (query g user (a ∷ b ∷ rest)
          ≡ some (g.next_id, g', join_id g.next_id rest))
        × (g'.next_id ≡ g.next_id + 1)
  unfolding query
  query_inside g user a b rest room =
      let entry : Entry U = record { user = user; id = a * 256 + b; valid = true } in
      let items' = set_item g.items g.next_id entry in
      (
        record { items = items'; next_id = (g.next_id + 1) % 2 ^ 16 },
        rw (lt→ltb g.next_id table_size room) refl,
        omega arith,
      )

  -- The agent after the same query has been made `n` times.
  unfoldable pub queries : ℕ → Agent U → U → List ℕ → Option (Agent U)
  unfolding query
  queries zero g user bytes = some g
  queries (suc n) g user bytes =
      queries n g user bytes >>= λ g1. query g1 user bytes >>= λ (_, g2, _). some g2

  queries_inside :
      (memory : ℕ → Entry U) (user : U) (a b : ℕ) (rest : List ℕ) (n : ℕ)
      → n < table_size
      → (g : Agent U) × (queries n (create memory) user (a ∷ b ∷ rest) ≡ some g)
        × (g.next_id ≡ n + 1)
  unfolding queries create
  queries_inside memory user a b rest zero h = (create memory, refl, refl)
  queries_inside memory user a b rest (suc n) h =
      let (g, e, next) = queries_inside memory user a b rest n (omega arith) in
      let (g2, q, next2) = query_inside g user a b rest (omega arith) in
      (g2, rw (e, q) refl, omega arith)

  -- A new agent passes on 4999 queries, and the next one writes behind the end of the table.
  pub queries_lem :
      (memory : ℕ → Entry U) (user : U) (a b : ℕ) (rest : List ℕ)
      → (g : Agent U) × (queries 4999 (create memory) user (a ∷ b ∷ rest) ≡ some g)
        × (query g user (a ∷ b ∷ rest) ≡ none)
  queries_lem memory user a b rest =
      let (g, e, next) = queries_inside memory user a b rest 4999 (omega arith) in
      (g, e, query_outside g user (a ∷ b ∷ rest) (omega arith))
