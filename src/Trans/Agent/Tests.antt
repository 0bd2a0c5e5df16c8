-- ===== src/Trans/Agent/Tests.antt =====
-- The agent addresses of 10.1.0.0.
use trans_proxy.Base.{ℕ, ◌≡◌, refl, arith}
use trans_proxy.Trans.Agent.{alloc_agent_address, allocated-injective}

abbrev third : ℕ
third = 3

allocated-injective_example : third ≡ third
allocated-injective_example =
    allocated-injective 167837696 third third (omega arith) (omega arith) (omega arith) refl

wraps :
    alloc_agent_address (record { ip = 4294967295; port = 65500 }) ≡ record { ip = 0; port = 1025 }
unfolding alloc_agent_address
wraps = refl
