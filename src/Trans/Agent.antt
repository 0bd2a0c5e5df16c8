-- ===== src/Trans/Agent.antt =====
-- `_allocAgentAddress` of Dev/Main/src/TransProxy/TransTCP.cpp: the address under which the upstream
-- proxy sees a connection.
mod Tests
use trans_proxy.Base.{
  ℕ, suc, zero, ◌+◌, ◌*◌, ◌/◌, ◌%◌, ◌^◌, ◌-◌, ◌≤◌, ◌<◌, ◌≡◌, refl, sym, ap, ap₂, ◌∙◌, ◌==◌,
  if◌then◌else◌, ==_iff, ==_false, arith,
}
use native.Mathlib.Decide.{ℕ_discrete}
use trans_proxy.Net.Sock.{SockAddr}
use trans_proxy.Trans.Segment.{word_mod, half_mod, add_word}

abbrev pub agent_port_min : ℕ
agent_port_min = 1025

abbrev pub agent_port_max : ℕ
agent_port_max = 65500

-- The new `_agentAddr`, which is also the result.
pub alloc_agent_address : SockAddr → SockAddr
alloc_agent_address a =
    if a.port == agent_port_max
    then record { ip = add_word a.ip 1; port = agent_port_min }
    else record a { port = (a.port + 1) % half_mod }

-- `_agentAddr` as the constructor of the translator sets it.
pub first_address : ℕ → SockAddr
first_address base = record { ip = base; port = agent_port_min - 1 }

-- The address after `n` calls.
unfoldable pub allocated : ℕ → ℕ → SockAddr
unfolding alloc_agent_address first_address
allocated base zero = first_address base
allocated base (suc n) = alloc_agent_address (allocated base n)

-- The ports that one agent IP has.
abbrev pub agent_ports : ℕ
agent_ports = 64476

abbrev address : ℕ → ℕ → SockAddr
address ip port = record { ip = ip; port = port }

alloc_next :
    (ip i : ℕ)
    → alloc_agent_address
        (address ((ip + i / agent_ports) % word_mod) (agent_port_min + i % agent_ports))
      ≡ address ((ip + (i + 1) / agent_ports) % word_mod) (agent_port_min + (i + 1) % agent_ports)
unfolding alloc_agent_address
alloc_next ip i = elim (ℕ_discrete (agent_port_min + i % agent_ports) agent_port_max) [
  | yes e ↦
      rw ((==_iff (agent_port_min + i % agent_ports) agent_port_max).1 e)
        (ap₂ address (omega arith) (omega arith))
  | no d ↦
      rw (==_false (agent_port_min + i % agent_ports) agent_port_max d)
        (ap₂ address (omega arith) (omega arith))
]

-- The calls go through the ports of an agent IP in order and then on to the next IP.
pub allocated_lem :
    (base i : ℕ)
    → base < word_mod
    → allocated base (suc i)
      ≡ record { ip = (base + i / agent_ports) % word_mod; port = agent_port_min + i % agent_ports }
unfolding allocated first_address alloc_agent_address
allocated_lem base zero b = ap₂ address (omega arith) refl
allocated_lem base (suc i) b =
    ap alloc_agent_address (allocated_lem base i b)
    ∙ alloc_next base i
    ∙ ap₂ address (omega arith) (omega arith)

-- Connections have different agent addresses, until all addresses have been used.
pub allocated-injective :
    (base i j : ℕ)
    → base < word_mod
    → i < agent_ports * word_mod
    → j < agent_ports * word_mod
    → allocated base (suc i) ≡ allocated base (suc j)
    → i ≡ j
allocated-injective base i j b h g e =
    let same = sym (allocated_lem base i b) ∙ e ∙ allocated_lem base j b in
    let same_ip = ap (λ (a : SockAddr). a.ip) same in
    let same_port = ap (λ (a : SockAddr). a.port) same in omega (arith, same_ip, same_port)
