-- ===== src/Tcp/Ports.antt =====
-- The search of `connect` for a port.
use trans_proxy.Base.{
  ℕ, zero, suc, ◌+◌, ◌%◌, ◌<◌, ◌≡◌, refl, sym, ap, ◌∙◌, ◌⊎◌, Bool, true, false, inl, inr,
  Bool-cases, ltb, arith,
}
use trans_proxy.Net.Sock.{SockAddr}
use trans_proxy.Trans.Segment.{half_mod}
use trans_proxy.Tcp.Open.{Connections, found_at, goes_on, free_port, is_taken}

in_range : (port : ℕ) → port < half_mod → ltb port 65536 ≡ true
in_range port small = ground arith

-- A port that lies `d` behind the one where the search stands is found, or an earlier one.
search_from :
    (n d : ℕ) (taken : ℕ → Bool) (port q : ℕ)
    → (port + d) % half_mod ≡ q
    → port < half_mod
    → d < half_mod
    → d < n
    → taken q ≡ false
    → (p : ℕ) × (free_port n taken port ≡ found_at p) × (taken p ≡ false) × (p < half_mod)
unfolding free_port
search_from zero d taken port q e small near fuel free = absurd (omega arith)
search_from (suc n) zero taken port q e small near fuel free =
    let here : port ≡ q = omega (arith, e) in
    let open_port = ap taken here ∙ free in
    (port, rw (in_range port small, open_port) refl, open_port, small)
search_from (suc n) (suc d) taken port q e small near fuel free = elim (Bool-cases (taken port)) [
  | inl b ↦
      let (p, found, is_free, is_port) =
        search_from n d taken ((port + 1) % half_mod) q (omega (arith, e)) (omega arith)
          (omega arith) (omega arith) free in
      (p, rw (in_range port small, b) found, is_free, is_port)
  | inr b ↦ (port, rw (in_range port small, b) refl, b, small)
]

-- Where a pair of addresses with some port is free, the loop of `connect` ends within 65536 rounds, at a
-- port below 65536 whose pair is free.
pub port_found :
    (conns : Connections) (ip : ℕ) (addr : SockAddr) (q : ℕ)
    → q < half_mod
    → is_taken conns ip addr q ≡ false
    → (p : ℕ) × (free_port 65536 (is_taken conns ip addr) 1024 ≡ found_at p)
      × (is_taken conns ip addr p ≡ false)
      × (p < half_mod)
port_found conns ip addr q small free =
    search_from 65536 ((q + 64512) % half_mod) (is_taken conns ip addr) 1024 q (omega arith)
      (omega arith) (omega arith) (omega arith) free

-- The first port that the loop of `connect` meets and that is not taken, `d` behind the one where it
-- begins.
abbrev pub IsFirst : (ℕ → Bool) → ℕ → ℕ → Type 0
IsFirst taken port d =
    (taken ((port + d) % half_mod) ≡ false)
    × ((i : ℕ) → i < d → taken ((port + i) % half_mod) ≡ true)

-- The ports behind the first one.
behind :
    (taken : ℕ → Bool) (port n : ℕ)
    → port < half_mod
    → taken port ≡ true
    → ((i : ℕ) → i < n → taken (((port + 1) % half_mod + i) % half_mod) ≡ true)
    → (i : ℕ) → i < suc n
    → taken ((port + i) % half_mod) ≡ true
behind taken port n small here later zero l =
    let same : (port + 0) % half_mod ≡ port = omega arith in ap taken same ∙ here
behind taken port n small here later (suc i) l =
    let same : (port + suc i) % half_mod ≡ ((port + 1) % half_mod + i) % half_mod = omega arith in
    ap taken same ∙ later i (omega arith)

-- After any number of rounds, from any port, the loop of `connect` either has found the first port behind
-- it that is not taken, or it is still at work, come round to the port that many behind the first, and
-- all the ports that it met are taken. It never comes to its own end: where every port is taken it goes
-- on for ever, and the exception behind it is never thrown.
pub free_port_lem :
    (rounds : ℕ) (taken : ℕ → Bool) (port : ℕ)
    → port < half_mod
    → ((d : ℕ) × (d < rounds)
        × (free_port rounds taken port ≡ found_at ((port + d) % half_mod))
        × IsFirst taken port d)
      ⊎ ((free_port rounds taken port ≡ goes_on ((port + rounds) % half_mod))
          × ((i : ℕ) → i < rounds → taken ((port + i) % half_mod) ≡ true))
unfolding free_port
free_port_lem zero taken port small = inr (ap goes_on (omega arith), λ i h. absurd (omega arith))
free_port_lem (suc n) taken port small = elim (Bool-cases (taken port)) [
  | inr b ↦
      let same : (port + 0) % half_mod ≡ port = omega arith in
      inl (
        0,
        omega arith,
        rw (in_range port small, b) (ap found_at (sym same)),
        (ap taken same ∙ b, λ i h. absurd (omega arith)),
      )
  | inl b ↦
      let next = (port + 1) % half_mod in
      elim (free_port_lem n taken next (omega arith)) [
        | inl (d, l, found, first) ↦
            let same : (next + d) % half_mod ≡ (port + suc d) % half_mod = omega arith in
            inl (
              suc d,
              omega arith,
              rw (in_range port small, b) (found ∙ ap found_at same),
              (ap taken (sym same) ∙ first.0, behind taken port d small b first.1),
            )
        | inr (on, all) ↦ inr (
          rw (in_range port small, b) (on ∙ ap goes_on (omega arith)),
          behind taken port n small b all,
        )
      ]
]
