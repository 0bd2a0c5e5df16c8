-- ===== src/Ring/Valid.antt =====
-- The invariant of a ring, and its two measures on every state that meets it.
use trans_proxy.Base.{
  ℕ, ◌+◌, ◌-◌, ◌*◌, ◌/◌, ◌%◌, ◌^◌, ◌≤◌, ◌<◌, ◌≡◌, ◌⊎◌, inl, inr, ap, length, leb, if◌then◌else◌,
  arith,
}
use native.Mathlib.Nat.{div-eq_of_lt, mod-eq_of_lt, div-eq_of_lt-le, mod-eq-sub-mul-div}
use native.Mathlib.Decide.{dec_lt}
use trans_proxy.Ring.{Ring, available, free}

-- How far the writer is ahead of the reader, on the circle of twice the buffer.
abbrev pub used : Ring → ℕ
used r =
    if leb r.read_pos r.write_pos
    then r.write_pos - r.read_pos
    else r.write_pos + 2 * r.buffer_size - r.read_pos

pub record IsValid (r : Ring) : Type 0 where
  pub positive : 0 < r.buffer_size
  pub small : r.buffer_size ≤ 2 ^ 61
  pub storage : length r.buffer ≡ r.buffer_size
  pub read_in : r.read_pos < 2 * r.buffer_size
  pub write_in : r.write_pos < 2 * r.buffer_size
  pub fits : used r ≤ r.buffer_size

-- A position lies on page 0 or on page 1.
pub page :
    (b x : ℕ)
    → x < 2 * b
    → ((x < b) × (x / b ≡ 0) × (x % b ≡ x)) ⊎ ((b ≤ x) × (x / b ≡ 1) × (x % b ≡ x - b))
page b x h = elim (dec_lt x b) [
  | yes p ↦ inl (p, div-eq_of_lt p, mod-eq_of_lt p)
  | no p ↦
      inr (omega arith, on_one p, omega (arith, mod-eq-sub-mul-div x b, ap (λ k. b * k) (on_one p)))
]
  where
    on_one : ¬ (x < b) → x / b ≡ 1
    on_one p = div-eq_of_lt-le b (omega arith) (omega arith)

module _ {r : Ring} (v : IsValid r) where
  pub available-eq-used : available r ≡ used r
  unfolding available
  available-eq-used =
      ground
        (arith, page r.buffer_size r.read_pos v.read_in, page r.buffer_size r.write_pos v.write_in)

  pub free-eq-sub : free r ≡ r.buffer_size - used r
  unfolding free
  free-eq-sub =
      ground
        (arith, page r.buffer_size r.read_pos v.read_in, page r.buffer_size r.write_pos v.write_in)
