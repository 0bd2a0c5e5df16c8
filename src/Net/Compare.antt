-- ===== src/Net/Compare.antt =====
-- What the six comparison operators of an address type promise, and the map key that they make.
use mathlib.Core.Bool.{false≢true}
use trans_proxy.Base.{
  ◌≡◌, ◌↔◌, refl, sym, ◌∙◌, Bool, true, false, not, ◌||◌, ltb, leb, Bool-cases, inl, inr, ◌==◌,
  ◌!=◌, arith,
}
use trans_proxy.Map.Order.{Key}

-- `==`, `!=`, `<`, `<=`, `>` and `>=` describe one total order, each in step with the others.
pub record Agree {K : Type 0} (eq ne lt le gt ge : K → K → Bool) : Type 0 where
  pub eq_iff : (a b : K) → (eq a b ≡ true) ↔ (a ≡ b)
  pub lt_irrefl : (a : K) → lt a a ≡ false
  pub lt_trans : (a b c : K) → lt a b ≡ true → lt b c ≡ true → lt a c ≡ true
  pub lt_total : (a b : K) → eq a b ≡ false → lt a b ≡ false → lt b a ≡ true
  pub ne_lem : (a b : K) → ne a b ≡ not (eq a b)
  pub le_lem : (a b : K) → le a b ≡ (lt a b || eq a b)
  pub gt_lem : (a b : K) → gt a b ≡ lt b a
  pub ge_lem : (a b : K) → ge a b ≡ (lt b a || eq a b)

-- The operators of the machine integers.
pub numbers-Agree : Agree (λ a b. a == b) (λ a b. a != b) ltb leb (λ a b. ltb b a) (λ a b. leb b a)
numbers-Agree = record {
  eq_iff = λ a b. ground arith;
  lt_irrefl = λ a. ground arith;
  lt_trans = λ a b c g h. ground arith;
  lt_total = λ a b g h. ground arith;
  ne_lem = λ a b. ground arith;
  le_lem = λ a b. ground arith;
  gt_lem = λ a b. refl;
  ge_lem = λ a b. ground arith;
}

pub Agree-eq_sym :
    {K : Type 0} {eq ne lt le gt ge : K → K → Bool}
    → Agree eq ne lt le gt ge
    → (x y : K) → eq x y ≡ eq y x
Agree-eq_sym {eq} a x y = elim (Bool-cases (eq y x)) [
  | inl e ↦ (a.eq_iff x y).1 (sym ((a.eq_iff y x).0 e)) ∙ sym e
  | inr n ↦ elim (Bool-cases (eq x y)) [
    | inl e ↦ absurd (false≢true (sym n ∙ (a.eq_iff y x).1 (sym ((a.eq_iff x y).0 e))))
    | inr d ↦ d ∙ sym n
  ]
]

-- An address type with such operators can be the key of a map.
unfoldable pub Agree-key :
    {K : Type 0} {eq ne lt le gt ge : K → K → Bool} → Agree eq ne lt le gt ge → Key K
Agree-key {eq} {lt} {gt} a = record {
  eqb = eq;
  gtb = gt;
  eqb_iff = a.eq_iff;
  gtb_irrefl = λ x. a.gt_lem x x ∙ a.lt_irrefl x;
  gtb_trans = λ x y z g h.
      a.gt_lem x z ∙ a.lt_trans z y x (sym (a.gt_lem y z) ∙ h) (sym (a.gt_lem x y) ∙ g);
  gtb_total = λ x y d n.
      a.gt_lem y x ∙ a.lt_total y x (sym (Agree-eq_sym a x y) ∙ d) (sym (a.gt_lem x y) ∙ n);
}
