-- ===== src/Net/Lex.antt =====
-- A record of two fields is ordered by the first, and where that is equal by the second.
use mathlib.Core.Bool.{false≢true}
use trans_proxy.Base.{
  ◌≡◌, ◌⊎◌, inl, inr, refl, sym, ap, subst, ◌∙◌, Bool, true, false, not, ◌&&◌, ◌||◌, Bool-cases,
}
use trans_proxy.Net.Compare.{Agree, Agree-eq_sym}

ne_test : (p q : Bool) → (not p || not q) ≡ not (p && q)
ne_test true q = refl
ne_test false q = refl

le_test : (l e l' e' : Bool) → (l || (e && (l' || e'))) ≡ ((l || (e && l')) || (e && e'))
le_test true e l' e' = refl
le_test false true l' e' = refl
le_test false false l' e' = refl

less_cases : (l e l' : Bool) → (l || (e && l')) ≡ true → (l ≡ true) ⊎ ((e ≡ true) × (l' ≡ true))
less_cases true e l' h = inl refl
less_cases false true l' h = inr (refl, h)
less_cases false false l' h = absurd (false≢true h)

less_second : (l e l' : Bool) → e ≡ true → l' ≡ true → (l || (e && l')) ≡ true
less_second true e l' h g = refl
less_second false e l' h g = rw (h, g)

-- Of two that differ, and of which neither test holds, the opposite test holds.
either_less :
    (e e' l l' m m' : Bool)
    → (e && e') ≡ false
    → (l || (e && l')) ≡ false
    → (e ≡ false → l ≡ false → m ≡ true)
    → (e' ≡ false → l' ≡ false → m' ≡ true)
    → (m || (e && m')) ≡ true
either_less e e' true l' m m' g h f f' = absurd (false≢true (sym h))
either_less true e' false l' m m' g h f f' = less_second m true m' refl (f' g h)
either_less false e' false l' m m' g h f f' = rw (f refl refl)

module _ {R A B : Type 0} (first : R → A) (second : R → B)
    (both : (x y : R) → first x ≡ first y → second x ≡ second y → x ≡ y)
    {eq ne lt le gt ge : A → A → Bool} {eq' ne' lt' le' gt' ge' : B → B → Bool}
    (a : Agree eq ne lt le gt ge) (b : Agree eq' ne' lt' le' gt' ge') where
  pub lex-Agree :
      Agree
        (λ x y. eq (first x) (first y) && eq' (second x) (second y))
        (λ x y. ne (first x) (first y) || ne' (second x) (second y))
        (λ x y. lt (first x) (first y) || (eq (first x) (first y) && lt' (second x) (second y)))
        (λ x y. lt (first x) (first y) || (eq (first x) (first y) && le' (second x) (second y)))
        (λ x y. gt (first x) (first y) || (eq (first x) (first y) && gt' (second x) (second y)))
        (λ x y. gt (first x) (first y) || (eq (first x) (first y) && ge' (second x) (second y)))
  lex-Agree = record {
    eq_iff = λ x y. (
      (λ h. elim (Bool-cases (eq (first x) (first y))) [
        | inl e ↦
            both x y ((a.eq_iff (first x) (first y)).0 e)
              ((b.eq_iff (second x) (second y)).0 (rw e at h))
        | inr n ↦ absurd (false≢true (rw n at h))
      ]),
      (λ e. rw ((a.eq_iff _ _).1 (ap first e), (b.eq_iff _ _).1 (ap second e))),
    );
    lt_irrefl = λ x.
        rw (a.lt_irrefl (first x), (a.eq_iff (first x) (first x)).1 refl, b.lt_irrefl (second x));
    lt_trans = λ x y z g h.
        elim (less_cases (lt (first x) (first y)) (eq (first x) (first y))
          (lt' (second x) (second y)) g) [
            | inl p ↦
                elim (less_cases (lt (first y) (first z)) (eq (first y) (first z))
                  (lt' (second y) (second z)) h) [
                    | inl q ↦ rw (a.lt_trans (first x) (first y) (first z) p q)
                    | inr (e, q) ↦
                        rw (
                          subst (λ w. lt (first x) w ≡ true) ((a.eq_iff (first y) (first z)).0 e) p)
                  ]
            | inr (d, p) ↦
                elim (less_cases (lt (first y) (first z)) (eq (first y) (first z))
                  (lt' (second y) (second z)) h) [
                    | inl q ↦ rw (
                        subst (λ w. lt w (first z) ≡ true)
                          (sym ((a.eq_iff (first x) (first y)).0 d)) q)
                    | inr (e, q) ↦
                        less_second (lt (first x) (first z)) (eq (first x) (first z))
                          (lt' (second x) (second z))
                          ((a.eq_iff (first x) (first z)).1 (
                            (a.eq_iff (first x) (first y)).0 d
                            ∙ (a.eq_iff (first y) (first z)).0 e))
                          (b.lt_trans (second x) (second y) (second z) p q)
                  ]
          ];
    lt_total = λ x y g h. rw (Agree-eq_sym a (first y) (first x)) (
        either_less (eq (first x) (first y)) (eq' (second x) (second y)) (lt (first x) (first y))
          (lt' (second x) (second y)) (lt (first y) (first x)) (lt' (second y) (second x)) g h
          (a.lt_total (first x) (first y)) (b.lt_total (second x) (second y)));
    ne_lem = λ x y.
        rw (a.ne_lem (first x) (first y), b.ne_lem (second x) (second y))
          (ne_test (eq (first x) (first y)) (eq' (second x) (second y)));
    le_lem = λ x y. rw (b.le_lem (second x) (second y)) (
        le_test (lt (first x) (first y)) (eq (first x) (first y)) (lt' (second x) (second y))
          (eq' (second x) (second y)));
    gt_lem = λ x y.
        rw
          (
            a.gt_lem (first x) (first y),
            b.gt_lem (second x) (second y),
            Agree-eq_sym a (first x) (first y),
          )
          refl;
    ge_lem = λ x y.
        rw
          (
            a.gt_lem (first x) (first y),
            b.ge_lem (second x) (second y),
            ← Agree-eq_sym a (first x) (first y),
          )
          (le_test (lt (first y) (first x)) (eq (first x) (first y)) (lt' (second y) (second x))
            (eq' (second x) (second y)));
  }
