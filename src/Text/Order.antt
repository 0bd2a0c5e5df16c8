-- ===== src/Text/Order.antt =====
-- The comparison operators of `String`, and the map key that they make.
use mathlib.Core.Bool.{false≢true}
use native.Mathlib.Decide.{ℕ_discrete}
use trans_proxy.Base.{◌≡◌, refl, sym, ap, ap₂, true, false, ◌||◌, [], ◌∷◌, arith}
use trans_proxy.Map.Order.{Key, Sign, less, same, greater}
use trans_proxy.Net.Compare.{Agree, Agree-key}
use trans_proxy.Text.{Text, strcmp, is_less, is_same, is_greater, lt, le, eq, ge, gt, ne}

flip : Sign → Sign
flip less = greater
flip same = same
flip greater = less

strcmp-flip : (a b : Text) → strcmp b a ≡ flip (strcmp a b)
unfolding strcmp flip
strcmp-flip [] [] = refl
strcmp-flip [] (y ∷ b) = refl
strcmp-flip (x ∷ a) [] = refl
strcmp-flip (x ∷ a) (y ∷ b) = ground (arith, strcmp-flip a b)

strcmp_self : (a : Text) → strcmp a a ≡ same
unfolding strcmp
strcmp_self [] = refl
strcmp_self (x ∷ a) = ground (arith, strcmp_self a)

strcmp_same : (a b : Text) → strcmp a b ≡ same → a ≡ b
unfolding strcmp
strcmp_same [] [] h = refl
strcmp_same [] (y ∷ b) h = cc
strcmp_same (x ∷ a) [] h = cc
strcmp_same (x ∷ a) (y ∷ b) h = elim (ℕ_discrete x y) [
  | yes e ↦ ap₂ ◌∷◌ e (strcmp_same a b (ground arith))
  | no d ↦ absurd (ground arith)
]

strcmp_trans : (a b c : Text) → strcmp a b ≡ less → strcmp b c ≡ less → strcmp a c ≡ less
unfolding strcmp
strcmp_trans [] [] c h g = cc
strcmp_trans (x ∷ a) [] c h g = cc
strcmp_trans a (y ∷ b) [] h g = cc
strcmp_trans [] (y ∷ b) (z ∷ c) h g = refl
strcmp_trans (x ∷ a) (y ∷ b) (z ∷ c) h g = ground (arith, strcmp_trans a b c)

is_less-true : (s : Sign) → is_less s ≡ true → s ≡ less
is_less-true less h = refl
is_less-true same h = absurd (false≢true h)
is_less-true greater h = absurd (false≢true h)

is_same-true : (s : Sign) → is_same s ≡ true → s ≡ same
is_same-true same h = refl
is_same-true less h = absurd (false≢true h)
is_same-true greater h = absurd (false≢true h)

other_less : (s : Sign) → is_same s ≡ false → is_less s ≡ false → is_less (flip s) ≡ true
unfolding flip
other_less greater h g = refl
other_less same h g = absurd (false≢true (sym h))
other_less less h g = absurd (false≢true (sym g))

greater_flip : (s : Sign) → is_greater s ≡ is_less (flip s)
unfolding flip
greater_flip less = refl
greater_flip same = refl
greater_flip greater = refl

lt_trans_lem : (a b c : Text) → lt a b ≡ true → lt b c ≡ true → lt a c ≡ true
unfolding lt
lt_trans_lem a b c h g =
    rw (strcmp_trans a b c (is_less-true (strcmp a b) h) (is_less-true (strcmp b c) g)) refl

-- The six operators of a `String` describe one total order, in which two texts are equal exactly when
-- their bytes are.
pub text-Agree : Agree eq ne lt le gt ge
unfolding lt le eq ge gt ne
text-Agree = record {
  eq_iff = λ a b.
      ((λ h. strcmp_same a b (is_same-true (strcmp a b) h)), (λ e. rw (e, strcmp_self b) refl));
  lt_irrefl = λ a. rw (strcmp_self a) refl;
  lt_trans = lt_trans_lem;
  lt_total = λ a b h g. rw (strcmp-flip a b) (other_less (strcmp a b) h g);
  ne_lem = λ a b. refl;
  le_lem = λ a b. refl;
  gt_lem = λ a b. rw (strcmp-flip a b) (greater_flip (strcmp a b));
  ge_lem =
      λ a b. rw (strcmp-flip a b) (ap (λ q. q || is_same (strcmp a b)) (greater_flip (strcmp a b)));
}

instance unfoldable pub text_key : Key Text
text_key = Agree-key text-Agree
