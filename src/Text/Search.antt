-- ===== src/Text/Search.antt =====
-- What the searches of `String` find.
use mathlib.Core.Bool.{false≢true}
use native.Mathlib.Decide.{ℕ_discrete}
use trans_proxy.Base.{
  ℕ, ◌-◌, ◌≡◌, ◌↔◌, refl, sym, ap, ap₂, ◌∙◌, true, false, Option, none, some, [], ◌∷◌, ◌++◌, ltb,
  length, take, drop, length-append, take-append-drop, Bool-cases, inl, inr, arith, ==_iff,
}
use trans_proxy.Text.{
  Text, starts_with, ends_with, at_start, next_index, is_found, strstr, contains,
}
use trans_proxy.Text.Order.{text-Agree}

take-append_whole : (a b : Text) → take (length a) (a ++ b) ≡ a
take-append_whole [] b = refl
take-append_whole (x ∷ a) b = ap (λ q. x ∷ q) (take-append_whole a b)

drop-append_whole : (a b : Text) → drop (length a) (a ++ b) ≡ b
drop-append_whole [] b = refl
drop-append_whole (x ∷ a) b = drop-append_whole a b

take_whole_text : (a : Text) → take (length a) a ≡ a
take_whole_text [] = refl
take_whole_text (x ∷ a) = ap (λ q. x ∷ q) (take_whole_text a)

-- `startsWith` answers whether the text is the prefix followed by something.
pub starts_with_iff :
    (s prefix : Text) → (starts_with s prefix ≡ true) ↔ ((rest : Text) × (s ≡ prefix ++ rest))
unfolding starts_with
starts_with_iff s prefix = (
  (λ h. elim (Bool-cases (ltb (length s) (length prefix))) [
    | inl e ↦ absurd (false≢true (rw e at h))
    | inr n ↦
        let e =
          (text-Agree.eq_iff (take (length prefix) s) (take (length prefix) prefix)).0
            (rw n at h) in
        (
          drop (length prefix) s,
          sym (take-append-drop (length prefix) s)
              ∙ ap (λ q. q ++ drop (length prefix) s) (e ∙ take_whole_text prefix),
        )
  ]),
  (λ (rest, e).
      let n : ltb (length s) (length prefix) ≡ false =
        ground (arith, ap length e, length-append prefix rest) in
      rw n (
        (text-Agree.eq_iff (take (length prefix) s) (take (length prefix) prefix)).1 (
          ap (take (length prefix)) e
          ∙ take-append_whole prefix rest
          ∙ sym (take_whole_text prefix)))),
)

-- `endsWith` answers whether the text is something followed by the postfix.
pub ends_with_iff :
    (s postfix : Text) → (ends_with s postfix ≡ true) ↔ ((front : Text) × (s ≡ front ++ postfix))
unfolding ends_with
ends_with_iff s postfix = (
  (λ h. elim (Bool-cases (ltb (length s) (length postfix))) [
    | inl e ↦ absurd (false≢true (rw e at h))
    | inr n ↦
        let e = (text-Agree.eq_iff (drop (length s - length postfix) s) postfix).0 (rw n at h) in
        (
          take (length s - length postfix) s,
          sym (take-append-drop (length s - length postfix) s)
              ∙ ap (λ q. take (length s - length postfix) s ++ q) e,
        )
  ]),
  (λ (front, e).
      let n : ltb (length s) (length postfix) ≡ false =
        ground (arith, ap length e, length-append front postfix) in
      let m : length s - length postfix ≡ length front =
        omega (arith, ap length e, length-append front postfix) in
      rw (n, m)
        ((text-Agree.eq_iff (drop (length front) s) postfix).1
          (ap (drop (length front)) e ∙ drop-append_whole front postfix))),
)

at_start_iff : (ss s : Text) → (at_start ss s ≡ true) ↔ ((rest : Text) × (s ≡ ss ++ rest))
at_start_iff [] s = ((λ h. (s, refl)), (λ p. refl))
at_start_iff (x ∷ ss) [] = ((λ h. absurd (false≢true h)), (λ (r, e). cc))
at_start_iff (x ∷ ss) (y ∷ s) = (
  (λ h. elim (ℕ_discrete x y) [
    | yes e ↦ let (r, q) = (at_start_iff ss s).0 (ground arith) in (r, ap₂ ◌∷◌ (sym e) q)
    | no d ↦ absurd (ground arith)
  ]),
  (λ (r, e).
      let same : y ≡ x = cc in
      let rest : s ≡ ss ++ r = cc in
      rw ((==_iff x y).1 (sym same)) ((at_start_iff ss s).1 (r, rest))),
)

starts_nothing : (ss a b : Text) → at_start ss [] ≡ false → [] ≡ a ++ (ss ++ b) → ⊥
starts_nothing [] a b n e = false≢true (sym n)
starts_nothing (x ∷ ss) [] b n e = cc
starts_nothing (x ∷ ss) (y ∷ a) b n e = cc

not_first :
    (ss : Text) (c : ℕ) (s a b : Text)
    → at_start ss (c ∷ s) ≡ false
    → c ∷ s ≡ a ++ (ss ++ b)
    → (a' : Text) × (b' : Text) × (s ≡ a' ++ (ss ++ b'))
not_first ss c s [] b n e = absurd (false≢true (sym n ∙ (at_start_iff ss (c ∷ s)).1 (b, e)))
not_first ss c s (x ∷ a) b n e = (a, b, cc)

found_later : (o : Option ℕ) → is_found (next_index o) ≡ true → is_found o ≡ true
found_later none h = h
found_later (some i) h = refl

later_found : (o : Option ℕ) → is_found o ≡ true → is_found (next_index o) ≡ true
later_found none h = h
later_found (some i) h = refl

-- `contains` answers whether the text has the other text somewhere in it.
pub contains_iff :
    (s ss : Text) → (contains s ss ≡ true) ↔ ((a : Text) × (b : Text) × (s ≡ a ++ (ss ++ b)))
unfolding contains strstr
contains_iff [] ss = elim (Bool-cases (at_start ss [])) [
  | inl e ↦ ((λ h. let (r, q) = (at_start_iff ss []).0 e in ([], r, q)), (λ p. rw e refl))
  | inr n ↦
      ((λ h. absurd (false≢true (rw n at h))), (λ (a, b, q). absurd (starts_nothing ss a b n q)))
]
contains_iff (c ∷ s) ss = elim (Bool-cases (at_start ss (c ∷ s))) [
  | inl e ↦ ((λ h. let (r, q) = (at_start_iff ss (c ∷ s)).0 e in ([], r, q)), (λ p. rw e refl))
  | inr n ↦ (
    (λ h.
        let later : contains s ss ≡ true = found_later (strstr s ss) (rw n at h) in
        let (a, b, q) = (contains_iff s ss).0 later in (c ∷ a, b, ap (λ r. c ∷ r) q)),
    (λ (a, b, q).
        rw n (later_found (strstr s ss) ((contains_iff s ss).1 (not_first ss c s a b n q)))),
  )
]
