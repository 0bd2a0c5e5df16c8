-- ===== src/Rules/Split.antt =====
-- The labels that the loops read from the end of a text are those between its dots, backwards.
use trans_proxy.Base.{
  ℕ, zero, suc, ◌-◌, ◌≤◌, ◌<◌, ◌≡◌, refl, sym, ap, ap₂, subst, ◌∙◌, false, List, [], ◌∷◌, ◌++◌,
  ◌==◌, ==_iff, length, take, drop, if◌then◌else◌, Bool-cases, inl, inr, arith, take-append-drop,
  take-take, drop-take, take_whole,
}
use trans_proxy.Map.Sorted.{All}
use trans_proxy.Text.{Text}
use trans_proxy.Rules.{dot, byte_at, slice, no_empty_label}
use trans_proxy.Rules.Labels.{push, split_dots, backwards, labels, all_full}
use trans_proxy.Rules.Scan.{scan, scan_at, scan_other}

abbrev NoDots : Text → Type 0
NoDots s = All (λ c. (c == dot) ≡ false) s

split_plain : (s : Text) → NoDots s → split_dots s ≡ s ∷ []
unfolding split_dots
split_plain [] n = refl
split_plain (c ∷ s) n = rw (n.0, split_plain s n.1) refl

push_twice : (c x : ℕ) (ls ms : List Text) → push c (push x ls ++ ms) ≡ push c (push x ls) ++ ms
push_twice c x [] ms = refl
push_twice c x (l ∷ ls) ms = refl

push-append :
    (c : ℕ) (s : Text) (ls : List Text) → push c (split_dots s ++ ls) ≡ push c (split_dots s) ++ ls
unfolding split_dots
push-append c [] ls = refl
push-append c (x ∷ s) ls = elim (Bool-cases (x == dot)) [
  | inl e ↦ rw e refl
  | inr n ↦ rw n (push_twice c x (split_dots s) ls)
]

split_dots-append : (p r : Text) → split_dots (p ++ (dot ∷ r)) ≡ split_dots p ++ split_dots r
unfolding split_dots
split_dots-append [] r = refl
split_dots-append (c ∷ p) r = elim (Bool-cases (c == dot)) [
  | inl e ↦ rw e (ap (λ q. [] ∷ q) (split_dots-append p r))
  | inr n ↦ rw n (ap (push c) (split_dots-append p r) ∙ push-append c p (split_dots r))
]

backwards-append : (xs : List Text) (q : Text) → backwards (xs ++ (q ∷ [])) ≡ q ∷ backwards xs
unfolding backwards
backwards-append [] q = refl
backwards-append (x ∷ xs) q = ap (λ ys. ys ++ (x ∷ [])) (backwards-append xs q)

drop_at : (s : Text) (b : ℕ) → b < length s → drop b s ≡ byte_at s b ∷ drop (suc b) s
drop_at [] b h = absurd (omega arith)
drop_at (c ∷ s) zero h = refl
drop_at (c ∷ s) (suc b) h = drop_at s b (omega arith)

-- What stands between two places, read one byte further down.
slice_at :
    (s : Text) (b end : ℕ)
    → suc b ≤ end
    → end ≤ length s
    → slice s b end ≡ byte_at s b ∷ slice s (suc b) end
slice_at s b end h g =
    let one : end - b ≡ suc (end - suc b) = omega arith in
    ap (λ n. take n (drop b s)) one ∙ ap (take (suc (end - suc b))) (drop_at s b (omega arith))

take_split : (s : Text) (b end : ℕ) → b ≤ end → take end s ≡ take b s ++ slice s b end
take_split s b end h =
    sym (take-append-drop b (take end s)) ∙ ap₂ ◌++◌ (take-take b end s h) (drop-take b end s)

slice_none : (s : Text) (b : ℕ) → slice s b b ≡ []
slice_none s b = let none : b - b ≡ 0 = omega arith in ap (λ n. take n (drop b s)) none

labels-dot : (p q : Text) → NoDots q → labels (p ++ (dot ∷ q)) ≡ q ∷ labels p
unfolding labels
labels-dot p q n =
    ap backwards (split_dots-append p q ∙ ap (λ x. split_dots p ++ x) (split_plain q n))
    ∙ backwards-append (split_dots p) q

labels_plain : (q : Text) → NoDots q → labels q ≡ q ∷ []
unfolding labels backwards
labels_plain q n = ap backwards (split_plain q n)

scan-take :
    (s : Text) (b end : ℕ)
    → b ≤ end
    → end ≤ length s
    → NoDots (slice s b end)
    → scan s b end ≡ labels (take end s)
unfolding scan
scan-take s zero end h g n =
    let all : end - 0 ≡ end = omega arith in
    let e : slice s zero end ≡ take end s = ap (λ k. take k s) all in
    ap (λ q. q ∷ []) e ∙ sym (labels_plain (take end s) (subst NoDots e n))
scan-take s (suc b) end h g n = elim (Bool-cases (byte_at s b == dot)) [
  | inl e ↦
      let q = slice s (suc b) end in
      let parts : take end s ≡ take b s ++ (dot ∷ q) =
        take_split s b end (omega arith)
        ∙ ap (λ r. take b s ++ r)
            (slice_at s b end h g ∙ ap (λ c. c ∷ q) ((==_iff (byte_at s b) dot).0 e)) in
      scan_at s b end e
      ∙ ap (λ r. q ∷ r)
          (scan-take s b b (omega arith) (omega arith) (subst NoDots (sym (slice_none s b)) tt))
      ∙ sym (ap labels parts ∙ labels-dot (take b s) q n)
  | inr d ↦
      scan_other s b end d
      ∙ scan-take s b end (omega arith) g (subst NoDots (sym (slice_at s b end h g)) (d, n))
]

-- The labels that a loop over the whole text reads.
pub scan-labels : (s : Text) → scan s (length s) (length s) ≡ labels s
scan-labels s =
    scan-take s (length s) (length s) (omega arith) (omega arith)
      (subst NoDots (sym (slice_none s (length s))) tt)
    ∙ ap labels (take_whole (length s) s (omega arith))

full_slice :
    (s : Text) (b end : ℕ) (ls : List Text)
    → b ≤ end
    → end ≤ length s
    → all_full (slice s b end ∷ ls) ≡ (if b == end then false else all_full ls)
full_slice s b end ls h g = elim (Bool-cases (b == end)) [
  | inl e ↦
      let same = (==_iff b end).0 e in
      let none : slice s b end ≡ [] = ap (λ k. slice s b k) (sym same) ∙ slice_none s b in
      ap (λ q. all_full (q ∷ ls)) none ∙ (rw e refl)
  | inr n ↦
      let less : suc b ≤ end = ground arith in
      ap (λ q. all_full (q ∷ ls)) (slice_at s b end less g) ∙ (rw n refl)
]

no_empty_label-scan :
    (s : Text) (b end : ℕ)
    → b ≤ end
    → end ≤ length s
    → no_empty_label s b end ≡ all_full (scan s b end)
unfolding no_empty_label scan
no_empty_label-scan s zero end h g = sym (full_slice s zero end [] h g)
no_empty_label-scan s (suc b) end h g = elim (Bool-cases (byte_at s b == dot)) [
  | inl e ↦
      (rw e refl)
      ∙ ap (λ r. if suc b == end then false else r)
          (no_empty_label-scan s b b (omega arith) (omega arith))
      ∙ sym (ap all_full (scan_at s b end e) ∙ full_slice s (suc b) end (scan s b b) h g)
  | inr n ↦
      (rw n refl)
      ∙ no_empty_label-scan s b end (omega arith) g
      ∙ sym (ap all_full (scan_other s b end n))
]

-- The first loop accepts a text exactly when no label of it is empty.
pub no_empty_label-labels :
    (s : Text) → no_empty_label s (length s) (length s) ≡ all_full (labels s)
no_empty_label-labels s =
    no_empty_label-scan s (length s) (length s) (omega arith) (omega arith)
    ∙ ap all_full (scan-labels s)
