-- ===== src/Rules/Paths.antt =====
-- The labels on the ways down from a map, and what `_inList` asks of them.
use mathlib.Core.Bool.{false≢true}
use trans_proxy.Base.{
  ℕ, ◌≡◌, ◌≢◌, ◌↔◌, ◌⊎◌, inl, inr, refl, sym, ap, ap₂, ◌∙◌, Bool, true, false, ◌||◌, Option, none,
  some, List, [], ◌∷◌, ◌++◌, Option-cases,
}
use trans_proxy.Map.{◌>>=◌}
use trans_proxy.Text.{Text}
use trans_proxy.Rules.{
  Nodes, any_name, end_name, child, answer, go_on, visit_at, visit, is_node, in_list_end,
}

pub not_both : {A : Type 0} {a : A} → some a ≢ none
not_both e = cc

-- The node that is reached by going down the labels.
unfoldable pub walk : Nodes → ℕ → List Text → Option ℕ
walk h d [] = some d
walk h d (l ∷ ls) = child h d l >>= λ n. walk h n ls

abbrev pub Has : Nodes → ℕ → List Text → Type 0
Has h d q = (n : ℕ) × (walk h d q ≡ some n)

pub walk-child :
    (h : Nodes) (d n : ℕ) (l : Text) (q : List Text)
    → child h d l ≡ some n
    → walk h d (l ∷ q) ≡ walk h n q
unfolding walk
walk-child h d n l q e = ap (λ o. o >>= λ m. walk h m q) e

pub walk_stops :
    (h : Nodes) (d : ℕ) (l : Text) (q : List Text) → child h d l ≡ none → walk h d (l ∷ q) ≡ none
unfolding walk
walk_stops h d l q e = ap (λ o. o >>= λ m. walk h m q) e

pub walk_nil : (h : Nodes) (d m : ℕ) → walk h d [] ≡ some m → d ≡ m
unfolding walk
walk_nil h d m e = cc

pub walk-append :
    (h : Nodes) (d n : ℕ) (p q : List Text) → walk h d p ≡ some n → walk h d (p ++ q) ≡ walk h n q
unfolding walk
walk-append h d n [] q e = ap (λ o. o >>= λ m. walk h m q) e
walk-append h d n (l ∷ p) q e = elim (Option-cases (child h d l)) [
  | inl f ↦ absurd (not_both (sym e ∙ walk_stops h d l p f))
  | inr (m, f) ↦
      walk-child h d m l (p ++ q) f ∙ walk-append h m n p q (sym (walk-child h d m l p f) ∙ e)
]

-- One of the ways that end a rule for a host with these labels has the property.
unfoldable pub Covered : (List Text → Type 0) → List Text → Type 0
Covered P [] = P (end_name ∷ []) ⊎ P (any_name ∷ [])
Covered P (l ∷ ls) = P (any_name ∷ []) ⊎ Covered (λ q. P (l ∷ q)) ls

pub Covered-map :
    (P Q : List Text → Type 0) (ls : List Text)
    → ((l : Text) (q : List Text) → P (l ∷ q) → Q (l ∷ q))
    → Covered P ls
    → Covered Q ls
unfolding Covered
Covered-map P Q [] f (inl p) = inl (f end_name [] p)
Covered-map P Q [] f (inr p) = inr (f any_name [] p)
Covered-map P Q (l ∷ ls) f (inl p) = inl (f any_name [] p)
Covered-map P Q (l ∷ ls) f (inr c) =
    inr (Covered-map (λ q. P (l ∷ q)) (λ q. Q (l ∷ q)) ls (λ m q. f l (m ∷ q)) c)

pub Covered-none :
    (P : List Text → Type 0) (ls : List Text)
    → ((l : Text) (q : List Text) → ¬ P (l ∷ q))
    → ¬ Covered P ls
unfolding Covered
Covered-none P [] f (inl p) = f end_name [] p
Covered-none P [] f (inr p) = f any_name [] p
Covered-none P (l ∷ ls) f (inl p) = f any_name [] p
Covered-none P (l ∷ ls) f (inr c) = Covered-none (λ q. P (l ∷ q)) ls (λ m q. f l (m ∷ q)) c

-- The loop of `_inList` on the labels of a host, the last label first.
unfoldable pub accepts : Nodes → ℕ → List Text → Bool
unfolding visit in_list_end
accepts h d [] = in_list_end h (go_on d)
accepts h d (l ∷ ls) = elim (visit h d l) [ answer r ↦ r | go_on n ↦ accepts h n ls ]

accepts_after : Nodes → List Text → Option ℕ → Option ℕ → Bool
unfolding accepts
accepts_after h ls a b = elim (visit_at a b) [ answer r ↦ r | go_on n ↦ accepts h n ls ]

Has-one : (h : Nodes) (d n : ℕ) (l : Text) → child h d l ≡ some n → Has h d (l ∷ [])
Has-one h d n l e = (n, walk-child h d n l [] e ∙ (unfold walk in refl))

Has-not : (h : Nodes) (d : ℕ) (l : Text) (q : List Text) → child h d l ≡ none → ¬ Has h d (l ∷ q)
Has-not h d l q e (n, f) = not_both (sym f ∙ walk_stops h d l q e)

in_list_end_absent :
    (h : Nodes) (d : ℕ)
    → child h d end_name ≡ none
    → child h d any_name ≡ none
    → in_list_end h (go_on d) ≡ false
unfolding in_list_end
in_list_end_absent h d e f = ap₂ (λ a b. is_node a || is_node b) e f

in_list_end_end :
    (h : Nodes) (d n : ℕ) → child h d end_name ≡ some n → in_list_end h (go_on d) ≡ true
unfolding in_list_end
in_list_end_end h d n e = ap (λ a. is_node a || is_node (child h d any_name)) e

in_list_end_any :
    (h : Nodes) (d n : ℕ)
    → child h d end_name ≡ none
    → child h d any_name ≡ some n
    → in_list_end h (go_on d) ≡ true
unfolding in_list_end
in_list_end_any h d n e f = ap₂ (λ a b. is_node a || is_node b) e f

accepts_any :
    (h : Nodes) (d n : ℕ) (l : Text) (ls : List Text)
    → child h d any_name ≡ some n
    → accepts h d (l ∷ ls) ≡ true
unfolding accepts visit accepts_after
accepts_any h d n l ls e = ap (λ a. accepts_after h ls a (child h d l)) e

accepts_stop :
    (h : Nodes) (d : ℕ) (l : Text) (ls : List Text)
    → child h d any_name ≡ none
    → child h d l ≡ none
    → accepts h d (l ∷ ls) ≡ false
unfolding accepts visit accepts_after
accepts_stop h d l ls e f = ap₂ (accepts_after h ls) e f

accepts_next :
    (h : Nodes) (d n : ℕ) (l : Text) (ls : List Text)
    → child h d any_name ≡ none
    → child h d l ≡ some n
    → accepts h d (l ∷ ls) ≡ accepts h n ls
unfolding accepts visit accepts_after
accepts_next h d n l ls e f = ap₂ (accepts_after h ls) e f

in_list_end_iff : (h : Nodes) (d : ℕ) → (in_list_end h (go_on d) ≡ true) ↔ Covered (Has h d) []
unfolding in_list_end Covered
in_list_end_iff h d = elim (Option-cases (child h d end_name)) [
  | inr (n, e) ↦ ((λ t. inl (Has-one h d n end_name e)), (λ c. in_list_end_end h d n e))
  | inl e ↦ elim (Option-cases (child h d any_name)) [
    | inr (n, f) ↦ ((λ t. inr (Has-one h d n any_name f)), (λ c. in_list_end_any h d n e f))
    | inl f ↦ (
      (λ t. absurd (false≢true (sym (in_list_end_absent h d e f) ∙ t))),
      (λ c.
          absurd
            (elim c [ inl p ↦ Has-not h d end_name [] e p | inr p ↦ Has-not h d any_name [] f p ])),
    )
  ]
]

-- `_inList` answers whether one of those ways leads to a node.
pub accepts_iff :
    (h : Nodes) (d : ℕ) (ls : List Text) → (accepts h d ls ≡ true) ↔ Covered (Has h d) ls
unfolding accepts visit Covered
accepts_iff h d [] = in_list_end_iff h d
accepts_iff h d (l ∷ ls) = elim (Option-cases (child h d any_name)) [
  | inr (n, e) ↦ ((λ t. inl (Has-one h d n any_name e)), (λ c. accepts_any h d n l ls e))
  | inl e ↦ elim (Option-cases (child h d l)) [
    | inl f ↦ (
      (λ t. absurd (false≢true (sym (accepts_stop h d l ls e f) ∙ t))),
      (λ c. absurd (elim c [
        | inl p ↦ Has-not h d any_name [] e p
        | inr p ↦ Covered-none (λ q. Has h d (l ∷ q)) ls (λ m q. Has-not h d l (m ∷ q) f) p
      ])),
    )
    | inr (n, f) ↦
        let next = accepts_iff h n ls in
        (
          (λ t. inr (
              Covered-map (Has h n) (λ q. Has h d (l ∷ q)) ls
                (λ m q (k, g). (k, walk-child h d n l (m ∷ q) f ∙ g))
                (next.0 (sym (accepts_next h d n l ls e f) ∙ t)))),
          (λ c. elim c [
            | inl p ↦ absurd (Has-not h d any_name [] e p)
            | inr p ↦
                accepts_next h d n l ls e f
                ∙ (next.1 (
                    Covered-map (λ q. Has h d (l ∷ q)) (Has h n) ls
                      (λ m q (k, g). (k, sym (walk-child h d n l (m ∷ q) f) ∙ g)) p))
          ]),
        )
  ]
]
