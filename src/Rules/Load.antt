-- ===== src/Rules/Load.antt =====
-- The constructor of `DomainRules` lays the labels of each rule of the file.
use trans_proxy.Base.{
  ℕ, ◌+◌, ◌≤◌, ◌<◌, ◌≡◌, ◌↔◌, inl, inr, refl, sym, ap, subst, ◌∙◌, Bool, true, false, Option, none,
  some, List, [], ◌∷◌, ◌++◌, length, Option-cases, size_mod, arith,
}
use trans_proxy.Map.{◌>>=◌}
use trans_proxy.Text.{Text}
use trans_proxy.Rules.{Nodes, child, add_node}
use trans_proxy.Rules.Labels.{Rule}
use trans_proxy.Rules.Paths.{walk, walk-child, walk_stops, not_both, Has}
use trans_proxy.Rules.Scan.{add_path}
use trans_proxy.Rules.Grow.{IsForest}
use trans_proxy.Rules.Lay.{Prefix, add_path-Laid}
use trans_proxy.Rules.Meaning.{root_of, AnyRule, AnyRule-append}

Prefix-append : (q ls ms : List Text) → Prefix q ls → Prefix q (ls ++ ms)
Prefix-append [] ls ms p = tt
Prefix-append (x ∷ q) [] ms p = absurd p
Prefix-append (x ∷ q) (l ∷ ls) ms p = (p.0, Prefix-append q ls ms p.1)

append-Prefix : (ls t ms : List Text) → Prefix t ms → Prefix (ls ++ t) (ls ++ ms)
append-Prefix [] t ms p = p
append-Prefix (l ∷ ls) t ms p = (refl, append-Prefix ls t ms p)

walk_first :
    (h : Nodes) (d n : ℕ) (l : Text) (ls : List Text)
    → walk h d (l ∷ ls) ≡ some n
    → (m : ℕ) × (child h d l ≡ some m) × (walk h m ls ≡ some n)
walk_first h d n l ls e = elim (Option-cases (child h d l)) [
  | inl f ↦ absurd (not_both (sym e ∙ walk_stops h d l ls f))
  | inr (m, f) ↦ (m, f, sym (walk-child h d m l ls f) ∙ e)
]

-- The beginnings of a way lead to nodes.
walk-Prefix :
    (h : Nodes) (d n : ℕ) (q ls : List Text) → Prefix q ls → walk h d ls ≡ some n → Has h d q
walk-Prefix h d n [] ls p e = (d, unfold walk in refl)
walk-Prefix h d n (x ∷ q) [] p e = absurd p
walk-Prefix h d n (x ∷ q) (l ∷ ls) p e =
    let (m, f, g) = walk_first h d n l ls e in
    let (k, w) = walk-Prefix h m n q ls p.1 g in
    (k, ap (λ y. walk h d (y ∷ q)) p.0 ∙ walk-child h d m l q f ∙ w)

-- The nodes are a forest whose ways are the beginnings of the rules.
pub record Holds (h : Nodes) (rules : List Rule) : Type 0 where
  pub forest : IsForest h
  pub ways :
      (r : ℕ) (l : Text) (q : List Text)
      → r < 2
      → Has h r (l ∷ q) ↔ AnyRule r (Prefix (l ∷ q)) rules

-- How many nodes the rules need at most.
unfoldable pub weight : List Rule → ℕ
weight [] = 0
weight ((kind, ls) ∷ rules) = length ls + weight rules

-- `h`, which holds the rules, with the labels of one more rule.
pub record WithRule (h : Nodes) (rules : List Rule) (kind : Bool) (ls : List Text) (mark : Text)
    : Type 0 where
  pub nodes : Nodes
  pub id : ℕ
  pub laid : Nodes
  pub last : ℕ
  pub domain : add_path ls h (root_of kind) ≡ some (laid, last)
  pub marked : add_node laid last mark ≡ some (nodes, id)
  pub grows : length nodes ≤ length h + (length ls + 1)
  pub holds : Holds nodes (rules ++ ((kind, ls ++ (mark ∷ [])) ∷ []))

root_two : (kind : Bool) → root_of kind < 2
root_two true = omega arith
root_two false = omega arith

bind_back : {A : Type 0} (o : Option (A × ℕ)) → (o >>= λ (a, b). some (a, b)) ≡ o
bind_back none = refl
bind_back (some p) = refl

pub lay_rule :
    (h : Nodes) (rules : List Rule) (kind : Bool) (ls : List Text) (mark : Text)
    → Holds h rules
    → length h + (length ls + 1) < size_mod
    → WithRule h rules kind ls mark
lay_rule h rules kind ls mark v space =
    let r = root_of kind in
    let a =
      add_path-Laid h r r [] ls v.forest (root_two kind) (unfold walk in refl) (omega arith) in
    let b =
      add_path-Laid a.nodes r a.id ls (mark ∷ []) a.forest (root_two kind) a.end
        (omega (arith, a.grows)) in
    let R : List Text = ls ++ (mark ∷ []) in
    record {
      nodes = b.nodes;
      id = b.id;
      laid = a.nodes;
      last = a.id;
      domain = a.result;
      marked = sym (bind_back (add_node a.nodes a.id mark)) ∙ (unfold add_path in b.result);
      grows = omega (arith, a.grows, b.grows);
      holds = record {
        forest = b.forest;
        ways = λ r' l q two. (
          (λ (n, w).
              (AnyRule-append r' (Prefix (l ∷ q)) rules ((kind, R) ∷ [])).1
                (elim (b.back r' n (l ∷ q) two w) [
                  | inr (e, t, s, p) ↦
                      inr (
                        inl (e, subst (λ x. Prefix x R) (sym s) (append-Prefix ls t (mark ∷ []) p)))
                  | inl (m, o) ↦ elim (a.back r' m (l ∷ q) two o) [
                    | inl old ↦ inl ((v.ways r' l q two).0 old)
                    | inr (e, t, s, p) ↦ inr (
                        inl (
                          e,
                          Prefix-append (l ∷ q) ls (mark ∷ []) (subst (λ x. Prefix x ls) (sym s) p),
                        ))
                  ]
                ])),
          (λ x. elim ((AnyRule-append r' (Prefix (l ∷ q)) rules ((kind, R) ∷ [])).0 x) [
            | inl old ↦
                let (n, w) = (v.ways r' l q two).1 old in
                (n, b.kept r' n (l ∷ q) (a.kept r' n (l ∷ q) w))
            | inr new ↦ elim new [
              | inl (e, p) ↦
                  subst (λ k. Has b.nodes k (l ∷ q)) (sym e)
                    (walk-Prefix b.nodes r b.id (l ∷ q) R p b.end)
              | inr other ↦ elim other [ ]
            ]
          ]),
        );
      };
    }
