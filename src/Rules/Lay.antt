-- ===== src/Rules/Lay.antt =====
-- `_add (domains, domain)` of DomainRules.cpp: the way that a domain's labels lay below a root.
use mathlib.Core.List.{append_assoc, append-nil}
use trans_proxy.Base.{
  ℕ, ◌+◌, ◌≤◌, ◌<◌, ◌≡◌, ◌⊎◌, inl, inr, refl, sym, ap, ◌∙◌, some, List, [], ◌∷◌, ◌++◌, length,
  size_mod, arith,
}
use trans_proxy.Map.{◌>>=◌}
use trans_proxy.Text.{Text}
use trans_proxy.Rules.{Nodes, add_node}
use trans_proxy.Rules.Paths.{walk, walk-child, walk-append, Has}
use trans_proxy.Rules.Scan.{add_path}
use trans_proxy.Rules.Grow.{walk_bound, IsForest, Added}
use trans_proxy.Rules.Insert.{add_node-Added}

abbrev pub Prefix : List Text → List Text → Type 0
Prefix [] ls = Unit {0}
Prefix (x ∷ q) [] = ⊥
Prefix (x ∷ q) (l ∷ ls) = (x ≡ l) × Prefix q ls

pub Prefix_self : (ls : List Text) → Prefix ls ls
Prefix_self [] = tt
Prefix_self (l ∷ ls) = (refl, Prefix_self ls)

-- `h` with the labels laid below the node `d`, which is reached from the root `r` by the way `p`.
pub record Laid (h : Nodes) (r d : ℕ) (p ls : List Text) : Type 0 where
  pub nodes : Nodes
  pub id : ℕ
  pub result : add_path ls h d ≡ some (nodes, id)
  pub forest : IsForest nodes
  pub grows : length nodes ≤ length h + length ls
  pub end : walk nodes r (p ++ ls) ≡ some id
  pub kept : (e m : ℕ) (q : List Text) → walk h e q ≡ some m → walk nodes e q ≡ some m
  pub back :
      (r' m : ℕ) (q : List Text)
      → r' < 2
      → walk nodes r' q ≡ some m
      → Has h r' q ⊎ ((r' ≡ r) × (t : List Text) × (q ≡ p ++ t) × Prefix t ls)

add_path-cons :
    (l : Text) (ls : List Text) (h : Nodes) (d : ℕ) (h' : Nodes) (d' : ℕ)
    → add_node h d l ≡ some (h', d')
    → add_path (l ∷ ls) h d ≡ add_path ls h' d'
unfolding add_path
add_path-cons l ls h d h' d' e = ap (λ o. o >>= λ (h', d'). add_path ls h' d') e

lay_step :
    (h : Nodes) (r d : ℕ) (p : List Text) (l : Text) (ls : List Text)
    → r < 2
    → (IsForest h)
    → walk h r p ≡ some d
    → (a : Added h d l) → Laid a.nodes r a.id (p ++ (l ∷ [])) ls
    → Laid h r d p (l ∷ ls)
lay_step h r d p l ls two f w a rest = record {
  nodes = rest.nodes;
  id = rest.id;
  result = add_path-cons l ls h d a.nodes a.id a.result ∙ rest.result;
  forest = rest.forest;
  grows = omega (arith, rest.grows, a.grows);
  end = ap (walk rest.nodes r) (sym (append_assoc p (l ∷ []) ls)) ∙ rest.end;
  kept = λ e m q g. rest.kept e m q (a.kept e m q g);
  back = λ r' m q b g. elim (rest.back r' m q b g) [
    | inr (e, t, s, i) ↦ inr (e, l ∷ t, s ∙ append_assoc p (l ∷ []) t, (refl, i))
    | inl (n, o) ↦ elim (a.back r' n q o) [
      | inl old ↦ inl (n, old)
      | inr (p', s, v, i) ↦
          let (root, way) = f.alone r' r p' p d b two v w in
          inr (root, l ∷ [], s ∙ ap (λ x. x ++ (l ∷ [])) way, (refl, tt))
    ]
  ];
}

-- The labels of a domain are laid below the way that leads to `d`; nothing else is reached anew.
pub add_path-Laid :
    (h : Nodes) (r d : ℕ) (p ls : List Text)
    → IsForest h
    → r < 2
    → walk h r p ≡ some d
    → length h + length ls < size_mod
    → Laid h r d p ls
add_path-Laid h r d p [] f two w space = record {
  nodes = h;
  id = d;
  result = (unfold add_path in refl);
  forest = f;
  grows = omega arith;
  end = ap (walk h r) (append-nil p) ∙ w;
  kept = λ e m q g. g;
  back = λ r' m q b g. inl (m, g);
}
add_path-Laid h r d p (l ∷ ls) f two w space =
    let a = add_node-Added h d l f (walk_bound h r d p f (omega (arith, f.two)) w) (omega arith) in
    let way : walk a.nodes r (p ++ (l ∷ [])) ≡ some a.id =
      walk-append a.nodes r d p (l ∷ []) (a.kept r d p w)
      ∙ walk-child a.nodes d a.id l [] a.new
      ∙ (unfold walk in refl) in
    lay_step h r d p l ls two f w a
      (add_path-Laid a.nodes r a.id (p ++ (l ∷ [])) ls a.forest two way (omega (arith, a.grows)))
