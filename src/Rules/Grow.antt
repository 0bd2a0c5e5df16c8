-- ===== src/Rules/Grow.antt =====
-- A node added below a map of the rules: every way down stays, and one way is new.
use trans_proxy.Base.{
  ℕ, zero, suc, ◌+◌, ◌≤◌, ◌<◌, ◌≡◌, ◌≢◌, ◌⊎◌, inl, inr, refl, sym, ap, subst, ◌∙◌, none, some, List,
  [], ◌∷◌, ◌++◌, length, set, Option-cases, arith,
}
use trans_proxy.Map.{Item, ◌>>=◌}
use trans_proxy.Map.Sorted.{All}
use trans_proxy.Map.Api
use trans_proxy.Map.Api.{AvlMap}
use trans_proxy.Map.Api.Valid.{contents}
use trans_proxy.Map.Api.Lookup.{Finds, get-Finds}
use trans_proxy.Map.Api.Added.{All-Member, IsTable}
use trans_proxy.Text.{Text}
use trans_proxy.Text.Order.{text_key}
use trans_proxy.Rules.{Nodes, no_childs, childs_at, child, add_node}
use trans_proxy.Rules.Paths.{walk, walk-child, walk_stops, walk_nil, not_both}

some_id : {A : Type 0} {a b : A} → some a ≡ some b → a ≡ b
some_id e = cc

at_end : (h : Nodes) (e : ℕ) → childs_at (h ++ (no_childs ∷ [])) e ≡ childs_at h e
at_end [] zero = refl
at_end [] (suc e) = refl
at_end (x ∷ h) zero = refl
at_end (x ∷ h) (suc e) = at_end h e

pub at_self :
    (h : Nodes) (d : ℕ) (m : AvlMap Text)
    → d < length h
    → childs_at (set h d m ++ (no_childs ∷ [])) d ≡ m
at_self [] d m lt = absurd (omega arith)
at_self (x ∷ h) zero m lt = refl
at_self (x ∷ h) (suc d) m lt = at_self h d m (omega arith)

pub at_other :
    (h : Nodes) (d e : ℕ) (m : AvlMap Text)
    → d < length h
    → e ≢ d
    → childs_at (set h d m ++ (no_childs ∷ [])) e ≡ childs_at h e
at_other [] d e m lt n = absurd (omega arith)
at_other (x ∷ h) zero zero m lt n = absurd (n refl)
at_other (x ∷ h) zero (suc e) m lt n = at_end h e
at_other (x ∷ h) (suc d) zero m lt n = refl
at_other (x ∷ h) (suc d) (suc e) m lt n = at_other h d e m (omega arith) (λ q. n (ap suc q))

pub at_none : (h : Nodes) (e : ℕ) → length h ≤ e → childs_at h e ≡ no_childs
at_none [] e le = refl
at_none (x ∷ h) zero le = absurd (omega arith)
at_none (x ∷ h) (suc e) le = at_none h e (omega arith)

-- The nodes form trees below the two roots: each is an item of one map only.
pub record IsForest (h : Nodes) : Type 0 where
  pub tables : (d : ℕ) → IsTable (childs_at h d)
  pub below : (d : ℕ) → All (λ x. x.id < length h) (contents (childs_at h d))
  pub room : (d : ℕ) → (childs_at h d).size ≤ length h
  pub two : 2 ≤ length h
  pub alone :
      (r r' : ℕ) (q q' : List Text) (n : ℕ)
      → r < 2
      → r' < 2
      → walk h r q ≡ some n
      → walk h r' q' ≡ some n
      → (r ≡ r') × (q ≡ q')

child_item :
    (h : Nodes) (d n : ℕ) (l : Text)
    → child h d l ≡ some n
    → (x : Item Text) × (Api.get (childs_at h d).root l ≡ some x) × (x.id ≡ n)
unfolding child
child_item h d n l e = elim (Option-cases (Api.get (childs_at h d).root l)) [
  | inl f ↦ absurd (not_both (sym e ∙ ap (λ o. o >>= λ x. some x.id) f))
  | inr (x, f) ↦ (x, f, some_id (sym (ap (λ o. o >>= λ x. some x.id) f) ∙ e))
]

pub child_absent :
    (h : Nodes) (d : ℕ) (l : Text) → child h d l ≡ none → Api.get (childs_at h d).root l ≡ none
unfolding child
child_absent h d l e = elim (Option-cases (Api.get (childs_at h d).root l)) [
  | inl f ↦ f
  | inr (x, f) ↦ absurd (not_both (sym (ap (λ o. o >>= λ x. some x.id) f) ∙ e))
]

pub child_at :
    (h h' : Nodes) (d e : ℕ) (l : Text)
    → Api.get (childs_at h d).root l ≡ Api.get (childs_at h' e).root l
    → child h d l ≡ child h' e l
unfolding child
child_at h h' d e l q = ap (λ o. o >>= λ x. some x.id) q

pub child_bound :
    (h : Nodes) (d n : ℕ) (l : Text) → IsForest h → child h d l ≡ some n → n < length h
child_bound h d n l f e =
    let (x, g, same) = child_item h d n l e in
    let (member, key) =
      subst (Finds l (contents (childs_at h d))) g
        (get-Finds (childs_at h d).root l (f.tables d).valid.sorted) in
    subst (λ k. k < length h) same
      (All-Member (λ y. y.id < length h) (contents (childs_at h d)) (f.below d) member)

pub walk_bound :
    (h : Nodes) (d n : ℕ) (q : List Text)
    → IsForest h
    → d < length h
    → walk h d q ≡ some n
    → n < length h
walk_bound h d n [] f lt e = subst (λ k. k < length h) (walk_nil h d n e) lt
walk_bound h d n (l ∷ q) f lt e = elim (Option-cases (child h d l)) [
  | inl g ↦ absurd (not_both (sym e ∙ walk_stops h d l q g))
  | inr (m, g) ↦ walk_bound h m n q f (child_bound h d m l f g) (sym (walk-child h d m l q g) ∙ e)
]

-- `h` with the node that `_add (domains, domain, length)` returns.
pub record Added (h : Nodes) (d : ℕ) (name : Text) : Type 0 where
  pub nodes : Nodes
  pub id : ℕ
  pub result : add_node h d name ≡ some (nodes, id)
  pub forest : IsForest nodes
  pub grows : length nodes ≤ length h + 1
  pub new : child nodes d name ≡ some id
  pub kept : (e m : ℕ) (q : List Text) → walk h e q ≡ some m → walk nodes e q ≡ some m
  pub back :
      (e m : ℕ) (q : List Text)
      → walk nodes e q ≡ some m
      → (walk h e q ≡ some m)
        ⊎ ((p : List Text) × (q ≡ p ++ (name ∷ [])) × (walk h e p ≡ some d) × (m ≡ id))
