-- ===== src/Rules/Insert.antt =====
-- `_add (domains, domain, length)` of DomainRules.cpp finds a node or adds one.
use mathlib.Core.Bool.{false≢true}
use native.Mathlib.Decide.{ℕ_discrete}
use trans_proxy.Base.{
  ℕ, ◌+◌, ◌≤◌, ◌<◌, ◌≡◌, ◌≢◌, ◌⊎◌, inl, inr, refl, sym, ap, subst, ◌∙◌, none, some, List, [], ◌∷◌,
  ◌++◌, length, set, length-append, length-set, Bool-cases, Option-cases, size_mod, arith,
}
use trans_proxy.Map.{Item, ◌>>=◌}
use trans_proxy.Map.Sorted.{All, All-map, place-All}
use trans_proxy.Map.Api
use trans_proxy.Map.Api.{AvlMap}
use trans_proxy.Map.Api.Valid.{contents}
use trans_proxy.Map.Api.Added.{IsTable, Grown, add-Grown}
use trans_proxy.Text.{Text, eq}
use trans_proxy.Text.Order.{text-Agree, text_key}
use trans_proxy.Rules.{Nodes, no_childs, childs_at, child, found_or_new, add_node}
use trans_proxy.Rules.Paths.{walk, walk-child, walk_stops, walk_nil, not_both}
use trans_proxy.Rules.Grow.{
  at_self, at_other, at_none, child_absent, child_at, walk_bound, IsForest, Added,
}

none_beyond : (h : Nodes) (e : ℕ) (l : Text) → length h ≤ e → child h e l ≡ none
unfolding child
none_beyond h e l le = ap (λ m. Api.get m.root l >>= λ x. some x.id) (at_none h e le)

-- A node that is not there, below a node of the forest.
module _ (h : Nodes) (d : ℕ) (name : Text) (f : IsForest h) (lt : d < length h)
    (absent : child h d name ≡ none) (space : length h + 1 < size_mod) where
  item : Item Text
  item = record { id = length h; key = name }

  grown : Grown (childs_at h d) item
  unfolding item
  grown =
      let room = f.room d in
      add-Grown (childs_at h d) item (f.tables d) (child_absent h d name absent)
        (All-map (contents (childs_at h d)) (λ x g. (omega arith)) (f.below d)) (omega arith)

  nodes : Nodes
  unfolding grown
  nodes = set h d grown.map ++ (no_childs ∷ [])

  length-nodes : length nodes ≡ length h + 1
  unfolding nodes
  length-nodes =
      omega (arith, length-append (set h d grown.map) (no_childs ∷ []), length-set h d grown.map)

  result : add_node h d name ≡ some (nodes, length h)
  unfolding add_node found_or_new nodes item
  result =
      ap (found_or_new h d name) absent
      ∙ ap (λ o. o >>= λ (_, m). some (set h d m ++ (no_childs ∷ []), length h)) grown.result

  child_new : child nodes d name ≡ some (length h)
  unfolding child nodes item
  child_new =
      ap (λ m. Api.get m.root name >>= λ x. some x.id) (at_self h d grown.map lt)
      ∙ ap (λ o. o >>= λ x. some x.id) grown.get_new

  child_beside : (l : Text) → name ≢ l → child nodes d l ≡ child h d l
  unfolding nodes item
  child_beside l n =
      child_at nodes h d d l
        (ap (λ m. Api.get m.root l) (at_self h d grown.map lt) ∙ grown.get_old l n)

  child_other : (e : ℕ) (l : Text) → e ≢ d → child nodes e l ≡ child h e l
  unfolding nodes
  child_other e l n =
      child_at nodes h e e l (ap (λ m. Api.get m.root l) (at_other h d e grown.map lt n))

  child_below_new : (l : Text) → child nodes (length h) l ≡ none
  child_below_new l =
      child_other (length h) l (λ e. omega (arith, e)) ∙ none_beyond h (length h) l (omega arith)

  child_kept : (e m : ℕ) (l : Text) → child h e l ≡ some m → child nodes e l ≡ some m
  child_kept e m l g = elim (ℕ_discrete e d) [
    | no n ↦ child_other e l n ∙ g
    | yes same ↦ elim (Bool-cases (eq name l)) [
      | inl t ↦
          let own = (text-Agree.eq_iff name l).0 t in
          absurd (not_both (sym g ∙ ap (λ k. child h k l) same ∙ ap (child h d) (sym own) ∙ absent))
      | inr t ↦
          let differ : name ≢ l = (λ q. false≢true (sym t ∙ (text-Agree.eq_iff name l).1 q)) in
          ap (λ k. child nodes k l) same
          ∙ child_beside l differ
          ∙ ap (λ k. child h k l) (sym same)
          ∙ g
    ]
  ]

  child_back :
      (e m : ℕ) (l : Text)
      → child nodes e l ≡ some m
      → (child h e l ≡ some m) ⊎ ((e ≡ d) × (l ≡ name) × (m ≡ length h))
  child_back e m l g = elim (ℕ_discrete e d) [
    | no n ↦ inl (sym (child_other e l n) ∙ g)
    | yes same ↦ elim (Bool-cases (eq name l)) [
      | inl t ↦
          let own = (text-Agree.eq_iff name l).0 t in
          let same_node : some m ≡ some (length h) =
            sym g ∙ ap (λ k. child nodes k l) same ∙ ap (child nodes d) (sym own) ∙ child_new in
          inr (same, sym own, cc)
      | inr t ↦
          let differ : name ≢ l = (λ q. false≢true (sym t ∙ (text-Agree.eq_iff name l).1 q)) in
          inl (
            ap (λ k. child h k l) same
            ∙ sym (child_beside l differ)
            ∙ ap (λ k. child nodes k l) (sym same)
            ∙ g)
    ]
  ]

  walk_kept : (e m : ℕ) (q : List Text) → walk h e q ≡ some m → walk nodes e q ≡ some m
  walk_kept e m [] g = unfold walk in g
  walk_kept e m (l ∷ q) g = elim (Option-cases (child h e l)) [
    | inl o ↦ absurd (not_both (sym g ∙ walk_stops h e l q o))
    | inr (k, o) ↦
        walk-child nodes e k l q (child_kept e k l o)
        ∙ walk_kept k m q (sym (walk-child h e k l q o) ∙ g)
  ]

  walk_new : (m : ℕ) (q : List Text) → walk nodes (length h) q ≡ some m → (q ≡ []) × (m ≡ length h)
  walk_new m [] g = (refl, sym (walk_nil nodes (length h) m g))
  walk_new m (l ∷ q) g =
      absurd (not_both (sym g ∙ walk_stops nodes (length h) l q (child_below_new l)))

  -- A way down among the new nodes is an old one, or ends with the new node.
  walk_back :
      (e m : ℕ) (q : List Text)
      → walk nodes e q ≡ some m
      → (walk h e q ≡ some m)
        ⊎ ((p : List Text) × (q ≡ p ++ (name ∷ [])) × (walk h e p ≡ some d) × (m ≡ length h))
  walk_back e m [] g = inl (unfold walk in g)
  walk_back e m (l ∷ q) g = elim (Option-cases (child nodes e l)) [
    | inl o ↦ absurd (not_both (sym g ∙ walk_stops nodes e l q o))
    | inr (k, o) ↦
        let rest = sym (walk-child nodes e k l q o) ∙ g in
        elim (child_back e k l o) [
          | inl old ↦ elim (walk_back k m q rest) [
            | inl w ↦ inl (walk-child h e k l q old ∙ w)
            | inr (p, s, w, n) ↦ inr (l ∷ p, ap (λ x. l ∷ x) s, walk-child h e k l p old ∙ w, n)
          ]
          | inr (at, own, fresh) ↦
              let (nothing, n) = walk_new m q (subst (λ x. walk nodes x q ≡ some m) fresh rest) in
              inr (
                [],
                ap (λ x. x ∷ q) own ∙ ap (λ x. name ∷ x) nothing,
                (unfold walk in ap some at),
                n,
              )
        ]
  ]

  at_all :
      (P : AvlMap Text → Type 0)
      → P grown.map
      → ((e : ℕ) → P (childs_at h e))
      → (e : ℕ) → P (childs_at nodes e)
  unfolding nodes
  at_all P own others e = elim (ℕ_discrete e d) [
    | yes same ↦ subst P (sym (ap (childs_at nodes) same ∙ at_self h d grown.map lt)) own
    | no n ↦ subst P (sym (at_other h d e grown.map lt n)) (others e)
  ]

  new_not_old : (r n : ℕ) (q : List Text) → r < 2 → walk h r q ≡ some n → n ≢ length h
  new_not_old r n q two w e =
      let under : n < length h = walk_bound h r n q f (omega (arith, f.two)) w in omega arith

  nodes-IsForest : IsForest nodes
  nodes-IsForest = record {
    tables = at_all IsTable grown.table f.tables;
    below =
        at_all (λ m. All (λ x. x.id < length nodes) (contents m))
          (subst (All (λ x. x.id < length nodes)) (sym grown.in_order) (
            place-All (λ x. x.id < length nodes) item (contents (childs_at h d))
              (unfold item in omega (arith, length-nodes))
              (All-map (contents (childs_at h d)) (λ x g. omega (arith, length-nodes))
                (f.below d))))
          (λ e.
            All-map (contents (childs_at h e)) (λ x g. omega (arith, length-nodes)) (f.below e));
    room =
        at_all (λ m. m.size ≤ length nodes) (omega (arith, grown.size, f.room d, length-nodes))
          (λ e. omega (arith, f.room e, length-nodes));
    two = omega (arith, f.two, length-nodes);
    alone = λ r r' q q' n a b v w. elim (walk_back r n q v) [
      | inl o ↦ elim (walk_back r' n q' w) [
        | inl o' ↦ f.alone r r' q q' n a b o o'
        | inr (p, s, w', e) ↦ absurd (new_not_old r n q a o e)
      ]
      | inr (p, s, o, e) ↦ elim (walk_back r' n q' w) [
        | inl o' ↦ absurd (new_not_old r' n q' b o' e)
        | inr (p', s', o', e') ↦
            let (root, way) = f.alone r r' p p' d a b o o' in
            (root, s ∙ ap (λ x. x ++ (name ∷ [])) way ∙ sym s')
      ]
    ];
  }

  new_node-Added : Added h d name
  new_node-Added = record {
    nodes = nodes;
    id = length h;
    result = result;
    forest = nodes-IsForest;
    grows = omega (arith, length-nodes);
    new = child_new;
    kept = walk_kept;
    back = walk_back;
  }

there :
    (h : Nodes) (d n : ℕ) (name : Text) → child h d name ≡ some n → add_node h d name ≡ some (h, n)
unfolding add_node found_or_new
there h d n name e = ap (found_or_new h d name) e

-- `_add (domains, domain, length)` returns the node with the name, and keeps the forest.
pub add_node-Added :
    (h : Nodes) (d : ℕ) (name : Text)
    → IsForest h
    → d < length h
    → length h + 1 < size_mod
    → Added h d name
add_node-Added h d name f lt space = elim (Option-cases (child h d name)) [
  | inl e ↦ new_node-Added h d name f lt e space
  | inr (n, e) ↦ record {
    nodes = h;
    id = n;
    result = there h d n name e;
    forest = f;
    grows = omega arith;
    new = e;
    kept = λ e m q g. g;
    back = λ e m q g. inl g;
  }
]
