-- ===== src/Rules/Answers.antt =====
-- `acceptProxy` and `denyProxy` of DomainRules.cpp answer as the rules of the file say.
use mathlib.Core.Bool.{false≢true}
use trans_proxy.Base.{
  ℕ, zero, suc, ◌+◌, ◌≤◌, ◌<◌, ◌≡◌, ◌↔◌, refl, sym, ap, subst, ◌∙◌, Bool, true, false, none, some,
  List, [], ◌∷◌, length, size_mod, arith,
}
use trans_proxy.Map.{◌>>=◌}
use trans_proxy.Map.Api
use trans_proxy.Map.Api.Added.{IsTable, empty-IsTable}
use trans_proxy.Map.Api.Valid.{contents}
use trans_proxy.Map.Sorted.{All}
use trans_proxy.Text.{Text}
use trans_proxy.Text.Order.{text_key}
use trans_proxy.Rules.{
  Nodes, no_childs, childs_at, child, no_rules, load_lines, in_list, accept_proxy, deny_proxy,
}
use trans_proxy.Rules.Labels.{labels, Rule, rules_of, any_covers}
use trans_proxy.Rules.Paths.{
  walk, walk_stops, walk_nil, not_both, Has, Covered-map, accepts, accepts_iff,
}
use trans_proxy.Rules.Scan.{in_list-scan}
use trans_proxy.Rules.Split.{scan-labels}
use trans_proxy.Rules.Lay.{Prefix}
use trans_proxy.Rules.Meaning.{root_of, AnyRule, Covered-AnyRule, any_covers_iff}
use trans_proxy.Rules.Load.{Holds, weight}
use trans_proxy.Rules.Refine.{load_lines-Loaded}

all_empty : (d : ℕ) → childs_at no_rules d ≡ no_childs
unfolding no_rules
all_empty zero = refl
all_empty (suc zero) = refl
all_empty (suc (suc d)) = refl

no_child : (d : ℕ) (l : Text) → child no_rules d l ≡ none
unfolding child
no_child d l = ap (λ m. Api.get m.root l >>= λ x. some x.id) (all_empty d)

no_way : (d n : ℕ) (q : List Text) → walk no_rules d q ≡ some n → (q ≡ []) × (d ≡ n)
no_way d n [] e = (refl, walk_nil no_rules d n e)
no_way d n (l ∷ q) e = absurd (not_both (sym e ∙ walk_stops no_rules d l q (no_child d l)))

-- Before any rule is loaded there are the two roots only.
no_rules-Holds : Holds no_rules []
no_rules-Holds = record {
  forest = record {
    tables = λ d. subst IsTable (sym (all_empty d)) (empty-IsTable false);
    below = λ d. subst (λ m. All (λ x. x.id < length no_rules) (contents m)) (sym (all_empty d)) tt;
    room = λ d. subst (λ m. m.size ≤ length no_rules) (sym (all_empty d)) (omega arith);
    two = unfold no_rules in omega arith;
    alone = λ r r' q q' n a b v w.
        let (none_left, root) = no_way r n q v in
        let (none_left', root') = no_way r' n q' w in
        (root ∙ sym root', none_left ∙ sym none_left');
  };
  ways = λ r l q two.
      ((λ (n, w). not_both (sym w ∙ walk_stops no_rules r l q (no_child r l))), (λ a. elim a [ ]));
}

bool_ext : (a b : Bool) → ((a ≡ true) ↔ (b ≡ true)) → a ≡ b
bool_ext true b e = sym (e.0 refl)
bool_ext false true e = absurd (false≢true (e.1 refl))
bool_ext false false e = refl

in_list-accepts : (h : Nodes) (d : ℕ) (host : Text) → in_list h d host ≡ accepts h d (labels host)
unfolding in_list
in_list-accepts h d host =
    in_list-scan h host (length host) (length host) d ∙ ap (accepts h d) (scan-labels host)

root_below : (direct : Bool) → root_of direct < 2
root_below true = omega arith
root_below false = omega arith

-- Nodes that hold the rules answer as the rules do.
in_list-any_covers :
    (h : Nodes) (rules : List Rule) (direct : Bool) (host : Text)
    → Holds h rules
    → in_list h (root_of direct) host ≡ any_covers direct rules host
in_list-any_covers h rules direct host v =
    let r = root_of direct in
    let ls = labels host in
    let reach = accepts_iff h r ls in
    let some_rule = Covered-AnyRule r rules ls in
    let said = any_covers_iff direct rules host in
    in_list-accepts h r host
    ∙ bool_ext (accepts h r ls) (any_covers direct rules host) (
      (λ e. said.1 (
          some_rule.0 (
            Covered-map (Has h r) (λ q. AnyRule r (Prefix q) rules) ls
              (λ l q. (v.ways r l q (root_below direct)).0) (reach.0 e)))),
      (λ e. reach.1 (
          Covered-map (λ q. AnyRule r (Prefix q) rules) (Has h r) ls
            (λ l q. (v.ways r l q (root_below direct)).1) (some_rule.1 (said.0 e)))),
    )

-- Where the rules of a file need fewer nodes than a `size_t` counts, the constructor of `DomainRules`
-- loads all of them and no others, and from then on `acceptProxy` answers whether one of the proxy
-- rules covers the labels of the host, and `denyProxy` whether one of the direct rules does.
pub load_lines_lem :
    (lines : List Text)
    → 2 + weight (rules_of lines) < size_mod
    → (h : Nodes) × (load_lines no_rules 0 lines ≡ some (h, length (rules_of lines)))
      × ((client : ℕ) (host : Text)
          → (accept_proxy h client host ≡ any_covers false (rules_of lines) host)
            × (deny_proxy h client host ≡ any_covers true (rules_of lines) host))
unfolding accept_proxy deny_proxy no_rules
load_lines_lem lines space =
    let a = load_lines-Loaded no_rules [] 0 lines no_rules-Holds space in
    (
      a.nodes,
      a.found ∙ ap (λ n. some (a.nodes, n)) (omega arith),
      (λ client host. (
        in_list-any_covers a.nodes (rules_of lines) false host a.holds,
        in_list-any_covers a.nodes (rules_of lines) true host a.holds,
      )),
    )
