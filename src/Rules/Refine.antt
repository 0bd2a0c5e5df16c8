-- ===== src/Rules/Refine.antt =====
-- The constructor of `DomainRules` loads the rules that the lines of its file hold.
use mathlib.Core.List.{append_assoc, append-nil}
use trans_proxy.Base.{
  ℕ, ◌+◌, ◌≤◌, ◌<◌, ◌≡◌, inl, inr, refl, sym, ap, subst, ◌∙◌, Bool, true, false, Option, none, some,
  List, [], ◌∷◌, ◌++◌, length, length-append, Bool-cases, if◌then◌else◌, size_mod, arith,
}
use trans_proxy.Map.{◌>>=◌}
use trans_proxy.Text.{Text}
use trans_proxy.Rules.{
  Nodes, any_name, end_name, add_labels, add_domain, add_mark, load_rule, load_lines,
}
use trans_proxy.Rules.Line.{strip_end, parse_line}
use trans_proxy.Rules.Labels.{labels, all_full, Rule, meaning, rules_of}
use trans_proxy.Rules.Scan.{add_path, add_labels-scan}
use trans_proxy.Rules.Split.{scan-labels, no_empty_label-labels}
use trans_proxy.Rules.Meaning.{root_of}
use trans_proxy.Rules.Load.{Holds, weight, WithRule, lay_rule}

weight-append : (xs ys : List Rule) → weight (xs ++ ys) ≡ weight xs + weight ys
unfolding weight
weight-append [] ys = omega arith
weight-append ((kind, ls) ∷ xs) ys = omega (arith, weight-append xs ys)

-- `h`, which holds the rules, after a round of the constructor's loop, or after the loop.
pub record Loaded (h : Nodes) (rules : List Rule) (count : ℕ) (more : List Rule)
    (result : Option (Nodes × ℕ)) : Type 0 where
  pub nodes : Nodes
  pub found : result ≡ some (nodes, count + length more)
  pub grows : length nodes ≤ length h + weight more
  pub holds : Holds nodes (rules ++ more)

add_domain_full :
    (h : Nodes) (d : ℕ) (domain : Text) (nodes : Nodes) (n : ℕ)
    → all_full (labels (strip_end domain)) ≡ true
    → add_path (labels (strip_end domain)) h d ≡ some (nodes, n)
    → add_domain h d domain ≡ some (nodes, some n)
unfolding add_domain
add_domain_full h d domain nodes n e f =
    let s = strip_end domain in
    let all : add_labels s (length s) (length s) h d ≡ some (nodes, n) =
      add_labels-scan s (length s) (length s) h d
      ∙ ap (λ ls. add_path ls h d) (scan-labels s)
      ∙ f in
    rw (no_empty_label-labels s ∙ e) (ap (λ o. o >>= λ (h', d'). some (h', some d')) all)

add_domain_empty :
    (h : Nodes) (d : ℕ) (domain : Text)
    → all_full (labels (strip_end domain)) ≡ false
    → add_domain h d domain ≡ some (h, none)
unfolding add_domain
add_domain_empty h d domain e = rw (no_empty_label-labels (strip_end domain) ∙ e) refl

load_rule-cases :
    (h : Nodes) (count : ℕ) (direct whole : Bool) (domain : Text) (h' : Nodes) (o : Option ℕ)
    → add_domain h (root_of direct) domain ≡ some (h', o)
    → load_rule h count (some (direct, domain, whole))
      ≡ add_mark (if whole then any_name else end_name) count h' o
unfolding load_rule
load_rule-cases h count direct whole domain h' o e =
    ap (λ x. x >>= λ (k, d). add_mark (if whole then any_name else end_name) count k d) e

no_rule_there :
    (h : Nodes) (rules : List Rule) (count : ℕ) (o : Option (Nodes × ℕ))
    → Holds h rules
    → o ≡ some (h, count)
    → Loaded h rules count [] o
no_rule_there h rules count o v e = record {
  nodes = h;
  found = e ∙ ap (λ n. some (h, n)) (omega arith);
  grows = unfold weight in omega arith;
  holds = subst (Holds h) (sym (append-nil rules)) v;
}

meaning_empty :
    (direct whole : Bool) (domain : Text)
    → all_full (labels (strip_end domain)) ≡ false
    → meaning (some (direct, domain, whole)) ≡ []
unfolding meaning
meaning_empty direct whole domain e = rw e refl

meaning_full :
    (direct whole : Bool) (domain : Text)
    → all_full (labels (strip_end domain)) ≡ true
    → meaning (some (direct, domain, whole))
      ≡ (direct, labels (strip_end domain) ++ ((if whole then any_name else end_name) ∷ [])) ∷ []
unfolding meaning
meaning_full direct whole domain e = rw e refl

weight_one : (kind : Bool) (ls : List Text) → weight ((kind, ls) ∷ []) ≡ length ls
unfolding weight
weight_one kind ls = omega arith

rule_laid :
    (h : Nodes) (rules : List Rule) (count : ℕ) (direct whole : Bool) (domain : Text)
    → let mark = (if whole then any_name else end_name) in
      let ls = labels (strip_end domain) in
      all_full ls ≡ true
      → WithRule h rules direct ls mark
      → Loaded h rules count
          ((direct, ls ++ (mark ∷ [])) ∷ [])
          (load_rule h count (some (direct, domain, whole)))
rule_laid h rules count direct whole domain e w =
    let mark : Text = (if whole then any_name else end_name) in
    let ls = labels (strip_end domain) in
    record {
      nodes = w.nodes;
      found =
          load_rule-cases h count direct whole domain w.laid (some w.last)
            (add_domain_full h (root_of direct) domain w.laid w.last e w.domain)
          ∙ (unfold add_mark in ap (λ o. o >>= λ (h', n). some (h', count + 1)) w.marked);
      grows =
          omega
            (arith, w.grows, weight_one direct (ls ++ (mark ∷ [])), length-append ls (mark ∷ []));
      holds = w.holds;
    }

load_rule-Loaded :
    (h : Nodes) (rules : List Rule) (count : ℕ) (line : Option (Bool × Text × Bool))
    → Holds h rules
    → length h + weight (meaning line) < size_mod
    → Loaded h rules count (meaning line) (load_rule h count line)
unfolding meaning
load_rule-Loaded h rules count none v space =
    no_rule_there h rules count (load_rule h count none) v (unfold load_rule in refl)
load_rule-Loaded h rules count (some (direct, domain, whole)) v space =
    let mark : Text = (if whole then any_name else end_name) in
    let ls = labels (strip_end domain) in
    let result = load_rule h count (some (direct, domain, whole)) in
    elim (Bool-cases (all_full ls)) [
      | inr e ↦
          subst (λ more. Loaded h rules count more result)
            (sym (meaning_empty direct whole domain e))
            (no_rule_there h rules count result v (
              load_rule-cases h count direct whole domain h none
                (add_domain_empty h (root_of direct) domain e)
              ∙ (unfold add_mark in refl)))
      | inl e ↦
          let what = meaning_full direct whole domain e in
          let room : length h + (length ls + 1) < size_mod = omega (
            arith,
            subst (λ more. length h + weight more < size_mod) what space,
            weight_one direct (ls ++ (mark ∷ [])),
            length-append ls (mark ∷ []),
          ) in
          subst (λ more. Loaded h rules count more result) (sym what)
            (rule_laid h rules count direct whole domain e (lay_rule h rules direct ls mark v room))
    ]

load_lines_step :
    (h : Nodes) (count : ℕ) (line : Text) (lines : List Text) (h' : Nodes) (n : ℕ)
    → load_rule h count (parse_line line) ≡ some (h', n)
    → load_lines h count (line ∷ lines) ≡ load_lines h' n lines
unfolding load_lines
load_lines_step h count line lines h' n e = ap (λ o. o >>= λ (k, c). load_lines k c lines) e

rules_of-cons :
    (line : Text) (lines : List Text)
    → rules_of (line ∷ lines) ≡ meaning (parse_line line) ++ rules_of lines
unfolding rules_of
rules_of-cons line lines = refl

pub load_lines-Loaded :
    (h : Nodes) (rules : List Rule) (count : ℕ) (lines : List Text)
    → Holds h rules
    → length h + weight (rules_of lines) < size_mod
    → Loaded h rules count (rules_of lines) (load_lines h count lines)
unfolding rules_of
load_lines-Loaded h rules count [] v space =
    no_rule_there h rules count (load_lines h count []) v (unfold load_lines in refl)
load_lines-Loaded h rules count (line ∷ lines) v space =
    let now = meaning (parse_line line) in
    let later = rules_of lines in
    let parts : weight (rules_of (line ∷ lines)) ≡ weight now + weight later =
      ap weight (rules_of-cons line lines) ∙ weight-append now later in
    let a = load_rule-Loaded h rules count (parse_line line) v (omega (arith, parts)) in
    let b =
      load_lines-Loaded a.nodes (rules ++ now) (count + length now) lines a.holds
        (omega (arith, parts, a.grows)) in
    let all : count + length now + length later ≡ count + length (now ++ later) =
      omega (arith, length-append now later) in
    subst (λ more. Loaded h rules count more (load_lines h count (line ∷ lines)))
      (sym (rules_of-cons line lines))
      (record {
        nodes = b.nodes;
        found =
            load_lines_step h count line lines a.nodes (count + length now) a.found
            ∙ b.found
            ∙ ap (λ n. some (b.nodes, n)) all;
        grows = omega (arith, a.grows, b.grows, weight-append now later);
        holds = subst (Holds b.nodes) (append_assoc rules now later) b.holds;
      })
