-- ===== src/Rules/Labels.antt =====
-- What a rule and a host mean, apart from the loops and the nodes that decide it.
use trans_proxy.Base.{
  ℕ, Bool, true, false, ◌&&◌, ◌||◌, Option, none, some, List, [], ◌∷◌, ◌++◌, ◌==◌, if◌then◌else◌,
}
use trans_proxy.Text.{Text, eq}
use trans_proxy.Rules.{dot, any_name, end_name}
use trans_proxy.Rules.Line.{strip_end, parse_line}

abbrev pub push : ℕ → List Text → List Text
push c [] = (c ∷ []) ∷ []
push c (l ∷ ls) = (c ∷ l) ∷ ls

-- The labels between the dots of a domain, in the order of the text.
unfoldable pub split_dots : Text → List Text
split_dots [] = [] ∷ []
split_dots (c ∷ s) = let ls = split_dots s in if c == dot then [] ∷ ls else push c ls

unfoldable pub backwards : List Text → List Text
backwards [] = []
backwards (l ∷ ls) = backwards ls ++ (l ∷ [])

-- The labels of a domain, the top level first.
unfoldable pub labels : Text → List Text
unfolding split_dots backwards
labels s = backwards (split_dots s)

abbrev pub all_full : List Text → Bool
all_full [] = true
all_full (l ∷ ls) = elim l [ [] ↦ false | _ ∷ _ ↦ all_full ls ]

-- A rule: whether it names direct domains, and its labels with the mark that ends them.
abbrev pub Rule : Type 0
Rule = Bool × List Text

-- The rule of a line that has one: no label of the domain is empty.
unfoldable pub meaning : Option (Bool × Text × Bool) → List Rule
unfolding strip_end labels
meaning none = []
meaning (some (direct, domain, whole)) =
    let ls = labels (strip_end domain) in
    if all_full ls then (direct, ls ++ ((if whole then any_name else end_name) ∷ [])) ∷ [] else []

unfoldable pub rules_of : List Text → List Rule
unfolding parse_line meaning
rules_of [] = []
rules_of (line ∷ lines) = meaning (parse_line line) ++ rules_of lines

-- Whether a rule with these labels covers a host: all labels agree up to a `*`, or up to the end.
unfoldable pub covers : List Text → List Text → Bool
unfolding eq
covers [] ls = false
covers (r ∷ rs) [] = eq r any_name || eq r end_name
covers (r ∷ rs) (l ∷ ls) = eq r any_name || (eq r l && covers rs ls)

abbrev pub same_kind : Bool → Bool → Bool
same_kind true b = b
same_kind false true = false
same_kind false false = true

-- Whether a rule of the file covers the host.
unfoldable pub any_covers : Bool → List Rule → Text → Bool
unfolding covers labels
any_covers direct [] host = false
any_covers direct ((kind, r) ∷ rs) host =
    (same_kind direct kind && covers r (labels host)) || any_covers direct rs host
