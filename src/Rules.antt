-- ===== src/Rules.antt =====
-- Dev/Main/src/TransProxy/DomainRules.h and DomainRules.cpp: which hosts go through the proxy.
pub mod Line
pub mod Labels
pub mod Paths
pub mod Grow
pub mod Scan
pub mod Split
pub mod Insert
pub mod Lay
pub mod Meaning
pub mod Load
pub mod Refine
pub mod Answers
mod Tests
use trans_proxy.Base.{
  ℕ, zero, suc, ◌+◌, ◌-◌, Bool, true, false, ◌&&◌, ◌||◌, Option, none, some, List, [], ◌∷◌, ◌++◌,
  ◌==◌, length, get_or, set, take, drop, if◌then◌else◌,
}
use trans_proxy.Map.{Item, leaf, ◌>>=◌}
use trans_proxy.Map.Api
use trans_proxy.Map.Api.{AvlMap}
use trans_proxy.Text.{Text}
use trans_proxy.Text.Order.{text_key}
use trans_proxy.Rules.Line.{strip_end, parse_line}

abbrev pub dot : ℕ
dot = b'.'

-- The names of the two nodes that end a rule.
abbrev pub any_name : Text
any_name = b'*' ∷ []

abbrev pub end_name : Text
end_name = dot ∷ []

-- The `childs` maps of all nodes by address. A node stands for its map: the node's item carries the
-- address as its identity and the node's `domain` as its key.
abbrev pub Nodes : Type 0
Nodes = List (AvlMap Text)

-- `childs (NULL)`
abbrev pub no_childs : AvlMap Text
no_childs = record { named = false; root = leaf; size = 0 }

abbrev pub childs_at : Nodes → ℕ → AvlMap Text
childs_at h d = get_or h d no_childs

-- `_proxyDomains` and `_directDomains`
abbrev pub proxy_domains : ℕ
proxy_domains = 0

abbrev pub direct_domains : ℕ
direct_domains = 1

unfoldable pub no_rules : Nodes
no_rules = no_childs ∷ no_childs ∷ []

-- `domains->get (name)`: the address of the node, which is that of its `childs`.
unfoldable pub child : Nodes → ℕ → Text → Option ℕ
unfolding Api.get
child h d name = Api.get (childs_at h d).root name >>= λ x. some x.id

-- `_add (domains, domain, length)`: the node that is there, or a new one.
unfoldable pub found_or_new : Nodes → ℕ → Text → Option ℕ → Option (Nodes × ℕ)
unfolding Api.add
found_or_new h d name (some n) = some (h, n)
found_or_new h d name none = do
  let n = length h
  (_, m) ← Api.add (childs_at h d) (record { id = n; key = name })
  some (set h d m ++ (no_childs ∷ []), n)

unfoldable pub add_node : Nodes → ℕ → Text → Option (Nodes × ℕ)
unfolding found_or_new child
add_node h d name = found_or_new h d name (child h d name)

-- `domain[begin]`, and the text from `begin` up to `end`.
abbrev pub byte_at : Text → ℕ → ℕ
byte_at s i = get_or s i 0

abbrev pub slice : Text → ℕ → ℕ → Text
slice s begin end = take (end - begin) (drop begin s)

-- The first loop of `_add (domains, domain)`, which goes down from `begin`: false where a label is
-- empty and it returns NULL.
unfoldable pub no_empty_label : Text → (begin end : ℕ) → Bool
no_empty_label s zero end = if zero == end then false else true
no_empty_label s (suc b) end =
    let at_dot = byte_at s b == dot in
    let rest = no_empty_label s b (if at_dot then b else end) in
    if at_dot && (suc b == end) then false else rest

-- One round of the second loop at `begin = b + 1`: the nodes, the map to go on in and the new `end`.
unfoldable pub add_label : Bool → Text → (b end : ℕ) → Nodes → ℕ → Option (Nodes × ℕ × ℕ)
unfolding add_node
add_label true s b end h d = do (h', d') ← add_node h d (slice s (suc b) end); some (h', d', b)
add_label false s b end h d = some (h, d, end)

unfoldable pub add_labels : Text → (begin end : ℕ) → Nodes → ℕ → Option (Nodes × ℕ)
unfolding add_node add_label
add_labels s zero end h d = add_node h d (slice s zero end)
add_labels s (suc b) end h d = do
  (h', d', end') ← add_label (byte_at s b == dot) s b end h d
  add_labels s b end' h' d'

-- `_add (domains, domain)`: `none` inside stands for NULL.
unfoldable pub add_domain : Nodes → ℕ → Text → Option (Nodes × Option ℕ)
unfolding strip_end no_empty_label add_labels
add_domain h domains domain =
    let s = strip_end domain in
    let l = length s in
    if no_empty_label s l l
    then (do (h', d) ← add_labels s l l h domains; some (h', some d))
    else some (h, none)

-- `if (domains) { _add (domains, mark, 1); ++count; }`
unfoldable pub add_mark : Text → ℕ → Nodes → Option ℕ → Option (Nodes × ℕ)
unfolding add_node
add_mark mark count h none = some (h, count)
add_mark mark count h (some d) = do (h', _) ← add_node h d mark; some (h', count + 1)

-- The end of a round of the constructor's loop, for the rule that a line holds.
unfoldable pub load_rule : Nodes → ℕ → Option (Bool × Text × Bool) → Option (Nodes × ℕ)
unfolding add_domain add_mark
load_rule h count none = some (h, count)
load_rule h count (some (direct, domain, whole)) = do
  (h', domains) ← add_domain h (if direct then direct_domains else proxy_domains) domain
  add_mark (if whole then any_name else end_name) count h' domains

-- The constructor's loop, over the lines of the file that `fgets` returns.
unfoldable pub load_lines : Nodes → ℕ → List Text → Option (Nodes × ℕ)
unfolding load_rule parse_line
load_lines h count [] = some (h, count)
load_lines h count (line ∷ lines) = do
  (h', count') ← load_rule h count (parse_line line)
  load_lines h' count' lines

-- What a round of the loop of `_inList` comes to: the answer, or the map to go on in.
pub data Visit : Type 0 where
  answer : Bool → Visit
  go_on : ℕ → Visit

abbrev pub follow : Option ℕ → Visit
follow none = answer false
follow (some n) = go_on n

abbrev pub visit_at : Option ℕ → Option ℕ → Visit
visit_at (some _) next = answer true
visit_at none next = follow next

unfoldable pub visit : Nodes → ℕ → Text → Visit
unfolding child
visit h d label = visit_at (child h d any_name) (child h d label)

-- `!= NULL`
abbrev pub is_node : Option ℕ → Bool
is_node none = false
is_node (some n) = true

-- The test that follows the loop.
unfoldable pub in_list_end : Nodes → Visit → Bool
unfolding child
in_list_end h (answer r) = r
in_list_end h (go_on n) = is_node (child h n end_name) || is_node (child h n any_name)

-- The loop of `_inList`, which goes down from `begin`.
unfoldable pub in_list_from : Nodes → Text → (begin end : ℕ) → ℕ → Bool
unfolding visit in_list_end
in_list_from h s zero end d = in_list_end h (visit h d (slice s zero end))
in_list_from h s (suc b) end d =
    let at_dot = byte_at s b == dot in
    elim (if at_dot then visit h d (slice s (suc b) end) else go_on d) [
      | answer r ↦ r
      | go_on n ↦ in_list_from h s b (if at_dot then b else end) n
    ]

unfoldable pub in_list : Nodes → ℕ → Text → Bool
unfolding in_list_from
in_list h domains hostname = let l = length hostname in in_list_from h hostname l l domains

unfoldable pub accept_proxy : Nodes → ℕ → Text → Bool
unfolding in_list
accept_proxy h client hostname = in_list h proxy_domains hostname

unfoldable pub deny_proxy : Nodes → ℕ → Text → Bool
unfolding in_list
deny_proxy h client hostname = in_list h direct_domains hostname
