-- ===== src/Rules/Line.antt =====
-- Dev/Main/src/TransProxy/DomainRules.cpp: what the constructor reads in a line of the rule file.
use trans_proxy.Base.{
  ℕ, ◌+◌, Bool, true, false, ◌&&◌, ◌||◌, Option, none, some, [], ◌∷◌, ltb, leb, ◌==◌, length, drop,
  if◌then◌else◌,
}
use trans_proxy.Text.{Text, strstr, strchr}

abbrev pub space : ℕ
space = b' '

-- `while (*p && *p <= ' ') ++p`. A text ends at its NUL.
unfoldable pub skip_blank : Text → Text
skip_blank [] = []
skip_blank (c ∷ s) = let rest = skip_blank s in if leb c space then rest else c ∷ s

-- `while (l && domain[l - 1] < ' ') --l`, which cuts the text from its end.
unfoldable pub strip_end : Text → Text
strip_end [] = []
strip_end (c ∷ s) = elim (strip_end s) [
  | [] ↦ if ltb c space then [] else c ∷ []
  | x ∷ rest ↦ c ∷ x ∷ rest
]

-- `p[0] == a && p[1] == b`
abbrev pub starts_pair : ℕ → ℕ → Text → Bool
starts_pair a b [] = false
starts_pair a b (x ∷ []) = false
starts_pair a b (x ∷ y ∷ s) = (x == a) && (y == b)

-- `p[0] == a`
abbrev pub starts_byte : ℕ → Text → Bool
starts_byte a [] = false
starts_byte a (x ∷ s) = x == a

-- `q = strstr (p, "://"); if (q) p = q + 3;`
unfoldable pub after_scheme : Text → Text
unfolding strstr
after_scheme p = elim (strstr p (b':' ∷ b'/' ∷ b'/' ∷ [])) [ none ↦ p | some q ↦ drop (q + 3) p ]

-- The length `m` of the host part.
unfoldable pub host_length : Text → ℕ
unfolding strchr
host_length p = elim (strchr p b'/') [ none ↦ length p | some q ↦ q ]

-- `q && q < p + m` for the first dot
abbrev pub dot_before : ℕ → Option ℕ → Bool
dot_before m none = false
dot_before m (some q) = ltb q m

-- The choice between the three kinds of rules: the domain, and whether all hosts under it are meant.
unfoldable pub rule_kind : Text → Text × Bool
rule_kind p =
    if starts_byte b'.' p
    then (drop 1 p, true)
    else if starts_pair b'|' b'|' p
    then (drop 2 p, true)
    else (p, false)

-- From `q = strstr (p, "://")` on.
unfoldable pub parse_rule : Bool → Text → Option (Bool × Text × Bool)
unfolding after_scheme host_length rule_kind strchr
parse_rule direct line =
    let p = after_scheme line in
    let m = host_length p in
    let (domain, whole) = rule_kind p in
    if (m == 0) || starts_byte b'/' p
    then none
    else if dot_before m (strchr p b'.')
    then some (direct, domain, whole)
    else none

-- A line: whether it names a direct domain, the domain, and whether it is meant with all below it;
-- `none` where the loop goes on with the next line.
unfoldable pub parse_line : Text → Option (Bool × Text × Bool)
unfolding skip_blank parse_rule
parse_line line =
    let p = skip_blank line in
    if (length p == 0) || starts_byte b'!' p
    then none
    else if starts_pair b'@' b'@' p
    then parse_rule true (drop 2 p)
    else parse_rule false p
