-- ===== src/Text.antt =====
-- Dev/Main/src/Base/String.h: the text of a `String`, as the bytes before its closing NUL.
pub mod Order
pub mod Search
mod Tests
use Prim.Native.Char.{code}
use Prim.Native.String.{String}
use trans_proxy.Base.{
  ℕ, suc, zero, ◌+◌, ◌-◌, Bool, true, false, not, ◌||◌, Option, none, some, List, [], ◌∷◌, ◌++◌,
  ltb, ◌==◌, length, take, drop, if◌then◌else◌,
}
use trans_proxy.Map.Order.{Sign, less, same, greater}

abbrev pub Text : Type 0
Text = List ℕ

-- The bytes of a literal, which the code has between quotes.
abbrev pub codes : String → Text
codes String.[] = []
codes (String.◌∷◌ c s) = code c ∷ codes s

-- `strcmp`: bytes compare as unsigned numbers, and a text comes after its beginnings.
unfoldable pub strcmp : Text → Text → Sign
strcmp [] [] = same
strcmp [] (y ∷ ys) = less
strcmp (x ∷ xs) [] = greater
strcmp (x ∷ xs) (y ∷ ys) =
    let rest = strcmp xs ys in if x == y then rest else if ltb y x then greater else less

-- `… < 0`, `… == 0` and `… > 0` of such a result.
abbrev pub is_less : Sign → Bool
is_less less = true
is_less _ = false

abbrev pub is_same : Sign → Bool
is_same same = true
is_same _ = false

abbrev pub is_greater : Sign → Bool
is_greater greater = true
is_greater _ = false

unfoldable pub lt : Text → Text → Bool
unfolding strcmp
lt a b = is_less (strcmp a b)

unfoldable pub le : Text → Text → Bool
unfolding strcmp
le a b = is_less (strcmp a b) || is_same (strcmp a b)

unfoldable pub eq : Text → Text → Bool
unfolding strcmp
eq a b = is_same (strcmp a b)

unfoldable pub ge : Text → Text → Bool
unfolding strcmp
ge a b = is_greater (strcmp a b) || is_same (strcmp a b)

unfoldable pub gt : Text → Text → Bool
unfolding strcmp
gt a b = is_greater (strcmp a b)

unfoldable pub ne : Text → Text → Bool
unfolding strcmp
ne a b = not (is_same (strcmp a b))

-- `strncmp (a, b, n) == 0`
abbrev pub same_start : ℕ → Text → Text → Bool
same_start n a b = eq (take n a) (take n b)

unfoldable pub starts_with : Text → Text → Bool
unfolding eq
starts_with s prefix =
    let l = length s in let m = length prefix in if ltb l m then false else same_start m s prefix

unfoldable pub ends_with : Text → Text → Bool
unfolding eq
ends_with s postfix =
    let l = length s in
    let m = length postfix in if ltb l m then false else eq (drop (l - m) s) postfix

-- Whether `ss` stands at the start of `s`.
abbrev pub at_start : Text → Text → Bool
at_start [] s = true
at_start (x ∷ xs) [] = false
at_start (x ∷ xs) (y ∷ ys) = let rest = at_start xs ys in if x == y then rest else false

abbrev pub next_index : Option ℕ → Option ℕ
next_index none = none
next_index (some i) = some (suc i)

-- `strstr`: the index of the first place where `ss` stands.
unfoldable pub strstr : Text → Text → Option ℕ
strstr [] ss = if at_start ss [] then some 0 else none
strstr (c ∷ s) ss =
    let rest = strstr s ss in if at_start ss (c ∷ s) then some 0 else next_index rest

-- `strchr`: the index of the first such byte.
unfoldable pub strchr : Text → ℕ → Option ℕ
strchr [] c = none
strchr (x ∷ s) c = let rest = strchr s c in if x == c then some 0 else next_index rest

-- `!= NULL`
abbrev pub is_found : Option ℕ → Bool
is_found none = false
is_found (some i) = true

unfoldable pub contains : Text → Text → Bool
unfolding strstr
contains s ss = is_found (strstr s ss)

-- `indexOf`: `none` stands for -1.
unfoldable pub index_of : Text → Text → Option ℕ
unfolding strstr
index_of s ss = strstr s ss

unfoldable pub index_of_char : Text → ℕ → Option ℕ
unfolding strchr
index_of_char s c = strchr s c

-- `substring (a)`, and `substring (a, b)`, whose second argument is a length.
unfoldable pub substring_from : Text → ℕ → Text
substring_from s a = drop a s

unfoldable pub substring : Text → ℕ → ℕ → Text
substring s a b = take b (drop a s)
