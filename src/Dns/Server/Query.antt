-- ===== src/Dns/Server/Query.antt =====
-- How `DNS::onReceived` reads a query for one name.
use mathlib.Core.List.{append_assoc}
use trans_proxy.Base.{
  ℕ, zero, suc, ◌+◌, ◌-◌, ◌*◌, ◌≤◌, ◌<◌, ◌≡◌, refl, ap, ap₂, ◌∙◌, false, some, List, [], ◌∷◌, ◌++◌,
  ltb, ◌==◌, ==_false, length, length-append, take-append, drop-append, ltb-false, arith,
}
use trans_proxy.Map.{◌>>=◌}
use trans_proxy.Map.Sorted.{All, append-All}
use trans_proxy.Text.{Text}
use trans_proxy.Resolver.File.{c_string}
use trans_proxy.Resolver.Reload.{c_string_lem}
use trans_proxy.Dns.Server.{read_labels, question_of, read_question}

-- The bytes of a name in a query, and its labels behind dots.
unfoldable pub wire : List Text → List ℕ
wire [] = 0 ∷ []
wire (l ∷ ls) = length l ∷ (l ++ wire ls)

unfoldable pub dots : List Text → Text
dots [] = []
dots (l ∷ ls) = b'.' ∷ (l ++ dots ls)

-- A label: neither empty nor longer than a byte counts, and without NUL.
pub record IsLabel (l : Text) : Type 0 where
  pub full : 1 ≤ length l
  pub short : length l < 256
  pub text : All (λ c. (c == 0) ≡ false) l

-- A query with these labels and this type.
unfoldable pub query : (i i' f f' : ℕ) → Text → List Text → ℕ → List ℕ
unfolding wire
query i i' f f' l ls qtype =
    i ∷ i' ∷ f ∷ f' ∷ 0 ∷ 1 ∷ 0 ∷ 0 ∷ 0 ∷ 0 ∷ 0 ∷ 0 ∷ (wire (l ∷ ls) ++ (0 ∷ qtype ∷ 0 ∷ 1 ∷ []))

length-wire : (ls : List Text) → length (wire ls) ≡ length (dots ls) + 1
unfolding wire dots
length-wire [] = refl
length-wire (l ∷ ls) =
    omega (arith, length-wire ls, length-append l (wire ls), length-append l (dots ls))

dots_text : (ls : List Text) → All IsLabel ls → All (λ c. (c == 0) ≡ false) (dots ls)
unfolding dots
dots_text [] a = tt
dots_text (l ∷ ls) a =
    (refl, append-All (λ c. (c == 0) ≡ false) l (dots ls) a.0.text (dots_text ls a.1))

labels_step :
    (fuel : ℕ) (l rest : List ℕ)
    → 1 ≤ length l
    → read_labels (suc fuel) (length l ∷ (l ++ rest))
      ≡ (read_labels fuel rest >>= λ (buf, behind). some ((b'.' ∷ l) ++ buf, behind))
unfolding read_labels
labels_step fuel l rest full =
    let long : ltb (length (l ++ rest)) (length l) ≡ false =
      ltb-false (length (l ++ rest)) (length l) (omega (arith, length-append l rest)) in
    rw (==_false (length l) 0 (omega arith), long)
      (ap₂ (λ a b. read_labels fuel b >>= λ (buf, behind). some ((b'.' ∷ a) ++ buf, behind))
        (take-append l rest) (drop-append l rest))

-- The labels of a name are read back behind dots.
read_labels-wire :
    (ls : List Text) (rest : List ℕ) (fuel : ℕ)
    → All IsLabel ls
    → length ls < fuel
    → read_labels fuel (wire ls ++ rest) ≡ some (dots ls, rest)
unfolding wire dots
read_labels-wire ls rest zero a lt = absurd (omega (arith, lt))
read_labels-wire [] rest (suc fuel) a lt = unfold read_labels in refl
read_labels-wire (l ∷ ls) rest (suc fuel) a lt =
    ap (λ q. read_labels (suc fuel) (length l ∷ q)) (append_assoc l (wire ls) rest)
    ∙ labels_step fuel l (wire ls ++ rest) a.0.full
    ∙ ap (λ o. o >>= λ (buf, behind). some ((b'.' ∷ l) ++ buf, behind))
        (read_labels-wire ls rest fuel a.1 (omega arith))

few_labels : (ls : List Text) → length ls < length (wire ls)
unfolding wire
few_labels [] = omega arith
few_labels (l ∷ ls) = omega (arith, few_labels ls, length-append l (wire ls))

question_lem :
    (n : ℕ) (s : Text) (qtype : ℕ)
    → c_string s ≡ s
    → ltb n 16 ≡ false
    → ltb (n - 16) (length (b'.' ∷ s) + 1) ≡ false
    → question_of n (b'.' ∷ s) (0 ∷ qtype ∷ 0 ∷ 1 ∷ []) ≡ some (s, qtype, 1)
unfolding question_of
question_lem n s qtype text long fits =
    let same : 0 * 256 + qtype ≡ qtype = omega arith in
    rw (long, fits, text) (ap (λ t. some (s, t, 1)) same)

pub question_read :
    (i i' f f' : ℕ) (l : Text) (ls : List Text) (qtype : ℕ)
    → All IsLabel (l ∷ ls)
    → read_question (query i i' f f' l ls qtype) ≡ some (l ++ dots ls, qtype, 1)
unfolding query read_question dots
question_read i i' f f' l ls qtype a =
    let rest = 0 ∷ qtype ∷ 0 ∷ 1 ∷ [] in
    let bytes = query i i' f f' l ls qtype in
    let all : length bytes ≡ 16 + length (wire (l ∷ ls)) =
      omega (arith, length-append (wire (l ∷ ls)) rest) in
    let read : read_labels (length bytes) (wire (l ∷ ls) ++ rest) ≡ some (dots (l ∷ ls), rest) =
      read_labels-wire (l ∷ ls) rest (length bytes) a (omega (arith, few_labels (l ∷ ls), all)) in
    let text : c_string (l ++ dots ls) ≡ l ++ dots ls =
      c_string_lem (l ++ dots ls)
        (append-All (λ c. (c == 0) ≡ false) l (dots ls) a.0.text (dots_text ls a.1)) in
    let long : ltb (length bytes) 16 ≡ false = ltb-false (length bytes) 16 (omega (arith, all)) in
    let fits : ltb (length bytes - 16) (length (dots (l ∷ ls)) + 1) ≡ false =
      ltb-false (length bytes - 16) (length (dots (l ∷ ls)) + 1)
        (omega (arith, all, length-wire (l ∷ ls))) in
    ap (λ o. o >>= λ (buf, behind). question_of (length bytes) buf behind) read
    ∙ question_lem (length bytes) (l ++ dots ls) qtype text long fits
