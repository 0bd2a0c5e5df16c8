-- ===== src/Rules/Meaning.antt =====
-- A host is covered by the ways down that some rule begins with exactly when a rule covers it.
use mathlib.Core.Bool.{false≢true}
use trans_proxy.Base.{
  ℕ, ◌≡◌, ◌↔◌, ◌⊎◌, inl, inr, refl, sym, Bool, true, false, ◌&&◌, ◌||◌, List, [], ◌∷◌, ◌++◌,
  if◌then◌else◌,
}
use trans_proxy.Text.{Text, eq}
use trans_proxy.Text.Order.{text-Agree}
use trans_proxy.Rules.{any_name, end_name, proxy_domains, direct_domains}
use trans_proxy.Rules.Labels.{labels, Rule, covers, same_kind, any_covers}
use trans_proxy.Rules.Paths.{Covered, Covered-map, Covered-none}
use trans_proxy.Rules.Lay.{Prefix}

-- The root under which a rule is laid.
abbrev pub root_of : Bool → ℕ
root_of direct = if direct then direct_domains else proxy_domains

-- Some rule under the root has the property.
abbrev pub AnyRule : ℕ → (List Text → Type 0) → List Rule → Type 0
AnyRule r P [] = ⊥
AnyRule r P ((kind, ls) ∷ rules) = ((r ≡ root_of kind) × P ls) ⊎ AnyRule r P rules

pub AnyRule-map :
    (r : ℕ) (P Q : List Text → Type 0) (rules : List Rule)
    → ((ls : List Text) → P ls → Q ls)
    → AnyRule r P rules
    → AnyRule r Q rules
AnyRule-map r P Q [] f a = a
AnyRule-map r P Q ((kind, ls) ∷ rules) f (inl (e, p)) = inl (e, f ls p)
AnyRule-map r P Q ((kind, ls) ∷ rules) f (inr a) = inr (AnyRule-map r P Q rules f a)

pub AnyRule-append :
    (r : ℕ) (P : List Text → Type 0) (rules more : List Rule)
    → AnyRule r P (rules ++ more) ↔ (AnyRule r P rules ⊎ AnyRule r P more)
AnyRule-append r P [] more = ((λ a. inr a), (λ c. elim c [ inl a ↦ elim a [ ] | inr a ↦ a ]))
AnyRule-append r P ((kind, ls) ∷ rules) more =
    let rest = AnyRule-append r P rules more in
    (
      (λ a. elim a [
        | inl p ↦ inl (inl p)
        | inr b ↦ elim (rest.0 b) [ inl c ↦ inl (inr c) | inr c ↦ inr c ]
      ]),
      (λ a. elim a [
        | inl b ↦ elim b [ inl p ↦ inl p | inr c ↦ inr (rest.1 (inl c)) ]
        | inr c ↦ inr (rest.1 (inr c))
      ]),
    )

Covered-and :
    (A : Type 0) (P : List Text → Type 0) (ls : List Text)
    → Covered (λ q. A × P q) ls
    → A × Covered P ls
unfolding Covered
Covered-and A P [] (inl (a, p)) = (a, inl p)
Covered-and A P [] (inr (a, p)) = (a, inr p)
Covered-and A P (l ∷ ls) (inl (a, p)) = (a, inl p)
Covered-and A P (l ∷ ls) (inr c) = let (a, p) = Covered-and A (λ q. P (l ∷ q)) ls c in (a, inr p)

Covered-or :
    (P Q : List Text → Type 0) (ls : List Text)
    → Covered (λ q. P q ⊎ Q q) ls
    → Covered P ls ⊎ Covered Q ls
unfolding Covered
Covered-or P Q [] (inl (inl p)) = inl (inl p)
Covered-or P Q [] (inl (inr p)) = inr (inl p)
Covered-or P Q [] (inr (inl p)) = inl (inr p)
Covered-or P Q [] (inr (inr p)) = inr (inr p)
Covered-or P Q (l ∷ ls) (inl (inl p)) = inl (inl p)
Covered-or P Q (l ∷ ls) (inl (inr p)) = inr (inl p)
Covered-or P Q (l ∷ ls) (inr c) = elim (Covered-or (λ q. P (l ∷ q)) (λ q. Q (l ∷ q)) ls c) [
  | inl p ↦ inl (inr p)
  | inr p ↦ inr (inr p)
]

-- A way that some rule begins with covers the host exactly when the ways of one rule do.
pub Covered-AnyRule :
    (r : ℕ) (rules : List Rule) (ls : List Text)
    → Covered (λ q. AnyRule r (Prefix q) rules) ls
      ↔ AnyRule r (λ R. Covered (λ q. Prefix q R) ls) rules
Covered-AnyRule r [] ls = ((λ c. Covered-none (λ q. ⊥) ls (λ l q n. n) c), (λ a. elim a [ ]))
Covered-AnyRule r ((kind, R) ∷ rules) ls =
    let rest = Covered-AnyRule r rules ls in
    (
      (λ c.
          elim (Covered-or (λ q. (r ≡ root_of kind) × Prefix q R) (λ q. AnyRule r (Prefix q) rules)
            ls c) [
              | inl d ↦ inl (Covered-and (r ≡ root_of kind) (λ q. Prefix q R) ls d)
              | inr d ↦ inr (rest.0 d)
            ]),
      (λ a. elim a [
        | inl (e, d) ↦
            Covered-map (λ q. Prefix q R) (λ q. AnyRule r (Prefix q) ((kind, R) ∷ rules)) ls
              (λ l q p. inl (e, p)) d
        | inr b ↦
            Covered-map (λ q. AnyRule r (Prefix q) rules)
              (λ q. AnyRule r (Prefix q) ((kind, R) ∷ rules)) ls (λ l q p. inr p) (rest.1 b)
      ]),
    )

or_iff : (a b : Bool) (A B : Type 0) → (a ≡ true) ↔ A → (b ≡ true) ↔ B → ((a || b) ≡ true) ↔ (A ⊎ B)
or_iff true b A B f g = ((λ e. inl (f.0 refl)), (λ c. refl))
or_iff false b A B f g =
    ((λ e. inr (g.0 e)), (λ c. elim c [ inl x ↦ absurd (false≢true (f.1 x)) | inr y ↦ g.1 y ]))

and_iff :
    (a b : Bool) (A B : Type 0) → (a ≡ true) ↔ A → (b ≡ true) ↔ B → ((a && b) ≡ true) ↔ (A × B)
and_iff true b A B f g = ((λ e. (f.0 refl, g.0 e)), (λ (x, y). g.1 y))
and_iff false b A B f g = ((λ e. absurd (false≢true e)), (λ (x, y). absurd (false≢true (f.1 x))))

eq_first : (r l : Text) → (eq r l ≡ true) ↔ ((l ≡ r) × Unit {0})
eq_first r l =
    ((λ e. (sym ((text-Agree.eq_iff r l).0 e), tt)), (λ (e, t). (text-Agree.eq_iff r l).1 (sym e)))

pub covers_iff : (R ls : List Text) → (covers R ls ≡ true) ↔ Covered (λ q. Prefix q R) ls
unfolding covers Covered
covers_iff [] ls = (
  (λ e. absurd (false≢true e)),
  (λ c. absurd (Covered-none (λ q. Prefix q []) ls (λ l q p. p) c)),
)
covers_iff (r ∷ rs) [] =
    let both =
      or_iff (eq r any_name) (eq r end_name) ((any_name ≡ r) × Unit {0}) ((end_name ≡ r) × Unit {0})
        (eq_first r any_name) (eq_first r end_name) in
    (
      (λ e. elim (both.0 e) [ inl a ↦ inr a | inr a ↦ inl a ]),
      (λ c. both.1 (elim c [ inl a ↦ inr a | inr a ↦ inl a ])),
    )
covers_iff (r ∷ rs) (l ∷ ls) =
    or_iff (eq r any_name) (eq r l && covers rs ls) ((any_name ≡ r) × Unit {0})
      (Covered (λ q. (l ≡ r) × Prefix q rs) ls) (eq_first r any_name)
      (
        (λ e.
            let (a, b) =
              (and_iff (eq r l) (covers rs ls) ((l ≡ r) × Unit {0}) (Covered (λ q. Prefix q rs) ls)
                  (eq_first r l) (covers_iff rs ls)).0
                e in
            Covered-map (λ q. Prefix q rs) (λ q. (l ≡ r) × Prefix q rs) ls (λ m q p. (a.0, p)) b),
        (λ c.
            let (a, b) = Covered-and (l ≡ r) (λ q. Prefix q rs) ls c in
            (and_iff (eq r l) (covers rs ls) ((l ≡ r) × Unit {0}) (Covered (λ q. Prefix q rs) ls)
                (eq_first r l) (covers_iff rs ls)).1
              ((a, tt), b)),
      )

same_kind_iff : (a b : Bool) → (same_kind a b ≡ true) ↔ (root_of a ≡ root_of b)
same_kind_iff true true = ((λ e. refl), (λ e. refl))
same_kind_iff true false = ((λ e. absurd (false≢true e)), (λ e. cc))
same_kind_iff false true = ((λ e. absurd (false≢true e)), (λ e. cc))
same_kind_iff false false = ((λ e. refl), (λ e. refl))

pub any_covers_iff :
    (direct : Bool) (rules : List Rule) (host : Text)
    → (any_covers direct rules host ≡ true)
      ↔ AnyRule (root_of direct) (λ R. Covered (λ q. Prefix q R) (labels host)) rules
unfolding any_covers
any_covers_iff direct [] host = ((λ e. absurd (false≢true e)), (λ a. elim a [ ]))
any_covers_iff direct ((kind, R) ∷ rules) host =
    or_iff (same_kind direct kind && covers R (labels host)) (any_covers direct rules host)
      ((root_of direct ≡ root_of kind) × Covered (λ q. Prefix q R) (labels host))
      (AnyRule (root_of direct) (λ S. Covered (λ q. Prefix q S) (labels host)) rules)
      (and_iff (same_kind direct kind) (covers R (labels host)) (root_of direct ≡ root_of kind)
        (Covered (λ q. Prefix q R) (labels host)) (same_kind_iff direct kind)
        (covers_iff R (labels host)))
      (any_covers_iff direct rules host)
