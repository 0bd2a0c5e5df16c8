-- ===== src/Base/Slices.antt =====
-- Lists read by index, and `memcpy` into the middle of a list.
use Prim.Native.Nat.{ℕ, zero, suc, ◌+◌, ◌-◌, ◌≤◌, min}
use mathlib.Core.Path.{◌≡◌, refl, sym, ap, ap₂}
use mathlib.Core.List.{List, [], ◌∷◌, ◌++◌}
use mathlib.Core.Option.{none, some}
use native.Mathlib.Omega.{arith}
use trans_proxy.Base.Tests.{ltb, if◌then◌else◌}
use trans_proxy.Base.Lists.{length, get_elem?, take, drop, length-append, length-take, length-drop}

module _ {ℓ} {A : Type ℓ} where
  pub get_elem?-append :
      (xs ys : List A) (i : ℕ)
      → get_elem? (xs ++ ys) i
        ≡ (if ltb i (length xs) then get_elem? xs i else get_elem? ys (i - length xs))
  get_elem?-append [] ys i = let e : i - 0 ≡ i = omega arith in ground (arith, ap (get_elem? ys) e)
  get_elem?-append (x ∷ xs) ys zero = ground arith
  get_elem?-append (x ∷ xs) ys (suc i) = ground (arith, get_elem?-append xs ys i)

  pub get_elem?-take :
      (n : ℕ) (xs : List A) (i : ℕ)
      → get_elem? (take n xs) i ≡ (if ltb i n then get_elem? xs i else none)
  get_elem?-take zero xs i = ground arith
  get_elem?-take (suc n) [] i = ground arith
  get_elem?-take (suc n) (x ∷ xs) zero = ground arith
  get_elem?-take (suc n) (x ∷ xs) (suc i) = ground (arith, get_elem?-take n xs i)

  pub get_elem?-drop :
      (n : ℕ) (xs : List A) (i : ℕ) → get_elem? (drop n xs) i ≡ get_elem? xs (n + i)
  get_elem?-drop zero xs i = ap (get_elem? xs) (omega arith)
  get_elem?-drop (suc n) [] i = refl
  get_elem?-drop (suc n) (x ∷ xs) i = ground (arith, get_elem?-drop n xs i)

  pub get_elem?-none : (xs : List A) (i : ℕ) → length xs ≤ i → get_elem? xs i ≡ none
  get_elem?-none [] i h = refl
  get_elem?-none (x ∷ xs) zero h = absurd (omega arith)
  get_elem?-none (x ∷ xs) (suc i) h = get_elem?-none xs i (omega arith)

  some_inj : {x y : A} → some x ≡ some y → x ≡ y
  some_inj e = cc

  pub take_all : (xs : List A) → take (length xs) xs ≡ xs
  take_all [] = refl
  take_all (x ∷ xs) = ap (λ ys. x ∷ ys) (take_all xs)

  take-nil : (n : ℕ) → take {A = A} n [] ≡ []
  take-nil zero = refl
  take-nil (suc n) = refl

  pub take-min : (xs : List A) (n : ℕ) → take (min (length xs) n) xs ≡ take n xs
  take-min [] n = let e : min 0 n ≡ 0 = omega arith in rw e (sym (take-nil n))
  take-min (x ∷ xs) zero = let e : min (suc (length xs)) 0 ≡ 0 = omega arith in rw e
  take-min (x ∷ xs) (suc n) =
      let e : min (suc (length xs)) (suc n) ≡ suc (min (length xs) n) = omega arith in
      rw e (ap (λ ys. x ∷ ys) (take-min xs n))

  drop-nil : (n : ℕ) → drop {A = A} n [] ≡ []
  drop-nil zero = refl
  drop-nil (suc n) = refl

  pub drop-min : (xs : List A) (n : ℕ) → drop (min n (length xs)) xs ≡ drop n xs
  drop-min [] n = let e : min n 0 ≡ 0 = omega arith in rw e (sym (drop-nil n))
  drop-min (x ∷ xs) zero = let e : min 0 (suc (length xs)) ≡ 0 = omega arith in rw e
  drop-min (x ∷ xs) (suc n) =
      let e : min (suc n) (suc (length xs)) ≡ suc (min n (length xs)) = omega arith in
      rw e (drop-min xs n)

  -- Lists that agree at every index are equal.
  pub list_ext : (xs ys : List A) → ((i : ℕ) → get_elem? xs i ≡ get_elem? ys i) → xs ≡ ys
  list_ext [] [] h = refl
  list_ext [] (y ∷ ys) h = absurd (ground (arith, h 0))
  list_ext (x ∷ xs) [] h = absurd (ground (arith, h 0))
  list_ext (x ∷ xs) (y ∷ ys) h = ap₂ ◌∷◌ (some_inj (h 0)) (list_ext xs ys (λ i. h (suc i)))

-- `memcpy (xs + off, ys, length ys)`, for a copy that ends within `xs`.
unfoldable pub blit : List ℕ → ℕ → List ℕ → List ℕ
blit xs off ys = take off xs ++ (ys ++ drop (off + length ys) xs)

pub length-blit :
    (xs : List ℕ) (off : ℕ) (ys : List ℕ)
    → off + length ys ≤ length xs
    → length (blit xs off ys) ≡ length xs
unfolding blit
length-blit xs off ys h = omega (
  arith,
  length-append (take off xs) (ys ++ drop (off + length ys) xs),
  length-append ys (drop (off + length ys) xs),
  length-take off xs,
  length-drop (off + length ys) xs,
)

pub get_elem?-blit :
    (xs : List ℕ) (off : ℕ) (ys : List ℕ) (i : ℕ)
    → off + length ys ≤ length xs
    → get_elem? (blit xs off ys) i ≡ (
        if ltb i off
        then get_elem? xs i
        else if ltb i (off + length ys)
        then get_elem? ys (i - off)
        else get_elem? xs i)
unfolding blit
get_elem?-blit xs off ys i h = ground (
  arith,
  get_elem?-append (take off xs) (ys ++ drop (off + length ys) xs) i,
  get_elem?-append ys (drop (off + length ys) xs) (i - length (take off xs)),
  get_elem?-take off xs i,
  get_elem?-drop (off + length ys) xs (i - length (take off xs) - length ys),
  length-take off xs,
)

pub blit-nil : (xs : List ℕ) → blit xs 0 [] ≡ xs
unfolding blit
blit-nil xs = refl
