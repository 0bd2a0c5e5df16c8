-- ===== src/Rules/Scan.antt =====
-- The three loops of DomainRules.cpp that go down a text from its end read its labels in turn.
use trans_proxy.Base.{
  ℕ, zero, suc, ◌≡◌, refl, sym, ap, ◌∙◌, Bool, true, false, Option, none, some, List, [], ◌∷◌, ◌==◌,
  if◌then◌else◌, Bool-cases, inl, inr,
}
use trans_proxy.Map.{◌>>=◌}
use trans_proxy.Text.{Text}
use trans_proxy.Rules.{
  Nodes, dot, byte_at, slice, add_node, add_label, add_labels, Visit, answer, go_on, visit,
  in_list_end, in_list_from,
}
use trans_proxy.Rules.Paths.{accepts}

-- The labels that a loop at `begin` reads.
unfoldable pub scan : Text → (begin end : ℕ) → List Text
scan s zero end = slice s zero end ∷ []
scan s (suc b) end =
    let at_dot = byte_at s b == dot in
    let rest = scan s b (if at_dot then b else end) in
    if at_dot then slice s (suc b) end ∷ rest else rest

-- `_add (domains, domain)` on the labels.
unfoldable pub add_path : List Text → Nodes → ℕ → Option (Nodes × ℕ)
add_path [] h d = some (h, d)
add_path (l ∷ ls) h d = add_node h d l >>= λ (h', d'). add_path ls h' d'

pub scan_at :
    (s : Text) (b end : ℕ)
    → (byte_at s b == dot) ≡ true
    → scan s (suc b) end ≡ slice s (suc b) end ∷ scan s b b
unfolding scan
scan_at s b end e = rw e refl

pub scan_other :
    (s : Text) (b end : ℕ) → (byte_at s b == dot) ≡ false → scan s (suc b) end ≡ scan s b end
unfolding scan
scan_other s b end e = rw e refl

bind_some : {A : Type 0} (o : Option (A × ℕ)) → (o >>= λ (a, b). some (a, b)) ≡ o
bind_some none = refl
bind_some (some p) = refl

bind_twice :
    (o : Option (Nodes × ℕ)) (e : ℕ) (k : Nodes → ℕ → ℕ → Option (Nodes × ℕ))
    → ((o >>= λ (h, d). some (h, d, e)) >>= λ (h, d, e'). k h d e') ≡ (o >>= λ (h, d). k h d e)
bind_twice none e k = refl
bind_twice (some p) e k = refl

bind_ext :
    (o : Option (Nodes × ℕ)) (f g : Nodes → ℕ → Option (Nodes × ℕ))
    → ((h : Nodes) (d : ℕ) → f h d ≡ g h d)
    → (o >>= λ (h, d). f h d) ≡ (o >>= λ (h, d). g h d)
bind_ext none f g e = refl
bind_ext (some (h, d)) f g e = e h d

-- How a round of `_inList` goes on.
decide : Visit → (ℕ → Bool) → Bool
decide (answer r) f = r
decide (go_on n) f = f n

decide_ext : (v : Visit) (f g : ℕ → Bool) → ((n : ℕ) → f n ≡ g n) → decide v f ≡ decide v g
unfolding decide
decide_ext (answer r) f g e = refl
decide_ext (go_on n) f g e = e n

in_list_end-decide :
    (h : Nodes) (v : Visit) → in_list_end h v ≡ decide v (λ n. in_list_end h (go_on n))
unfolding decide in_list_end
in_list_end-decide h (answer r) = refl
in_list_end-decide h (go_on n) = refl

decide_case :
    (v : Visit) (f : ℕ → Bool) → elim v as (λ _. Bool) [ answer r ↦ r | go_on n ↦ f n ] ≡ decide v f
unfolding decide
decide_case (answer r) f = refl
decide_case (go_on n) f = refl

accepts-cons :
    (h : Nodes) (d : ℕ) (l : Text) (ls : List Text)
    → accepts h d (l ∷ ls) ≡ decide (visit h d l) (λ n. accepts h n ls)
unfolding accepts
accepts-cons h d l ls = decide_case (visit h d l) (λ n. accepts h n ls)

in_list_step :
    (h : Nodes) (s : Text) (b end d : ℕ) (at_dot : Bool)
    → (byte_at s b == dot) ≡ at_dot
    → in_list_from h s (suc b) end d
      ≡ decide
          (if at_dot then visit h d (slice s (suc b) end) else go_on d)
          (λ n. in_list_from h s b (if at_dot then b else end) n)
unfolding in_list_from
in_list_step h s b end d at_dot e =
    decide_case (if byte_at s b == dot then visit h d (slice s (suc b) end) else go_on d)
      (λ n. in_list_from h s b (if byte_at s b == dot then b else end) n)
    ∙ ap
        (λ t.
          decide (if t then visit h d (slice s (suc b) end) else go_on d)
            (λ n. in_list_from h s b (if t then b else end) n))
        e

pub add_labels-scan :
    (s : Text) (b end : ℕ) (h : Nodes) (d : ℕ)
    → add_labels s b end h d ≡ add_path (scan s b end) h d
unfolding add_labels scan add_path
add_labels-scan s zero end h d = sym (bind_some (add_node h d (slice s zero end)))
add_labels-scan s (suc b) end h d = elim (Bool-cases (byte_at s b == dot)) [
  | inl e ↦
      rw (e, add_label)
        (bind_twice (add_node h d (slice s (suc b) end)) b (λ h' d' e'. add_labels s b e' h' d')
          ∙ bind_ext (add_node h d (slice s (suc b) end)) (λ h' d'. add_labels s b b h' d')
              (λ h' d'. add_path (scan s b b) h' d') (λ h' d'. add_labels-scan s b b h' d'))
  | inr n ↦ rw (n, add_label) (add_labels-scan s b end h d)
]

pub in_list-scan :
    (h : Nodes) (s : Text) (b end d : ℕ) → in_list_from h s b end d ≡ accepts h d (scan s b end)
unfolding scan in_list_from accepts decide
in_list-scan h s zero end d =
    in_list_end-decide h (visit h d (slice s zero end))
    ∙ decide_ext (visit h d (slice s zero end)) (λ n. in_list_end h (go_on n)) (λ n. accepts h n [])
        (λ n. refl)
    ∙ sym (accepts-cons h d (slice s zero end) [])
in_list-scan h s (suc b) end d = elim (Bool-cases (byte_at s b == dot)) [
  | inl e ↦
      let label = slice s (suc b) end in
      in_list_step h s b end d true e
      ∙ decide_ext (visit h d label) (λ n. in_list_from h s b b n) (λ n. accepts h n (scan s b b))
          (λ n. in_list-scan h s b b n)
      ∙ sym (accepts-cons h d label (scan s b b))
      ∙ sym (ap (accepts h d) (scan_at s b end e))
  | inr n ↦
      in_list_step h s b end d false n
      ∙ in_list-scan h s b end d
      ∙ sym (ap (accepts h d) (scan_other s b end n))
]
