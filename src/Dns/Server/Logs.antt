-- ===== src/Dns/Server/Logs.antt =====
-- The log of `DNS` keeps the newest entries.
use mathlib.Core.List.{append_assoc, append-nil}
use trans_proxy.Base.{
  ℕ, zero, suc, ◌+◌, ◌-◌, ◌≤◌, ◌<◌, ◌≡◌, inl, inr, refl, sym, ap, ◌∙◌, List, [], ◌∷◌, ◌++◌, leb,
  leb→le, length, length-append, length-drop, drop, drop_none, Bool-cases, arith,
}
use trans_proxy.Dns.Server.{LogItem, max_logs, Dns, remove_first, log}

-- The calls of `_log` for these entries, one after the other.
unfoldable pub log_all : List LogItem → Dns → Dns
unfolding log
log_all [] d = d
log_all (x ∷ xs) d = log_all xs (log x.client x.hostname x.ip d)

-- The newest 1000 of a list of entries.
abbrev pub newest : List LogItem → List LogItem
newest xs = drop (length xs - max_logs) xs

drop_snoc :
    (n : ℕ) (xs : List LogItem) (x : LogItem)
    → n ≤ length xs
    → drop n (xs ++ (x ∷ [])) ≡ drop n xs ++ (x ∷ [])
drop_snoc zero xs x h = refl
drop_snoc (suc n) [] x h = absurd (omega arith)
drop_snoc (suc n) (y ∷ xs) x h = drop_snoc n xs x (omega arith)

remove_first-drop : (n : ℕ) (xs : List LogItem) → remove_first (drop n xs) ≡ drop (n + 1) xs
remove_first-drop zero [] = refl
remove_first-drop zero (x ∷ xs) = refl
remove_first-drop (suc n) [] = sym (drop_none (suc n + 1) [] (omega arith))
remove_first-drop (suc n) (x ∷ xs) =
    let more : suc (n + 1) ≡ suc n + 1 = omega arith in
    remove_first-drop n xs ∙ ap (λ k. drop k (x ∷ xs)) more

log_keeps :
    (old : List LogItem) (x : LogItem) (d : Dns)
    → d.logs ≡ newest old
    → (log x.client x.hostname x.ip d).logs ≡ newest (old ++ (x ∷ []))
unfolding log
log_keeps old x d e =
    let k = length old - max_logs in
    let held : length d.logs ≡ length old - k = ap length e ∙ length-drop k old in
    let more = length-append old (x ∷ []) in
    elim (Bool-cases (leb max_logs (length d.logs))) [
      | inl t ↦
          let all : max_logs ≤ length d.logs = leb→le max_logs (length d.logs) t in
          let next : k + 1 ≡ length (old ++ (x ∷ [])) - max_logs = omega arith in
          rw t (
            ap (λ q. remove_first q ++ (x ∷ [])) e
            ∙ ap (λ q. q ++ (x ∷ [])) (remove_first-drop k old)
            ∙ sym (drop_snoc (k + 1) old x (omega arith))
            ∙ ap (λ n. drop n (old ++ (x ∷ []))) next)
      | inr f ↦
          let few : length d.logs < max_logs = ground arith in
          let none_now : k ≡ 0 = omega arith in
          let none_next : 0 ≡ length (old ++ (x ∷ [])) - max_logs = omega arith in
          rw f (
            ap (λ q. q ++ (x ∷ [])) (e ∙ ap (λ n. drop n old) none_now)
            ∙ ap (λ n. drop n (old ++ (x ∷ []))) none_next)
    ]

log_all_from :
    (old xs : List LogItem) (d : Dns)
    → d.logs ≡ newest old
    → (log_all xs d).logs ≡ newest (old ++ xs)
unfolding log_all
log_all_from old [] d e = e ∙ ap newest (sym (append-nil old))
log_all_from old (x ∷ xs) d e =
    log_all_from (old ++ (x ∷ [])) xs (log x.client x.hostname x.ip d) (log_keeps old x d e)
    ∙ ap newest (append_assoc old (x ∷ []) xs)

-- However many entries are logged, an empty log then holds the newest of them, 1000 at most, in order.
pub log_all_lem :
    (xs : List LogItem) (d : Dns)
    → d.logs ≡ []
    → ((log_all xs d).logs ≡ newest xs) × (length (log_all xs d).logs ≤ max_logs)
log_all_lem xs d e =
    let logs = log_all_from [] xs d e in
    (logs, omega (arith, ap length logs, length-drop (length xs - max_logs) xs))
