-- ===== src/Resolver/Reload.antt =====
-- The constructor of `DomainResolver` reads the hosts that a cache file holds.
use mathlib.Core.List.{append_assoc}
use trans_proxy.Base.{
  ℕ, zero, suc, ◌+◌, ◌-◌, ◌^◌, ◌≤◌, ◌<◌, ◌≡◌, ◌≢◌, inl, inr, refl, sym, ap, ap₂, ◌∙◌, false, Option,
  none, some, List, [], ◌∷◌, ◌++◌, ltb, ◌==◌, ◌!=◌, length, length-append, take, drop, take-append,
  drop-append, ltb-false, lt→ltb, !=_self, ==_iff, if◌then◌else◌, Bool-cases, Option-cases, arith,
}
use trans_proxy.Map.{◌>>=◌}
use trans_proxy.Map.Sorted.{All}
use trans_proxy.Text.{Text}
use trans_proxy.Resolver.{
  ResolvItem, Hosts, fresh, add_item, Load, loaded, or_aborted, load_entry, load_entries, load_file,
}
use trans_proxy.Resolver.File.{
  le_bytes, from_le, entry, c_string, bytes_of, read_ip, read_name, read_size, read_entry,
}
use trans_proxy.Resolver.Saved.{
  length-le_bytes, from_le-le_bytes, entries, file_of, header_back, le_size,
}

-- A text without NUL that a `size_t` can measure, and an address of 32 bits.
pub record IsHost (h : ResolvItem) : Type 0 where
  pub text : All (λ c. (c == 0) ≡ false) h.name
  pub short : length h.name < 2 ^ 64
  pub word : h.ip < 2 ^ 32

pub c_string_lem : (s : Text) → All (λ c. (c == 0) ≡ false) s → c_string s ≡ s
unfolding c_string
c_string_lem [] a = refl
c_string_lem (c ∷ s) a = rw (a.0, c_string_lem s a.1) refl

bytes_of_front :
    (front rest : List ℕ) (n : ℕ)
    → length front ≡ n
    → bytes_of n (front ++ rest) ≡ some (front, rest)
bytes_of_front front rest n e =
    let long : ltb (length (front ++ rest)) n ≡ false =
      ltb-false (length (front ++ rest)) n (omega (arith, length-append front rest, e)) in
    rw long (
      ap₂ (λ a b. some (a, b)) (ap (λ k. take k (front ++ rest)) (sym e) ∙ take-append front rest)
        (ap (λ k. drop k (front ++ rest)) (sym e) ∙ drop-append front rest))

-- An entry is read as the host that it was written for.
read_entry-entry :
    (h : ResolvItem) (rest : List ℕ)
    → IsHost h
    → read_entry (entry h.name h.ip ++ rest) ≡ some (h.name, h.ip, rest)
unfolding read_entry entry
read_entry-entry h rest v =
    let l = le_bytes 8 (length h.name) in
    let ip = le_bytes 4 h.ip in
    let parts : (l ++ (h.name ++ ip)) ++ rest ≡ l ++ (h.name ++ (ip ++ rest)) =
      append_assoc l (h.name ++ ip) rest ∙ ap (λ q. l ++ q) (append_assoc h.name ip rest) in
    ap (λ q. read_size (bytes_of 8 q)) parts
    ∙ ap read_size (bytes_of_front l (h.name ++ (ip ++ rest)) 8 (length-le_bytes 8 (length h.name)))
    ∙ ap read_name (
        bytes_of_front h.name (ip ++ rest) (from_le l)
          (sym (from_le-le_bytes 8 (length h.name) v.short)))
    ∙ ap (read_ip h.name) (bytes_of_front ip rest 4 (length-le_bytes 4 h.ip))
    ∙ ap (λ n. some (h.name, n, rest)) (from_le-le_bytes 4 h.ip v.word)

none_made : {A : Type 0} {a : A} → none ≢ some a
none_made e = cc

-- `new ResolvItem` for a host whose address is the next one.
abbrev pub add_numbered : ResolvItem → Hosts → Option Hosts
add_numbered h t = if h.ip == t.ip then add_item h.name t else none

-- The calls of `add_item` that make the table of these hosts.
unfoldable pub add_items : List ResolvItem → Hosts → Option Hosts
add_items [] t = some t
add_items (h ∷ hs) t = add_numbered h t >>= λ t'. add_items hs t'

add_numbered-some :
    (h : ResolvItem) (t t' : Hosts)
    → add_numbered h t ≡ some t'
    → (h.ip ≡ t.ip) × (add_item h.name t ≡ some t')
add_numbered-some h t t' e = elim (Bool-cases (h.ip == t.ip)) [
  | inl s ↦ ((==_iff h.ip t.ip).0 s, sym (ap (λ b. if b then add_item h.name t else none) s) ∙ e)
  | inr n ↦ absurd (none_made (sym (ap (λ b. if b then add_item h.name t else none) n) ∙ e))
]

add_none : (t t' : Hosts) → add_items [] t ≡ some t' → t ≡ t'
unfolding add_items
add_none t t' e = cc

add_items-first :
    (h : ResolvItem) (hs : List ResolvItem) (t t' : Hosts)
    → add_items (h ∷ hs) t ≡ some t'
    → (u : Hosts) × (add_numbered h t ≡ some u) × (add_items hs u ≡ some t')
unfolding add_items
add_items-first h hs t t' e = elim (Option-cases (add_numbered h t)) [
  | inl n ↦ absurd (none_made (sym (ap (λ o. o >>= λ u. add_items hs u) n) ∙ e))
  | inr (u, m) ↦ (u, m, sym (ap (λ o. o >>= λ u. add_items hs u) m) ∙ e)
]

body_of : (hs : List ResolvItem) → drop 8 (file_of hs) ≡ entries hs
unfolding file_of
body_of hs =
    let header = le_bytes 8 (8 + length (entries hs)) in
    ap (λ n. drop n (header ++ entries hs)) (sym (length-le_bytes 8 (8 + length (entries hs))))
    ∙ drop-append header (entries hs)

load_step :
    (h : ResolvItem) (t t' : Hosts) (rest : List ℕ) (next : Hosts → List ℕ → Load)
    → IsHost h
    → h.ip ≡ t.ip
    → add_item h.name t ≡ some t'
    → load_entry (read_entry (entry h.name h.ip ++ rest)) t next ≡ next t' rest
unfolding load_entry
load_step h t t' rest next v same made =
    let equal : (h.ip != t.ip) ≡ false = ap (λ n. h.ip != n) (sym same) ∙ !=_self h.ip in
    ap (λ o. load_entry o t next) (read_entry-entry h rest v)
    ∙ (rw equal (
        ap (λ s. or_aborted (add_item s t) (λ u. next u rest)) (c_string_lem h.name v.text)
        ∙ ap (λ o. or_aborted o (λ u. next u rest)) made))

length-entry : (name : Text) (ip : ℕ) → length (entry name ip) ≡ length name + 12
unfolding entry
length-entry name ip = omega (
  arith,
  length-append (le_bytes 8 (length name)) (name ++ le_bytes 4 ip),
  length-append name (le_bytes 4 ip),
  length-le_bytes 8 (length name),
  length-le_bytes 4 ip,
)

length-entries :
    (h : ResolvItem) (hs : List ResolvItem)
    → length (entries (h ∷ hs)) ≡ length h.name + 12 + length (entries hs)
unfolding entries
length-entries h hs =
    omega (arith, length-append (entry h.name h.ip) (entries hs), length-entry h.name h.ip)

entries-cons :
    (h : ResolvItem) (hs : List ResolvItem) → entries (h ∷ hs) ≡ entry h.name h.ip ++ entries hs
unfolding entries
entries-cons h hs = refl

few_hosts : (hs : List ResolvItem) → length hs ≤ length (entries hs)
few_hosts [] = omega arith
few_hosts (h ∷ hs) = omega (arith, few_hosts hs, length-entries h hs)

load_entries-last :
    (fuel size pos : ℕ) (bytes : List ℕ) (t : Hosts)
    → size ≤ pos
    → load_entries (suc fuel) size pos bytes t ≡ loaded t
unfolding load_entries
load_entries-last fuel size pos bytes t le = rw (ltb-false pos size le) refl

load_entries-next :
    (fuel size pos : ℕ) (h : ResolvItem) (rest : List ℕ) (t t' : Hosts)
    → pos < size
    → IsHost h
    → h.ip ≡ t.ip
    → add_item h.name t ≡ some t'
    → load_entries (suc fuel) size pos (entry h.name h.ip ++ rest) t
      ≡ load_entries fuel size (pos + (length h.name + 12)) rest t'
unfolding load_entries
load_entries-next fuel size pos h rest t t' lt v same made =
    let bytes = entry h.name h.ip ++ rest in
    let used : pos + (length bytes - length rest) ≡ pos + (length h.name + 12) =
      omega (arith, length-append (entry h.name h.ip) rest, length-entry h.name h.ip) in
    rw (lt→ltb pos size lt) (
      load_step h t t' rest (λ u r. load_entries fuel size (pos + (length bytes - length r)) r u) v
        same made
      ∙ ap (λ p. load_entries fuel size p rest t') used)

-- The loop reads the entries of hosts to the end.
load_entries-entries :
    (hs : List ResolvItem) (t t' : Hosts) (fuel size pos : ℕ)
    → All IsHost hs
    → add_items hs t ≡ some t'
    → length hs < fuel
    → pos + length (entries hs) ≡ size
    → load_entries fuel size pos (entries hs) t ≡ loaded t'
load_entries-entries hs t t' zero size pos v e lt s = absurd (omega (arith, lt))
load_entries-entries [] t t' (suc fuel) size pos v e lt s =
    load_entries-last fuel size pos (entries []) t (unfold entries in omega (arith, s))
    ∙ ap loaded (add_none t t' e)
load_entries-entries (h ∷ hs) t t' (suc fuel) size pos v e lt s =
    let (u, one, more) = add_items-first h hs t t' e in
    let (same, made) = add_numbered-some h t u one in
    let long = length-entries h hs in
    ap (λ bytes. load_entries (suc fuel) size pos bytes t) (entries-cons h hs)
    ∙ load_entries-next fuel size pos h (entries hs) t u (omega (arith, long, s)) v.0 same made
    ∙ load_entries-entries hs u t' fuel size (pos + (length h.name + 12)) v.1 more (omega arith)
        (omega (arith, long, s))

pub load_file-file_of :
    (base : ℕ) (hs : List ResolvItem) (t : Hosts)
    → All IsHost hs
    → add_items hs (fresh base) ≡ some t
    → 8 + length (entries hs) < 2 ^ 63
    → load_file base (some (file_of hs)) ≡ loaded t
unfolding load_file
load_file-file_of base hs t v e room =
    let file = file_of hs in
    let size = 8 + length (entries hs) in
    let long : ltb (length file) 8 ≡ false =
      ltb-false (length file) 8 (omega (arith, le_size hs)) in
    rw long (
      ap₂ (λ n bytes. load_entries (length file + 1) n 8 bytes (fresh base)) (header_back hs room)
        (body_of hs)
      ∙ load_entries-entries hs (fresh base) t (length file + 1) size 8 v e
          (omega (arith, le_size hs, few_hosts hs)) refl)
