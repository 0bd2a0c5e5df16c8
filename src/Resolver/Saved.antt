-- ===== src/Resolver/Saved.antt =====
-- The bytes that `_add` of DomainResolver.cpp leaves in the cache file, and what is read back.
use mathlib.Core.List.{append_assoc, append-nil}
use trans_proxy.Base.{
  ℕ, zero, suc, ◌+◌, ◌-◌, ◌*◌, ◌/◌, ◌^◌, ◌<◌, ◌≡◌, refl, sym, ap, ap₂, ◌∙◌, true, false, Option,
  none, some, List, [], ◌∷◌, ◌++◌, ltb, length, length-append, take, drop, replicate, take-append,
  drop-append, take_whole, drop_none, ltb-false, lt→ltb, arith,
}
use native.Mathlib.Nat.{pow-succ'}
use trans_proxy.Text.{Text}
use trans_proxy.Resolver.{ResolvItem}
use trans_proxy.Resolver.File.{le_bytes, from_le, write_at, open_file, entry, save_at, save_entry}

pub length-le_bytes : (n v : ℕ) → length (le_bytes n v) ≡ n
unfolding le_bytes
length-le_bytes zero v = refl
length-le_bytes (suc n) v = ap suc (length-le_bytes n (v / 256))

-- The bytes of a number that they have room for are read as that number.
pub from_le-le_bytes : (n v : ℕ) → v < 256 ^ n → from_le (le_bytes n v) ≡ v
unfolding le_bytes from_le
from_le-le_bytes zero v h = omega arith
from_le-le_bytes (suc n) v h =
    let power : 256 ^ suc n ≡ 256 * 256 ^ n = pow-succ' 256 n in
    let rest = from_le-le_bytes n (v / 256) (omega (arith, power)) in omega (arith, rest)

write_end : (file bytes : List ℕ) → write_at file (length file) bytes ≡ file ++ bytes
unfolding write_at
write_end file bytes =
    let none_left : drop (length file + length bytes) file ≡ [] =
      drop_none (length file + length bytes) file (omega arith) in
    let no_gap : length file - length file ≡ 0 = omega arith in
    ap₂ (λ a b. a ++ b) (take_whole (length file) file (omega arith))
      (ap₂ (λ n r. replicate n 0 ++ (bytes ++ r)) no_gap none_left ∙ append-nil bytes)

write_front :
    (front rest bytes : List ℕ)
    → length front ≡ length bytes
    → write_at (front ++ rest) 0 bytes ≡ bytes ++ rest
unfolding write_at
write_front front rest bytes e =
    let same : 0 + length bytes ≡ length front = omega (arith, e) in
    let no_gap : 0 - length (front ++ rest) ≡ 0 = omega arith in
    ap₂ (λ n r. replicate n 0 ++ (bytes ++ r)) no_gap
      (ap (λ n. drop n (front ++ rest)) same ∙ drop-append front rest)

-- The entries of hosts, and a whole cache file.
unfoldable pub entries : List ResolvItem → List ℕ
unfolding entry
entries [] = []
entries (h ∷ hs) = entry h.name h.ip ++ entries hs

unfoldable pub file_of : List ResolvItem → List ℕ
unfolding le_bytes entries
file_of hs = le_bytes 8 (8 + length (entries hs)) ++ entries hs

pub entries-append :
    (hs : List ResolvItem) (h : ResolvItem)
    → entries (hs ++ (h ∷ [])) ≡ entries hs ++ entry h.name h.ip
unfolding entries
entries-append [] h = append-nil (entry h.name h.ip)
entries-append (g ∷ hs) h =
    ap (λ x. entry g.name g.ip ++ x) (entries-append hs h)
    ∙ sym (append_assoc (entry g.name g.ip) (entries hs) (entry h.name h.ip))

pub le_size : (hs : List ResolvItem) → length (file_of hs) ≡ 8 + length (entries hs)
unfolding file_of
le_size hs =
    let size = 8 + length (entries hs) in
    omega (arith, length-append (le_bytes 8 size) (entries hs), length-le_bytes 8 size)

pub header_back :
    (hs : List ResolvItem)
    → 8 + length (entries hs) < 2 ^ 63
    → from_le (take 8 (file_of hs)) ≡ 8 + length (entries hs)
unfolding file_of
header_back hs room =
    let size = 8 + length (entries hs) in
    let front : take 8 (file_of hs) ≡ le_bytes 8 size =
      ap (λ n. take n (le_bytes 8 size ++ entries hs)) (sym (length-le_bytes 8 size))
      ∙ take-append (le_bytes 8 size) (entries hs) in
    ap from_le front ∙ from_le-le_bytes 8 size (omega arith)

-- An entry written behind a file of hosts makes the file of the hosts with one more.
save_at_lem :
    (hs : List ResolvItem) (name : Text) (ip : ℕ)
    → save_at (file_of hs, 8 + length (entries hs)) name ip
      ≡ file_of (hs ++ (record { name = name; ip = ip } ∷ []))
unfolding save_at file_of
save_at_lem hs name ip =
    let size = 8 + length (entries hs) in
    let bytes = entry name ip in
    let more = entries-append hs (record { name = name; ip = ip }) in
    let bigger : size + length bytes
        ≡ 8 + length (entries (hs ++ (record { name = name; ip = ip } ∷ []))) =
      omega (arith, ap length more, length-append (entries hs) bytes) in
    let written : write_at (file_of hs) size bytes ≡ le_bytes 8 size ++ (entries hs ++ bytes) =
      ap (λ n. write_at (file_of hs) n bytes) (sym (le_size hs))
      ∙ write_end (file_of hs) bytes
      ∙ append_assoc (le_bytes 8 size) (entries hs) bytes in
    ap (λ f. write_at f 0 (le_bytes 8 (size + length bytes))) written
    ∙ write_front (le_bytes 8 size) (entries hs ++ bytes) (le_bytes 8 (size + length bytes))
        (length-le_bytes 8 size ∙ sym (length-le_bytes 8 (size + length bytes)))
    ∙ ap₂ (λ n r. le_bytes 8 n ++ r) bigger (sym more)

opened :
    (hs : List ResolvItem)
    → 8 + length (entries hs) < 2 ^ 63
    → open_file (some (file_of hs)) ≡ (file_of hs, 8 + length (entries hs))
unfolding open_file
opened hs room =
    let size = 8 + length (entries hs) in
    let long : ltb (length (file_of hs)) 8 ≡ false =
      ltb-false (length (file_of hs)) 8 (omega (arith, le_size hs)) in
    let fits : ltb (from_le (take 8 (file_of hs))) (2 ^ 63) ≡ true =
      ap (λ n. ltb n (2 ^ 63)) (header_back hs room) ∙ lt→ltb size (2 ^ 63) room in
    rw (long, fits) (ap (λ n. (file_of hs, n)) (header_back hs room))

empty_saved :
    (name : Text) (ip : ℕ)
    → save_at (open_file none) name ip ≡ file_of (record { name = name; ip = ip } ∷ [])
unfolding open_file file_of
empty_saved name ip =
    let none_yet : le_bytes 8 8 ≡ file_of [] =
      (unfold file_of entries in sym (append-nil (le_bytes 8 8))) in
    ap (λ f. save_at (f, 8) name ip) none_yet ∙ save_at_lem [] name ip

-- The cache file of hosts: none before the first.
unfoldable pub Keeps : Option (List ℕ) → List ResolvItem → Type 0
Keeps none hs = hs ≡ []
Keeps (some file) hs = file ≡ file_of hs

-- `_add` keeps the file in step with the hosts, while its size fits in a `long`.
pub save_entry-Keeps :
    (file : Option (List ℕ)) (hs : List ResolvItem) (name : Text) (ip : ℕ)
    → Keeps file hs
    → 8 + length (entries hs) < 2 ^ 63
    → save_entry name ip file ≡ file_of (hs ++ (record { name = name; ip = ip } ∷ []))
unfolding save_entry Keeps
save_entry-Keeps none hs name ip k room =
    empty_saved name ip ∙ ap (λ gs. file_of (gs ++ (record { name = name; ip = ip } ∷ []))) (sym k)
save_entry-Keeps (some file) hs name ip k room =
    ap (λ f. save_at (open_file (some f)) name ip) k
    ∙ ap (λ p. save_at p name ip) (opened hs room)
    ∙ save_at_lem hs name ip
