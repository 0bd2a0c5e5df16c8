-- ===== src/Resolver/File.antt =====
-- Dev/Main/src/TransProxy/DomainResolver.cpp: the bytes of the cache file.
use trans_proxy.Base.{
  ℕ, zero, suc, ◌+◌, ◌-◌, ◌*◌, ◌/◌, ◌%◌, ◌^◌, Option, none, some, List, [], ◌∷◌, ◌++◌, ltb, ◌==◌,
  length, take, drop, replicate, if◌then◌else◌,
}
use trans_proxy.Text.{Text}

-- The bytes of a number in memory, the lowest first, and the number that they are read as.
unfoldable pub le_bytes : ℕ → ℕ → List ℕ
le_bytes zero v = []
le_bytes (suc n) v = v % 256 ∷ le_bytes n (v / 256)

unfoldable pub from_le : List ℕ → ℕ
from_le [] = 0
from_le (b ∷ bs) = b + 256 * from_le bs

-- `fwrite` at a place of a file, which grows with zeros up to there.
unfoldable pub write_at : List ℕ → ℕ → List ℕ → List ℕ
write_at file pos bytes =
    take pos file ++ (replicate (pos - length file) 0 ++ (bytes ++ drop (pos + length bytes) file))

-- `fopen`, the `fread` of the size and the `fseek`: the file that is written on and the place. A file
-- too short for its size, or with a size that no `long` holds, is emptied.
unfoldable pub open_file : Option (List ℕ) → List ℕ × ℕ
unfolding le_bytes from_le
open_file none = (le_bytes 8 8, 8)
open_file (some file) =
    let size = from_le (take 8 file) in
    if ltb (length file) 8
    then (le_bytes 8 8, 8)
    else if ltb size (2 ^ 63)
    then (file, size)
    else (le_bytes 8 8, 8)

-- The bytes of an entry.
unfoldable pub entry : Text → ℕ → List ℕ
unfolding le_bytes
entry name ip = le_bytes 8 (length name) ++ (name ++ le_bytes 4 ip)

-- The writes of `_add`: the entry, and the size in front.
unfoldable pub save_at : List ℕ × ℕ → Text → ℕ → List ℕ
unfolding write_at entry le_bytes
save_at (file, pos) name ip =
    let bytes = entry name ip in
    write_at (write_at file pos bytes) 0 (le_bytes 8 (pos + length bytes))

unfoldable pub save_entry : Text → ℕ → Option (List ℕ) → List ℕ
unfolding save_at open_file
save_entry name ip file = save_at (open_file file) name ip

-- A text in memory ends at its first NUL.
unfoldable pub c_string : List ℕ → Text
c_string [] = []
c_string (c ∷ s) = let rest = c_string s in if c == 0 then [] else c ∷ rest

-- `fread` of `n` bytes: what is left of the file, `none` where it is too short.
abbrev pub bytes_of : ℕ → List ℕ → Option (List ℕ × List ℕ)
bytes_of n file = if ltb (length file) n then none else some (take n file, drop n file)

abbrev pub read_ip : Text → Option (List ℕ × List ℕ) → Option (Text × ℕ × List ℕ)
read_ip name none = none
read_ip name (some (ip, rest)) = some (name, from_le ip, rest)

abbrev pub read_name : Option (List ℕ × List ℕ) → Option (Text × ℕ × List ℕ)
read_name none = none
read_name (some (name, rest)) = read_ip name (bytes_of 4 rest)

abbrev pub read_size : Option (List ℕ × List ℕ) → Option (Text × ℕ × List ℕ)
read_size none = none
read_size (some (l, rest)) = read_name (bytes_of (from_le l) rest)

-- The three calls of `fread` in a round of the constructor's loop.
unfoldable pub read_entry : List ℕ → Option (Text × ℕ × List ℕ)
unfolding from_le
read_entry bytes = read_size (bytes_of 8 bytes)
