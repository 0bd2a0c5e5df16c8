-- ===== src/Ring/Peek.antt =====
-- `peek` and `read` give the oldest bytes.
use trans_proxy.Base.{
  ℕ, ◌+◌, ◌-◌, ◌*◌, ◌/◌, ◌%◌, ◌≤◌, ◌<◌, min, ◌≡◌, ◌≢◌, Option, none, refl, sym, ap, ◌∙◌, length,
  ltb, if◌then◌else◌, get_elem?, take, drop, length-take, length-drop, get_elem?-take,
  get_elem?-drop, get_elem?-append, list_ext, drop-min, size_mod, sub_size, add_size, arith,
  ==_self, ==_false, leb_iff, leb-false,
}
use native.Mathlib.Decide.{ℕ_discrete, dec_lt}
use trans_proxy.Ring.{Ring, span, copy, peek, read, end_read}
use trans_proxy.Ring.Valid.{IsValid, used, page}
use trans_proxy.Ring.Contents.{
  contents, wrap, get_elem?-contents, length-contents, advance, offsets,
}

get_elem?-copy :
    (r : Ring) (h n i : ℕ)
    → get_elem? (copy r h n) i ≡ (if ltb i n then get_elem? r.buffer (h + i) else none)
get_elem?-copy r h n i = rw (get_elem?-take n (drop h r.buffer) i, get_elem?-drop h r.buffer i)

get_elem?-take-contents :
    {r : Ring} (n i : ℕ)
    → IsValid r
    → get_elem? (take n (contents r)) i ≡ (
        if ltb i n
        then (if ltb i (used r)
            then get_elem? r.buffer (wrap r.buffer_size (r.read_pos % r.buffer_size + i))
            else none)
        else none)
get_elem?-take-contents {r} n i v = rw (get_elem?-take n (contents r) i, get_elem?-contents i v)

length-straight :
    {r : Ring} (h : ℕ)
    → IsValid r
    → h < r.buffer_size
    → length (copy r h (r.buffer_size - h)) ≡ r.buffer_size - h
length-straight {r} h v in_range =
    omega
      (arith, length-take (r.buffer_size - h) (drop h r.buffer), length-drop h r.buffer, v.storage)

-- The cells of a straight stretch of `m` from offset `h`, those past the bytes in use left out.
straight :
    (b h u n m i : ℕ) (cell : ℕ → Option ℕ)
    → h + m ≤ b
    → m ≡ min n u
    → (if ltb i m then cell (h + i) else none)
      ≡ (if ltb i n then (if ltb i u then cell (wrap b (h + i)) else none) else none)
straight b h u n m i cell fit e = ground arith

-- A stretch of `l` up to the end of the buffer, then one of `k` from its start.
turned :
    (b h u n l k i : ℕ) (cell : ℕ → Option ℕ)
    → l + h ≡ b
    → l + k ≡ min n u
    → (if ltb i l
        then (if ltb i l then cell (h + i) else none)
        else if ltb (i - l) k
        then cell (i - l)
        else none)
      ≡ (if ltb i n then (if ltb i u then cell (wrap b (h + i)) else none) else none)
turned b h u n l k i cell fit e = ground arith

-- The reader's position, as `peek` computes it.
start : {r : Ring} → IsValid r → add_size r.read_pos 0 % span r ≡ r.read_pos
start {r} v = ground (arith, advance r r.read_pos 0 v v.read_in)

shifted :
    (u n i : ℕ) (c d : Option ℕ)
    → (n + i < u → c ≡ d)
    → (if ltb i (u - n) then c else none) ≡ (if ltb (n + i) u then d else none)
shifted u n i c d h = ground arith

module _ {r : Ring} (bytes : ℕ) (v : IsValid r) (counted : bytes < size_mod) where
  peek_same_page :
      r.write_pos / r.buffer_size ≡ r.read_pos / r.buffer_size
      → peek r 0 bytes ≡ take bytes (contents r)
  unfolding peek
  peek_same_page h =
      let b = r.buffer_size in
      let pages = page b r.read_pos v.read_in in
      let pages' = page b r.write_pos v.write_in in
      let l : sub_size (r.write_pos % b) (r.read_pos % b) ≡ used r =
        ground (arith, pages, pages') in
      rw (start v, h, ==_self (r.read_pos / b), l)
        (list_ext _ _ λ i.
          rw (get_elem?-copy r (r.read_pos % b) _ i, get_elem?-take-contents bytes i v)
            (straight b (r.read_pos % b) (used r) bytes _ i (get_elem? r.buffer)
              (ground (arith, pages, pages')) (ground arith)))

  peek_other_page :
      r.write_pos / r.buffer_size ≢ r.read_pos / r.buffer_size
      → peek r 0 bytes ≡ take bytes (contents r)
  unfolding peek
  peek_other_page h =
      let b = r.buffer_size in
      let pages = page b r.read_pos v.read_in in
      let pages' = page b r.write_pos v.write_in in
      let l : sub_size b (r.read_pos % b) ≡ b - r.read_pos % b = ground (arith, pages, pages') in
      let w = r.write_pos % b in
      let reach : used r ≡ b - r.read_pos % b + w = ground (arith, pages, pages') in
      rw (start v, ==_false _ _ h, l)
        (elim (dec_lt (b - r.read_pos % b) bytes) [
          | yes over ↦
              let d : sub_size bytes (b - r.read_pos % b) ≡ bytes - (b - r.read_pos % b) =
                omega arith in
              let h' : r.read_pos % b < b = (offsets v).0 in
              rw (leb-false _ _ over, d)
                (list_ext _ _ λ i.
                  rw
                    (
                      get_elem?-append (copy r (r.read_pos % b) (b - r.read_pos % b)) _ i,
                      length-straight (r.read_pos % b) v h',
                      get_elem?-copy r (r.read_pos % b) _ i,
                      get_elem?-take-contents bytes i v,
                      get_elem?-take _ r.buffer (i - (b - r.read_pos % b)),
                    )
                    (turned b (r.read_pos % b) (used r) bytes _ _ i (get_elem? r.buffer)
                      (omega arith) (omega arith)))
          | no fit ↦
              let fit' : bytes ≤ b - r.read_pos % b = omega arith in
              rw ((leb_iff _ _).1 fit') (
                list_ext _ _ λ i.
                  rw (get_elem?-copy r (r.read_pos % b) bytes i, get_elem?-take-contents bytes i v)
                    (straight b (r.read_pos % b) (used r) bytes bytes i (get_elem? r.buffer)
                      (omega arith) (omega arith)))
        ])

  peek_front : peek r 0 bytes ≡ take bytes (contents r)
  peek_front = elim (ℕ_discrete (r.write_pos / r.buffer_size) (r.read_pos / r.buffer_size)) [
    | yes same ↦ peek_same_page same
    | no other ↦ peek_other_page other
  ]

-- The ring without its `n` oldest bytes.
abbrev skip : Ring → ℕ → Ring
skip r n = record r { read_pos = wrap (2 * r.buffer_size) (r.read_pos + n) }

module _ {r : Ring} (n : ℕ) (v : IsValid r) (held : n ≤ used r) where
  used-skip : used (skip r n) ≡ used r - n
  used-skip = ground arith

  skip-IsValid : IsValid (skip r n)
  skip-IsValid = record {
    positive = v.positive;
    small = v.small;
    storage = v.storage;
    read_in = ground arith;
    write_in = v.write_in;
    fits = ground (arith, used-skip);
  }

  same_index :
      (i : ℕ)
      → n + i < used r
      → wrap r.buffer_size ((skip r n).read_pos % r.buffer_size + i)
        ≡ wrap r.buffer_size (r.read_pos % r.buffer_size + (n + i))
  same_index i h =
      let b = r.buffer_size in
      let pages = page b r.read_pos v.read_in in
      let pages' = page b (skip r n).read_pos skip-IsValid.read_in in ground arith

  contents-skip : contents (skip r n) ≡ drop n (contents r)
  contents-skip = list_ext _ _ λ i.
      let b = r.buffer_size in
      rw
        (
          get_elem?-contents i skip-IsValid,
          used-skip,
          get_elem?-drop n (contents r) i,
          get_elem?-contents (n + i) v,
        )
        (shifted (used r) n i _ _ λ h. ap (get_elem? r.buffer) (same_index i h))

  peek-skip : (bytes : ℕ) → peek r n bytes ≡ peek (skip r n) 0 bytes
  unfolding peek
  peek-skip bytes = rw (advance r r.read_pos n v v.read_in (omega arith), start skip-IsValid)

-- `peek` copies out the bytes of the contents from `offset` on, up to `bytes` of them.
pub peek_lem :
    {r : Ring} (offset bytes : ℕ)
    → IsValid r
    → offset ≤ used r
    → bytes < size_mod
    → peek r offset bytes ≡ take bytes (drop offset (contents r))
peek_lem offset bytes v held counted =
    peek-skip offset v held bytes
    ∙ peek_front bytes (skip-IsValid offset v held) counted
    ∙ ap (take bytes) (contents-skip offset v held)

-- `read` returns the oldest bytes, up to `bytes` of them, leaves the others, and keeps the ring
-- valid.
pub read_lem :
    {r : Ring} (bytes : ℕ)
    → IsValid r
    → bytes < size_mod
    → let (out, r') = read r bytes in
      (out ≡ take bytes (contents r))
      × IsValid r'
      × (contents r' ≡ drop bytes (contents r))
      × (r'.buffer_size ≡ r.buffer_size)
unfolding read end_read
read_lem {r} bytes v counted =
    let n = min bytes (used r) in
    let len : length (take bytes (contents r)) ≡ n =
      omega (arith, length-take bytes (contents r), length-contents v) in
    let drop_used : drop n (contents r) ≡ drop bytes (contents r) =
      ap (λ (k : ℕ). drop (min bytes k) (contents r)) (sym (length-contents v))
      ∙ drop-min (contents r) bytes in
    rw (peek_front bytes v counted, len, advance r r.read_pos n v v.read_in (omega arith))
      (refl, skip-IsValid n v (omega arith), (contents-skip n v (omega arith) ∙ drop_used), refl)
