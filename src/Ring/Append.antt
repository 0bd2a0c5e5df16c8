-- ===== src/Ring/Append.antt =====
-- What `RingBuffer::write` does to the invariant and to the contents.
use trans_proxy.Base.{
  Option, none, ℕ, ◌+◌, ◌-◌, ◌%◌, ◌≤◌, ◌<◌, min, ◌≡◌, ap, List, ◌++◌, length, ltb, if◌then◌else◌,
  get_elem?, take, drop, blit, length-take, length-drop, length-blit, get_elem?-take,
  get_elem?-append, list_ext, size_mod, arith, refl, ◌∙◌, take-min,
}
use trans_proxy.Ring.{Ring, write, free}
use trans_proxy.Ring.Valid.{IsValid, used, page, free-eq-sub}
use trans_proxy.Ring.Contents.{contents, wrap, get_elem?-contents, length-contents, offsets}
use trans_proxy.Ring.Write.{stored, stored_cells, write-eq-stored}

glue :
    (u n i : ℕ) (new old put : Option ℕ)
    → (i < u + n → new ≡ (if ltb i u then old else put))
    → (if ltb i (u + n) then new else none)
      ≡ (if ltb i u then (if ltb i u then old else none) else if ltb (i - u) n then put else none)
glue u n i new old put h = ground arith

module _ {r : Ring} (src : List ℕ) (n : ℕ) (v : IsValid r) (enough : n ≤ length src)
    (fit : n ≤ r.buffer_size - used r) where
  used-stored : used (stored r src n) ≡ used r + n
  used-stored = ground arith

  length-stored : length (stored r src n).buffer ≡ r.buffer_size
  length-stored =
      let b = r.buffer_size in
      let off = r.write_pos % b in
      let m = min n (b - off) in
      ground (
        arith,
        page b r.write_pos v.write_in,
        length-take m src,
        length-take (n - m) (drop m src),
        length-drop m src,
        length-blit r.buffer off (take m src),
        length-blit (blit r.buffer off (take m src)) 0 (take (n - m) (drop m src)),
      )

  stored-IsValid : IsValid (stored r src n)
  stored-IsValid = record {
    positive = v.positive;
    small = v.small;
    storage = length-stored;
    read_in = v.read_in;
    write_in = ground arith;
    fits = ground (arith, used-stored);
  }

  -- Where a cell of the contents lies, before and after.
  stored_cell :
      (i : ℕ)
      → i < used r + n
      → get_elem? (stored r src n).buffer (wrap r.buffer_size (r.read_pos % r.buffer_size + i)) ≡ (
          if ltb i (used r)
          then get_elem? r.buffer (wrap r.buffer_size (r.read_pos % r.buffer_size + i))
          else get_elem? src (i - used r))
  stored_cell i h =
      let b = r.buffer_size in
      let (reader, writer, at) = offsets v in
      ground
        (arith, v.fits, v.storage, v.positive, stored_cells r src n (wrap b (r.read_pos % b + i)))

  contents-stored : contents (stored r src n) ≡ contents r ++ take n src
  contents-stored = list_ext (contents (stored r src n)) (contents r ++ take n src) λ i.
      rw
        (
          get_elem?-contents i stored-IsValid,
          used-stored,
          get_elem?-append (contents r) (take n src) i,
          length-contents v,
          get_elem?-contents i v,
          get_elem?-take n src (i - used r),
        )
        (glue (used r) n i _ _ _ (stored_cell i))

-- `write` takes the bytes that fit and no others, appends them to the contents, and keeps the
-- ring valid.
pub write_lem :
    {r : Ring} (src : List ℕ)
    → IsValid r
    → length src < size_mod
    → let (n, r') = write r src in
      (n ≡ min (length src) (free r))
      × IsValid r'
      × (contents r' ≡ contents r ++ take (free r) src)
      × (r'.buffer_size ≡ r.buffer_size)
write_lem {r} src v counted =
    let n = min (length src) (r.buffer_size - used r) in
    rw (write-eq-stored src v counted, free-eq-sub v)
      (
        refl,
        stored-IsValid src n v (omega arith) (omega arith),
        (contents-stored src n v (omega arith) (omega arith)
            ∙ ap (λ t. contents r ++ t) (take-min src (r.buffer_size - used r))),
        refl,
      )
