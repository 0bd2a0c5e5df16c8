-- ===== src/Ring/Write.antt =====
-- `write` appends to the contents as many bytes as fit.
use trans_proxy.Base.{
  ℕ, ◌+◌, ◌-◌, ◌*◌, ◌/◌, ◌%◌, ◌≤◌, ◌<◌, min, ◌≡◌, ◌≢◌, sym, ap, List, length, ltb, if◌then◌else◌,
  get_elem?, take, drop, blit, length-take, length-drop, get_elem?-take, get_elem?-drop,
  get_elem?-blit, length-blit, blit-nil, !=_iff, !=_self, leb_iff, leb-false, add_size, sub_size,
  size_mod, arith, take_all,
}
use native.Mathlib.Decide.{ℕ_discrete, dec_lt}
use trans_proxy.Ring.{Ring, write, end_write}
use trans_proxy.Ring.Valid.{IsValid, used, page}
use trans_proxy.Ring.Contents.{wrap, advance}

-- What `write` leaves when it takes `n` bytes: up to the end of the buffer, then from its start.
abbrev pub stored : Ring → List ℕ → ℕ → Ring
stored r src n =
    let off = r.write_pos % r.buffer_size in
    let m = min n (r.buffer_size - off) in
    record r {
      buffer = blit (blit r.buffer off (take m src)) 0 (take (n - m) (drop m src));
      write_pos = wrap (2 * r.buffer_size) (r.write_pos + n);
    }

stored_short :
    (r : Ring) (src : List ℕ) (n : ℕ)
    → n ≤ r.buffer_size - r.write_pos % r.buffer_size
    → stored r src n ≡ record r {
      buffer = blit r.buffer (r.write_pos % r.buffer_size) (take n src);
      write_pos = wrap (2 * r.buffer_size) (r.write_pos + n);
    }
stored_short r src n h =
    let e : min n (r.buffer_size - r.write_pos % r.buffer_size) ≡ n = omega arith in
    let z : n - n ≡ 0 = omega arith in
    rw (e, z) (rw (blit-nil (blit r.buffer (r.write_pos % r.buffer_size) (take n src))))

end_write-eq :
    (r : Ring) (buf : List ℕ) (n : ℕ)
    → IsValid r
    → n ≤ r.buffer_size
    → end_write (record r { buffer = buf }) n
      ≡ record r { buffer = buf; write_pos = wrap (2 * r.buffer_size) (r.write_pos + n) }
unfolding end_write
end_write-eq r buf n v h = rw (advance r r.write_pos n v v.write_in h)

-- A `size_t` counts the bytes of the caller.
module _ {r : Ring} (src : List ℕ) (v : IsValid r) (counted : length src < size_mod) where
  abbrev pub took : ℕ
  took = min (length src) (r.buffer_size - used r)

  write_other_page :
      r.write_pos / r.buffer_size ≢ r.read_pos / r.buffer_size
      → write r src ≡ (took, stored r src took)
  unfolding write
  write_other_page h =
      let b = r.buffer_size in
      let off = r.write_pos % b in
      let l = sub_size (r.read_pos % b) off in
      let pages = page b r.read_pos v.read_in in
      let pages' = page b r.write_pos v.write_in in
      let e : (if ltb l (length src) then l else length src) ≡ took =
        ground (arith, pages, pages') in
      rw ((!=_iff _ _).1 h) (
        rw (e, end_write-eq r (blit r.buffer off (take took src)) took v (omega arith))
          (ap (λ (q : Ring). (took, q))
            (sym (stored_short r src took (ground (arith, pages, pages'))))))

  write_same_page_short :
      r.write_pos / r.buffer_size ≡ r.read_pos / r.buffer_size
      → length src ≤ r.buffer_size - r.write_pos % r.buffer_size
      → write r src ≡ (took, stored r src took)
  unfolding write
  write_same_page_short h fit =
      let b = r.buffer_size in
      let off = r.write_pos % b in
      let pages = page b r.read_pos v.read_in in
      let pages' = page b r.write_pos v.write_in in
      let e : sub_size b off ≡ b - off = ground (arith, pages') in
      let t : took ≡ length src = ground (arith, pages, pages') in
      rw (h, !=_self (r.read_pos / b), e, (leb_iff _ _).1 fit)
        (rw (
          end_write-eq r (blit r.buffer off src) (length src) v (omega arith),
          t,
          stored_short r src (length src) fit,
          take_all src,
        ))

  write_same_page_long :
      r.write_pos / r.buffer_size ≡ r.read_pos / r.buffer_size
      → r.buffer_size - r.write_pos % r.buffer_size < length src
      → write r src ≡ (took, stored r src took)
  unfolding write
  write_same_page_long h over =
      let b = r.buffer_size in
      let off = r.write_pos % b in
      let roff = r.read_pos % b in
      let l = b - off in
      let pages = page b r.read_pos v.read_in in
      let pages' = page b r.write_pos v.write_in in
      let e : sub_size b off ≡ l = ground (arith, pages') in
      let f : sub_size (length src) l ≡ length src - l = omega arith in
      let n : add_size l (min (length src - l) roff) ≡ took = ground (arith, pages, pages') in
      let m : min took l ≡ l = ground (arith, pages, pages') in
      let d : took - l ≡ min (length src - l) roff = ground (arith, pages, pages') in
      rw (h, !=_self (r.read_pos / b), e, leb-false _ _ over)
        (rw (
          f,
          n,
          m,
          d,
          end_write-eq r
              (blit (blit r.buffer off (take l src)) 0
                (take (min (length src - l) roff) (drop l src)))
              took v (omega arith),
        ))

  -- `write` in closed form.
  pub write-eq-stored : write r src ≡ (took, stored r src took)
  write-eq-stored = elim (ℕ_discrete (r.write_pos / r.buffer_size) (r.read_pos / r.buffer_size)) [
    | yes same ↦ elim (dec_lt (r.buffer_size - r.write_pos % r.buffer_size) (length src)) [
      | yes over ↦ write_same_page_long same over
      | no fit ↦ write_same_page_short same (omega arith)
    ]
    | no other ↦ write_other_page other
  ]

blit_prefix :
    (buf src : List ℕ) (off m j : ℕ)
    → m ≤ length src
    → off + m ≤ length buf
    → get_elem? (blit buf off (take m src)) j ≡ (
        if ltb j off
        then get_elem? buf j
        else if ltb j (off + m)
        then get_elem? src (j - off)
        else get_elem? buf j)
blit_prefix buf src off m j hm hb = ground (
  arith,
  length-take m src,
  get_elem?-blit buf off (take m src) j,
  get_elem?-take m src (j - off),
)

blit_rest :
    (buf src : List ℕ) (m k j : ℕ)
    → m + k ≤ length src
    → k ≤ length buf
    → get_elem? (blit buf 0 (take k (drop m src))) j
      ≡ (if ltb j k then get_elem? src (m + j) else get_elem? buf j)
blit_rest buf src m k j hm hb =
    let z : j - 0 ≡ j = omega arith in
    ground (
      arith,
      length-take k (drop m src),
      length-drop m src,
      get_elem?-blit buf 0 (take k (drop m src)) j,
      get_elem?-take k (drop m src) (j - 0),
      get_elem?-drop m src (j - 0),
      ap (get_elem? src) (ap (λ (q : ℕ). m + q) z),
    )

module _ (r : Ring) (src : List ℕ) (n : ℕ) where
  pub stored_cells :
      (j : ℕ)
      → length r.buffer ≡ r.buffer_size
      → r.write_pos % r.buffer_size < r.buffer_size
      → n ≤ length src
      → n ≤ r.buffer_size
      → j < r.buffer_size
      → let off = r.write_pos % r.buffer_size in
        get_elem? (stored r src n).buffer j ≡ (
          if ltb j off
          then (if ltb (j + r.buffer_size) (off + n)
              then get_elem? src (j + r.buffer_size - off)
              else get_elem? r.buffer j)
          else (if ltb j (off + n) then get_elem? src (j - off) else get_elem? r.buffer j))
  stored_cells j len ho hn hb hj =
      let b = r.buffer_size in
      let off = r.write_pos % b in
      let m = min n (b - off) in
      let first = take m src in
      ground (
        arith,
        length-take m src,
        length-blit r.buffer off first,
        blit_prefix r.buffer src off m j,
        blit_rest (blit r.buffer off first) src m (n - m) j,
      )
