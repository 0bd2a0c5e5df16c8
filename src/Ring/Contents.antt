-- ===== src/Ring/Contents.antt =====
-- The bytes that a ring holds, oldest first, and what `peek` and `write` do cell by cell.
use native.Mathlib.Nat.{mod-eq_of_lt, mod-eq-sub-mod}
use native.Mathlib.Decide.{dec_lt}
use trans_proxy.Base.{
  ℕ, ◌+◌, ◌-◌, ◌*◌, ◌%◌, ◌≤◌, ◌<◌, ◌≡◌, none, List, ◌++◌, length, ltb, add_size, if◌then◌else◌,
  get_elem?, take, drop, length-take, length-append, length-drop, get_elem?-take, get_elem?-append,
  get_elem?-drop, arith,
}
use trans_proxy.Ring.{Ring, span}
use trans_proxy.Ring.Valid.{IsValid, used, page}

-- The buffer turned so that the reader's offset comes first, cut after the bytes in use.
abbrev pub contents : Ring → List ℕ
contents r =
    let h = r.read_pos % r.buffer_size in take (used r) (drop h r.buffer ++ take h r.buffer)

-- The index `i` cells after offset `h`, going round at `b`.
abbrev pub wrap : ℕ → ℕ → ℕ
wrap b i = if ltb i b then i else i - b

pub get_elem?-contents :
    {r : Ring} (i : ℕ)
    → IsValid r
    → get_elem? (contents r) i ≡ (
        if ltb i (used r)
        then get_elem? r.buffer (wrap r.buffer_size (r.read_pos % r.buffer_size + i))
        else none)
get_elem?-contents {r} i v =
    let h = r.read_pos % r.buffer_size in
    ground (
      arith,
      page r.buffer_size r.read_pos v.read_in,
      get_elem?-take (used r) (drop h r.buffer ++ take h r.buffer) i,
      get_elem?-append (drop h r.buffer) (take h r.buffer) i,
      get_elem?-drop h r.buffer i,
      get_elem?-take h r.buffer (i - length (drop h r.buffer)),
      length-drop h r.buffer,
    )

mod-wrap : (c x : ℕ) → x < 2 * c → x % c ≡ wrap c x
mod-wrap c x h = elim (dec_lt x c) [
  | yes p ↦ ground (arith, mod-eq_of_lt p)
  | no p ↦ ground (
    arith,
    mod-eq-sub-mod {n = x} {m = c} (omega arith),
    mod-eq_of_lt {n = x - c} {m = c} (omega arith),
  )
]

-- Advancing a position by at most one buffer goes round the circle at most once.
pub advance :
    (r : Ring) (x n : ℕ)
    → IsValid r
    → x < 2 * r.buffer_size
    → n ≤ r.buffer_size
    → add_size x n % span r ≡ wrap (2 * r.buffer_size) (x + n)
advance r x n v hx hn =
    let e : add_size x n ≡ x + n = omega arith in
    let f : span r ≡ 2 * r.buffer_size = omega arith in
    rw (e, f) (mod-wrap (2 * r.buffer_size) (x + n) (omega arith))

pub length-contents : {r : Ring} → IsValid r → length (contents r) ≡ used r
length-contents {r} v =
    let h = r.read_pos % r.buffer_size in
    ground (
      arith,
      page r.buffer_size r.read_pos v.read_in,
      length-take (used r) (drop h r.buffer ++ take h r.buffer),
      length-append (drop h r.buffer) (take h r.buffer),
      length-drop h r.buffer,
      length-take h r.buffer,
    )

-- The writer's offset is the reader's, as many cells further as are in use.
pub offsets :
    {r : Ring}
    → IsValid r
    → (r.read_pos % r.buffer_size < r.buffer_size)
      × (r.write_pos % r.buffer_size < r.buffer_size)
      × (r.write_pos % r.buffer_size ≡ wrap r.buffer_size (r.read_pos % r.buffer_size + used r))
offsets {r} v =
    let pages = page r.buffer_size r.read_pos v.read_in in
    let pages' = page r.buffer_size r.write_pos v.write_in in
    (ground arith, ground arith, ground arith)
