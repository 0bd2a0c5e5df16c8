-- ===== src/Ring/Refine.antt =====
-- A valid ring is the bounded queue of its contents, whatever its user calls.
use trans_proxy.Base.{ℕ, ◌+◌, ◌-◌, ◌^◌, ◌≤◌, ◌<◌, ◌≡◌, refl, List, [], ◌∷◌, length, arith}
use trans_proxy.Ring.Queue.{
  Op, Reply, put, get, look, drop_written, drop_unread, wrote, gave, cleared, Counted,
}
use trans_proxy.Ring.Queue
use trans_proxy.Ring.{Ring, alloc, peek, read, write, available, free, clear_unsafe, clear_read}
use trans_proxy.Ring.Valid.{IsValid, used, available-eq-used, free-eq-sub}
use trans_proxy.Ring.Contents.{contents, length-contents}
use trans_proxy.Ring.Append.{write_lem}
use trans_proxy.Ring.Peek.{peek_lem, read_lem}

unfoldable pub run : Ring → List Op → List Reply
run r [] = []
run r (put src ∷ ops) = let (n, r') = write r src in wrote n ∷ run r' ops
run r (get n ∷ ops) = let (out, r') = read r n in gave out ∷ run r' ops
run r (look n ∷ ops) = gave (peek r 0 n) ∷ run r ops
run r (drop_written ∷ ops) = cleared ∷ run (clear_unsafe r) ops
run r (drop_unread ∷ ops) = cleared ∷ run (clear_read r) ops

-- `available` and `free` count the bytes held and the cells left, which make up the buffer.
pub measures :
    {r : Ring}
    → IsValid r
    → (available r ≡ length (contents r)) × (available r + free r ≡ r.buffer_size)
measures v = omega (arith, available-eq-used v, free-eq-sub v, length-contents v)

-- A fresh ring, over memory of the size asked for, is valid and empty.
pub alloc-IsValid :
    (memory : List ℕ) (size : ℕ)
    → 0 < size
    → size ≤ 2 ^ 61
    → length memory ≡ size
    → IsValid (alloc memory size) × (contents (alloc memory size) ≡ [])
unfolding alloc
alloc-IsValid memory size pos small len = (omega arith, refl)

empty_contents : (r : Ring) → used r ≡ 0 → contents r ≡ []
empty_contents r e = rw e

-- Either way of clearing leaves a valid ring with no contents.
pub clear-IsValid :
    {r : Ring}
    → IsValid r
    → IsValid (clear_unsafe r)
      × IsValid (clear_read r)
      × (contents (clear_unsafe r) ≡ [])
      × (contents (clear_read r) ≡ [])
unfolding clear_unsafe clear_read
clear-IsValid {r} v = (
  ground arith,
  ground arith,
  empty_contents (clear_unsafe r) (ground arith),
  empty_contents (clear_read r) (ground arith),
)

-- No sequence of calls tells a valid ring from the bounded queue of its contents: the counts and
-- the bytes that come back are the queue's.
pub run_refines :
    (ops : List Op) {r : Ring}
    → IsValid r
    → Counted ops
    → run r ops ≡ Queue.run r.buffer_size (contents r) ops
unfolding run Queue.run
run_refines [] v c = refl
run_refines (put src ∷ ops) {r} v (h, c) =
    let (count, v', appended, size) = write_lem src v h in
    let room : free r ≡ r.buffer_size - length (contents r) =
      rw (length-contents v) (free-eq-sub v) in
    rw (run_refines ops v' c, appended, size, count, room)
run_refines (get n ∷ ops) v (h, c) =
    let (out, v', rest, size) = read_lem n v h in rw (run_refines ops v' c, out, rest, size)
run_refines (look n ∷ ops) {r} v (h, c) = rw (peek_lem 0 n v (omega arith) h, run_refines ops v c)
run_refines (drop_written ∷ ops) {r} v c =
    let (v', _, e, _) = clear-IsValid v in
    rw (run_refines ops v' c, e) (unfold clear_unsafe in refl)
run_refines (drop_unread ∷ ops) {r} v c =
    let (_, v', _, e) = clear-IsValid v in rw (run_refines ops v' c, e) (unfold clear_read in refl)
