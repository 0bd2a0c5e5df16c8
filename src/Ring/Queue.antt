-- ===== src/Ring/Queue.antt =====
-- A bounded FIFO of bytes, oldest first: what a ring promises to its users.
use trans_proxy.Base.{ℕ, ◌-◌, ◌<◌, min, List, [], ◌∷◌, ◌++◌, length, take, drop, size_mod}

-- A user's call, with the bytes or the byte count that it passes.
pub data Op : Type 0 where
  put : List ℕ → Op
  get : ℕ → Op
  look : ℕ → Op
  drop_written drop_unread : Op

-- What the user sees of a call.
pub data Reply : Type 0 where
  wrote : ℕ → Reply
  gave : List ℕ → Reply
  cleared : Reply

-- The byte counts of the calls are `size_t`.
abbrev pub Counted : List Op → Type 0
Counted [] = Unit {0}
Counted (put src ∷ ops) = (length src < size_mod) × Counted ops
Counted (get n ∷ ops) = (n < size_mod) × Counted ops
Counted (look n ∷ ops) = (n < size_mod) × Counted ops
Counted (drop_written ∷ ops) = Counted ops
Counted (drop_unread ∷ ops) = Counted ops

unfoldable pub run : ℕ → List ℕ → List Op → List Reply
run cap q [] = []
run cap q (put src ∷ ops) =
    let room = cap - length q in wrote (min (length src) room) ∷ run cap (q ++ take room src) ops
run cap q (get n ∷ ops) = gave (take n q) ∷ run cap (drop n q) ops
run cap q (look n ∷ ops) = gave (take n q) ∷ run cap q ops
run cap q (drop_written ∷ ops) = cleared ∷ run cap [] ops
run cap q (drop_unread ∷ ops) = cleared ∷ run cap [] ops
