-- ===== src/Ring/Tests.antt =====
-- Runs of the ring, and its theorems at a ring whose bytes go round the end of the buffer.
use native.Mathlib.Omega.{arith}
use trans_proxy.Base.{◌≡◌, refl, List, [], ◌∷◌, blit}
use trans_proxy.Ring.Queue.{Op, wrote, gave, cleared, put, get, look, drop_written, drop_unread}
use trans_proxy.Ring.Queue
use trans_proxy.Ring.{Ring, peek, read, write}
use trans_proxy.Ring.Valid.{IsValid}
use trans_proxy.Ring.Contents.{contents}
use trans_proxy.Ring.Refine.{run, run_refines}

-- Four cells, 30 in the last and 40 and 50 in the first two.
abbrev turned_ring : Ring
turned_ring = record {
  buffer = 40 ∷ 50 ∷ 0 ∷ 30 ∷ [];
  buffer_size = 4;
  read_pos = 3;
  write_pos = 6;
}

turned_ring-IsValid : IsValid turned_ring
turned_ring-IsValid = omega arith

abbrev script : List Op
script = put (60 ∷ 70 ∷ []) ∷ look 2 ∷ get 3 ∷ put (80 ∷ 90 ∷ 91 ∷ 92 ∷ []) ∷ get 9 ∷ []

contents_turned : contents turned_ring ≡ 30 ∷ 40 ∷ 50 ∷ []
contents_turned = refl

run_turned :
    run turned_ring script
    ≡ wrote 1
      ∷ gave (30 ∷ 40 ∷ [])
      ∷ gave (30 ∷ 40 ∷ 50 ∷ [])
      ∷ wrote 3
      ∷ gave (60 ∷ 80 ∷ 90 ∷ 91 ∷ [])
      ∷ []
unfolding run read write peek blit
run_turned = refl

run_refines_example : run turned_ring script ≡ Queue.run 4 (30 ∷ 40 ∷ 50 ∷ []) script
run_refines_example = run_refines script {r = turned_ring} turned_ring-IsValid (omega arith)
