-- ===== src/Net/Buffer.antt =====
-- Buffers whose memory is not cleared, and writes that fit.
use trans_proxy.Base.{
  ℕ, zero, suc, ◌+◌, ◌*◌, ◌/◌, ◌%◌, ◌^◌, ◌≤◌, ◌<◌, ◌≡◌, refl, ap, ◌∙◌, true, some, List, take,
  ==_iff, [], ◌∷◌, ◌++◌, length, drop, leb, blit, get_or, add_size, arith, arith,
}
use trans_proxy.Net.Packet
use trans_proxy.Net.Packet.{Packet, span}

-- The `n` bytes of a memory from the place `i` on.
unfoldable pub cells : ℕ → ℕ → List ℕ → List ℕ
cells zero i xs = []
cells (suc n) i xs = get_or xs i 0 ∷ cells n (suc i) xs

drop_cell : (i : ℕ) (xs : List ℕ) → i < length xs → drop i xs ≡ get_or xs i 0 ∷ drop (suc i) xs
drop_cell i [] h = absurd (omega arith)
drop_cell zero (x ∷ xs) h = refl
drop_cell (suc i) (x ∷ xs) h = drop_cell i xs (omega arith)

pub cells_lem :
    (n i : ℕ) (xs : List ℕ) → i + n ≤ length xs → drop i xs ≡ cells n i xs ++ drop (i + n) xs
unfolding cells
cells_lem zero i xs h = ap (λ k. drop k xs) (omega arith)
cells_lem (suc n) i xs h =
    let e : suc i + n ≡ i + suc n = omega arith in
    drop_cell i xs (omega arith)
    ∙ ap (λ ys. get_or xs i 0 ∷ ys)
        (cells_lem n (suc i) xs (omega arith) ∙ ap (λ k. cells n (suc i) xs ++ drop k xs) e)

pub write_fits :
    (offset : ℕ) (bytes : List ℕ) (p : Packet)
    → leb (add_size offset (length bytes)) p.size ≡ true
    → Packet.write offset bytes p ≡ some (record p { bytes = blit p.bytes offset bytes })
unfolding Packet.write
write_fits offset bytes p h = rw h refl

-- The bytes of a field give its number back.
pub half_back : (v : ℕ) → v < 2 ^ 16 → v / 2 ^ 8 % 256 * 2 ^ 8 + v % 256 ≡ v
half_back v h = omega arith

pub word_back :
    (v : ℕ)
    → v < 2 ^ 32
    → v / 2 ^ 24 % 256 * 2 ^ 24 + v / 2 ^ 16 % 256 * 2 ^ 16 + v / 2 ^ 8 % 256 * 2 ^ 8 + v % 256 ≡ v
word_back v h = omega arith

pub span_fits :
    (i n : ℕ) (p : Packet)
    → length (take n (drop i p.bytes)) ≡ n
    → span i n p ≡ some (take n (drop i p.bytes))
unfolding span
span_fits i n p h = rw ((==_iff (length (take n (drop i p.bytes))) n).1 h) refl
