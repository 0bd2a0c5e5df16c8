-- ===== src/Ring.antt =====
-- Dev/Main/src/Base/RingBuffer.h and RingBuffer.cpp: a byte ring whose two positions run over twice
-- the buffer, so that a full ring and an empty one differ by their pages.
pub mod Valid
pub mod Contents
pub mod Write
pub mod Append
pub mod Peek
pub mod Queue
pub mod Refine
mod Tests
use trans_proxy.Base.{
  ℕ, ◌*◌, ◌-◌, ◌/◌, ◌%◌, min, List, [], ◌++◌, ltb, leb, ◌==◌, ◌!=◌, if◌then◌else◌, length, take,
  drop, replicate, blit, size_mod, add_size, sub_size,
}

-- `TRing`. `buffer` holds the bytes of the flexible array.
pub record Ring : Type 0 where
  pub buffer : List ℕ
  pub buffer_size : ℕ
  pub read_pos : ℕ
  pub write_pos : ℕ

-- `buffer_size << 1`
abbrev pub span : Ring → ℕ
span r = (r.buffer_size * 2) % size_mod

-- `alloc`. The memory that `new` returns is not cleared: its bytes are an argument.
unfoldable pub alloc : List ℕ → ℕ → Ring
alloc memory ring_size = record {
  buffer = memory;
  buffer_size = ring_size;
  read_pos = 0;
  write_pos = 0;
}

pub end_read : Ring → ℕ → Ring
end_read r bytes = record r { read_pos = add_size r.read_pos bytes % span r }

pub end_write : Ring → ℕ → Ring
end_write r bytes = record r { write_pos = add_size r.write_pos bytes % span r }

pub available : Ring → ℕ
available r =
    let r_page = r.read_pos / r.buffer_size in
    let r_offset = r.read_pos % r.buffer_size in
    let w_page = r.write_pos / r.buffer_size in
    let w_offset = r.write_pos % r.buffer_size in
    let l = sub_size w_offset r_offset in if w_page != r_page then add_size l r.buffer_size else l

pub free : Ring → ℕ
free r =
    let r_page = r.read_pos / r.buffer_size in
    let r_offset = r.read_pos % r.buffer_size in
    let w_page = r.write_pos / r.buffer_size in
    let w_offset = r.write_pos % r.buffer_size in
    let l = sub_size r_offset w_offset in if w_page == r_page then add_size l r.buffer_size else l

-- The `n` bytes that `memcpy` reads from offset `from` of the buffer.
abbrev pub copy : Ring → ℕ → ℕ → List ℕ
copy r from n = take n (drop from r.buffer)

-- `peek (offset, bytes, buffer)`: the bytes that it puts into `buffer`. Their number is its result.
pub peek : Ring → ℕ → ℕ → List ℕ
peek r offset bytes =
    let pos = add_size r.read_pos offset % span r in
    let r_page = pos / r.buffer_size in
    let r_offset = pos % r.buffer_size in
    let w_page = r.write_pos / r.buffer_size in
    let w_offset = r.write_pos % r.buffer_size in
    if w_page == r_page
    then (let l = sub_size w_offset r_offset in copy r r_offset (if ltb l bytes then l else bytes))
    else (let l = sub_size r.buffer_size r_offset in
        if leb bytes l
        then copy r r_offset bytes
        else copy r r_offset l ++ copy r 0 (min (sub_size bytes l) w_offset))

pub read : Ring → ℕ → List ℕ × Ring
unfolding end_read peek
read r bytes = let out = peek r 0 bytes in (out, end_read r (length out))

-- `write (buffer, bytes)`: the list is the `bytes` bytes at `buffer`.
pub write : Ring → List ℕ → ℕ × Ring
unfolding end_write
write r src =
    let bytes = length src in
    let r_page = r.read_pos / r.buffer_size in
    let r_offset = r.read_pos % r.buffer_size in
    let w_page = r.write_pos / r.buffer_size in
    let w_offset = r.write_pos % r.buffer_size in
    if w_page != r_page
    then (let l = sub_size r_offset w_offset in
        let n = (if ltb l bytes then l else bytes) in
        (n, end_write (record r { buffer = blit r.buffer w_offset (take n src) }) n))
    else (let l = sub_size r.buffer_size w_offset in
        if leb bytes l
        then (bytes, end_write (record r { buffer = blit r.buffer w_offset src }) bytes)
        else let l2 = min (sub_size bytes l) r_offset in
          let tail_written = blit r.buffer w_offset (take l src) in
          let n = add_size l l2 in
          (n, end_write (record r { buffer = blit tail_written 0 (take l2 (drop l src)) }) n))

pub clear_unsafe : Ring → Ring
clear_unsafe r = record r { write_pos = r.read_pos }

pub clear_read : Ring → Ring
clear_read r = record r { read_pos = r.write_pos }
