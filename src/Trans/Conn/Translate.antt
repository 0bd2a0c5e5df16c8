-- ===== src/Trans/Conn/Translate.antt =====
-- The translation of sequence numbers, and the bytes that are counted.
use trans_proxy.Base.{
  ℕ, List, ◌%◌, ◌+◌, ◌-◌, ◌≤◌, ◌<◌, ◌≡◌, true, size_mod, add_size, sub_size, arith,
}
use trans_proxy.Trans.Segment.{Segment, no_flags, half_mod, word_mod, sub_word}
use trans_proxy.Trans.Conn.{
  From, from_client, from_proxy, Conn, Run, transfer_data, acknowledged, int_max,
}

-- The segment that answers `p`: it acknowledges what `p` sends.
abbrev pub answer : Segment → Segment
answer p = record p { seq = p.ack_seq; ack_seq = p.seq }

-- The segment in which the handshake sends bytes.
abbrev request : List ℕ → ℕ → Conn → Segment
request b buffer_size c = record {
  flags = record no_flags { psh = true; ack = true };
  seq = add_size c.client_seq c.proxy_out_total % word_mod;
  ack_seq = add_size c.proxy_seq c.proxy_in_total % word_mod;
  window_size = buffer_size % half_mod;
  payload = b;
}

same_difference : {t u : ℕ} → t < size_mod → u < size_mod → sub_size t t ≡ sub_size u u
same_difference a b = omega arith

same_growth :
    {t u : ℕ} (x : ℕ)
    → t < size_mod
    → u < size_mod
    → sub_size (add_size t x) t ≡ sub_size (add_size u x) u
same_growth x a b = omega arith

caught_up :
    (u up : ℕ)
    → u ≤ up
    → up ≤ u + int_max
    → up < word_mod
    → add_size u (acknowledged true (sub_size up u)) ≡ up
caught_up u up h g b = let ahead : sub_size up u ≡ up - u = omega arith in rw ahead (ground arith)

-- The totals of the translator grow by what the connection's own counts grow by.
pub transfer_data-counts :
    (f : From) (p : Segment) (r : Run)
    → r.total_up_bytes < size_mod
    → r.total_down_bytes < size_mod
    → r.conn.up_bytes < size_mod
    → r.conn.down_bytes < size_mod
    → let r' = transfer_data f p r in
      (sub_size r'.total_up_bytes r.total_up_bytes ≡ sub_size r'.conn.up_bytes r.conn.up_bytes)
      × (sub_size r'.total_down_bytes r.total_down_bytes
          ≡ sub_size r'.conn.down_bytes r.conn.down_bytes)
unfolding transfer_data
transfer_data-counts from_client p r a b c d = (same_difference a c, same_growth _ b d)
transfer_data-counts from_proxy p r a b c d = (same_growth _ a c, same_difference b d)

-- An ACK of the proxy that is new, and not more than `INT_MAX` ahead, brings the client's count of
-- bytes to what it acknowledges.
pub transfer_data-up_bytes :
    (p : Segment) (r : Run)
    → let up = sub_word (sub_word p.ack_seq r.conn.proxy_out_total) r.conn.client_seq in
      p.flags.ack ≡ true
      → r.conn.up_bytes ≤ up
      → up ≤ r.conn.up_bytes + int_max
      → (transfer_data from_proxy p r).conn.up_bytes ≡ up
unfolding transfer_data
transfer_data-up_bytes p r a b c = rw a (caught_up r.conn.up_bytes _ b c (omega arith))
