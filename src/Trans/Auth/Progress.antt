-- ===== src/Trans/Auth/Progress.antt =====
-- The handshakes keep within their response buffer.
mod Tests
use trans_proxy.Base.{
  ℕ, ◌+◌, ◌-◌, ◌^◌, ◌≤◌, ◌<◌, ◌≡◌, refl, sym, Bool, true, false, ◌&&◌, List, [], ◌∷◌, ◌++◌, length,
  length-append, if_elim, ltb, leb, ◌==◌, if◌then◌else◌, size_mod, add_size, arith,
}
use trans_proxy.Trans.Auth.{
  Auth, http, sock5, Call, Reply, refused, accepted, more, response_size, on_auth_response,
  http_answer, sock5_answer, contains, blank_line, c_string, starts_with, connected_line,
  sock5_length, byte_at,
}

-- What came of the response fits into the buffer; the HTTP handshake also puts a NUL behind it.
abbrev pub Fits : Auth → Type 0
Fits (http req response) = length response < response_size
Fits (sock5 req stage response) = length response ≤ response_size

below_size :
    (m n : ℕ)
    → m < response_size
    → n < 2 ^ 63
    → leb response_size (add_size m n) ≡ false
    → m + n < response_size
below_size m n h g e = ground arith

within_size :
    (m n : ℕ)
    → m ≤ response_size
    → n < 2 ^ 63
    → ltb response_size (add_size m n) ≡ false
    → m + n ≤ response_size
within_size m n h g e = ground arith

abbrev FitsAfter : Reply × Auth × List Call → Type 0
FitsAfter o = Fits o.1

-- Whatever bytes come, what a handshake stores stays within its buffer.
pub on_auth_response-Fits :
    (a : Auth) (bytes : List ℕ) → Fits a → length bytes < 2 ^ 63 → Fits (on_auth_response a bytes).1
unfolding on_auth_response http_answer sock5_answer
on_auth_response-Fits (http req response) bytes f small =
    let response' = response ++ bytes in
    if_elim FitsAfter (leb response_size (add_size (length response) (length bytes))) _ _ (λ _. f)
      (λ room.
        let held : length response' < response_size = omega (
          arith,
          length-append response bytes,
          below_size (length response) (length bytes) f small room,
        ) in
        if_elim FitsAfter (contains blank_line (c_string response')) _ _
          (λ _.
            if_elim FitsAfter (starts_with connected_line response') _ _ (λ _. held) (λ _. held))
          (λ _. held))
on_auth_response-Fits (sock5 req stage response) bytes f small =
    let response' = response ++ bytes in
    let n = length response' in
    let greeted = (byte_at 0 response' == 5) && (byte_at 1 response' == 0) in
    if_elim FitsAfter (ltb response_size (add_size (length response) (length bytes))) _ _ (λ _. f)
      (λ room.
        let held : length response' ≤ response_size = omega (
          arith,
          length-append response bytes,
          within_size (length response) (length bytes) f small room,
        ) in
        if_elim FitsAfter (stage == 1) _ _
          (λ _.
            if_elim FitsAfter (leb 2 n) _ _
              (λ _. if_elim FitsAfter ((n == 2) && greeted) _ _ (λ _. omega arith) (λ _. held))
              (λ _. held))
          (λ _.
            if_elim FitsAfter (stage == 2) _ _
              (λ _.
                if_elim FitsAfter (leb 7 n) _ _
                  (λ _.
                    if_elim FitsAfter greeted _ _
                      (λ _.
                        if_elim FitsAfter (ltb n (sock5_length response')) _ _ (λ _. held)
                          (λ _. held))
                      (λ _. held))
                  (λ _. held))
              (λ _. held)))
