-- ===== src/Trans/Auth.antt =====
-- Dev/Main/src/TransProxy/ProxyAuth.h, ProxyAuthHTTP.h and ProxyAuthSock5.h: the handshakes with
-- the upstream proxy.
pub mod Progress
use trans_proxy.Base.{
  ℕ, ◌+◌, ◌-◌, ◌/◌, ◌%◌, Bool, true, false, ◌&&◌, List, [], ◌∷◌, ◌++◌, ltb, leb, ◌==◌,
  if◌then◌else◌, length, take, blit, add_size, sub_size,
}

-- What a handshake asks of its connection, in order: to send a request with the space that is left
-- for the answer, and to count the bytes of a request as sent.
pub data Call : Type 0 where
  send_request : List ℕ → ℕ → Call
  commit_request : ℕ → Call

-- The result of `onAuthResponse`: 0, 1 and -1.
pub data Reply : Type 0 where
  refused accepted more : Reply

-- `ProxyAuthHTTP` has its request and what came of the response; `ProxyAuthSock5` also a state of 1
-- or 2.
pub data Auth : Type 0 where
  http : List ℕ → List ℕ → Auth
  sock5 : List ℕ → ℕ → List ℕ → Auth

-- `sizeof(_response)`
abbrev pub response_size : ℕ
response_size = 1024

-- The bytes up to the first NUL.
abbrev pub c_string : List ℕ → List ℕ
c_string [] = []
c_string (c ∷ cs) = if c == 0 then [] else c ∷ c_string cs

abbrev pub starts_with : List ℕ → List ℕ → Bool
starts_with [] cs = true
starts_with (p ∷ ps) [] = false
starts_with (p ∷ ps) (c ∷ cs) = (p == c) && starts_with ps cs

-- `strstr`, as a test
abbrev pub contains : List ℕ → List ℕ → Bool
contains ps [] = starts_with ps []
contains ps (c ∷ cs) = if starts_with ps (c ∷ cs) then true else contains ps cs

-- "\r\n\r\n"
abbrev pub blank_line : List ℕ
blank_line = 13 ∷ 10 ∷ 13 ∷ 10 ∷ []

-- "HTTP/1.1 200 "
abbrev pub connected_line : List ℕ
connected_line = 72 ∷ 84 ∷ 84 ∷ 80 ∷ 47 ∷ 49 ∷ 46 ∷ 49 ∷ 32 ∷ 50 ∷ 48 ∷ 48 ∷ 32 ∷ []

-- The request of `ProxyAuthSock5`, over the memory that `_req` allocates for it.
pub sock5_request : List ℕ → List ℕ → ℕ → List ℕ
sock5_request memory hostname port =
    let l = length hostname % 256 in
    let head = blit memory 0 (5 ∷ 1 ∷ 0 ∷ 3 ∷ l ∷ []) in
    blit (blit head 5 (take l hostname)) (l + 5) (port / 256 % 256 ∷ port % 256 ∷ [])

-- `createInstance` of the two builders. `format` prints the CONNECT request.
pub create_http : (List ℕ → ℕ → List ℕ) → List ℕ → ℕ → Auth
create_http format hostname port = http (format hostname port) []

pub create_sock5 : (ℕ → List ℕ) → List ℕ → ℕ → Auth
unfolding sock5_request
create_sock5 memory hostname port =
    sock5 (sock5_request (memory (length hostname + 7)) hostname port) 1 []

-- `sendAuthRequest`
unfoldable pub send_auth_request : Auth → List Call
send_auth_request (http req response) =
    send_request req (sub_size (response_size - 1) (length response)) ∷ []
send_auth_request (sock5 req stage response) =
    let space = sub_size response_size (length response) in
    if stage == 1
    then send_request (5 ∷ 1 ∷ 0 ∷ []) space ∷ []
    else if stage == 2
    then send_request req space ∷ []
    else []

-- `_response[i]`, of a `char`
abbrev pub byte_at : ℕ → List ℕ → ℕ
byte_at i [] = 0
byte_at i (c ∷ cs) = if i == 0 then c else byte_at (i - 1) cs

-- `l`, for the two kinds of address that are told apart. A `char` of 128 or more is negative.
unfoldable pub sock5_length : List ℕ → ℕ
sock5_length response =
    let kind = byte_at 3 response in
    let name = byte_at 4 response in
    if kind == 1
    then 10
    else if kind == 3
    then (if ltb name 128 then 7 + name else sub_size (7 + name) 256)
    else 0

-- `onAuthResponse` of `ProxyAuthHTTP`
unfoldable pub http_answer : List ℕ → List ℕ → List ℕ → Reply × Auth × List Call
http_answer req response bytes =
    let response' = response ++ bytes in
    if leb response_size (add_size (length response) (length bytes))
    then (refused, http req response, [])
    else if contains blank_line (c_string response')
    then (if starts_with connected_line response'
        then (accepted, http req response', commit_request (length req) ∷ [])
        else (refused, http req response', []))
    else (more, http req response', [])

-- `onAuthResponse` of `ProxyAuthSock5`
unfoldable pub sock5_answer : List ℕ → ℕ → List ℕ → List ℕ → Reply × Auth × List Call
unfolding send_auth_request sock5_length
sock5_answer req stage response bytes =
    let response' = response ++ bytes in
    let n = length response' in
    let greeted = (byte_at 0 response' == 5) && (byte_at 1 response' == 0) in
    if ltb response_size (add_size (length response) (length bytes))
    then (refused, sock5 req stage response, [])
    else if stage == 1
    then (if leb 2 n
        then (if (n == 2) && greeted
            then (more, sock5 req 2 [], commit_request 3 ∷ send_auth_request (sock5 req 2 []))
            else (refused, sock5 req 1 response', []))
        else (more, sock5 req 1 response', []))
    else if stage == 2
    then (if leb 7 n
        then (if greeted
            then (if ltb n (sock5_length response')
                then (more, sock5 req 2 response', [])
                else (accepted, sock5 req 2 response', commit_request (length req) ∷ []))
            else (refused, sock5 req 2 response', []))
        else (more, sock5 req 2 response', []))
    else (more, sock5 req stage response', [])

-- `onAuthResponse`
unfoldable pub on_auth_response : Auth → List ℕ → Reply × Auth × List Call
unfolding http_answer sock5_answer
on_auth_response (http req response) bytes = http_answer req response bytes
on_auth_response (sock5 req stage response) bytes = sock5_answer req stage response bytes
