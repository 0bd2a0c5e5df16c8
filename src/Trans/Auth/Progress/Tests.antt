-- ===== src/Trans/Auth/Progress/Tests.antt =====
-- A handshake whose answer comes in two parts.
use trans_proxy.Base.{◌≡◌, refl, [], ◌∷◌, arith}
use trans_proxy.Trans.Auth.{
  sock5, more, accepted, commit_request, send_request, on_auth_response, sock5_answer,
  send_auth_request, sock5_length,
}
use trans_proxy.Trans.Auth.Progress.{Fits, on_auth_response-Fits}

on_auth_response-Fits_example : Fits (on_auth_response (sock5 (5 ∷ []) 1 (5 ∷ [])) (0 ∷ [])).1
on_auth_response-Fits_example =
    on_auth_response-Fits (sock5 (5 ∷ []) 1 (5 ∷ [])) (0 ∷ []) (omega arith) (omega arith)

greeted :
    on_auth_response (sock5 (9 ∷ 9 ∷ []) 1 (5 ∷ [])) (0 ∷ [])
    ≡ (more, sock5 (9 ∷ 9 ∷ []) 2 [], commit_request 3 ∷ send_request (9 ∷ 9 ∷ []) 1024 ∷ [])
unfolding on_auth_response sock5_answer send_auth_request
greeted = refl

connected :
    (on_auth_response (sock5 (9 ∷ 9 ∷ []) 2 (5 ∷ [])) (0 ∷ 0 ∷ 1 ∷ 1 ∷ 2 ∷ 3 ∷ 4 ∷ 0 ∷ 80 ∷ [])).0
    ≡ accepted
unfolding on_auth_response sock5_answer sock5_length
connected = refl
