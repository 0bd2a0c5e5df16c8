-- ===== src/Tcp/Call.antt =====
-- The users of a connection: what they are told, and the calls with which they answer.
use trans_proxy.Base.{ℕ, Bool, Option, none, some, List, [], ◌∷◌, if◌then◌else◌}
use trans_proxy.Tcp.State.{Endpoint}
use trans_proxy.Tcp.Send.{send, recv, wait_to_recv, wait_to_send, close}

-- A call of a user that changes the connection.
pub data Call : Type 0 where
  call_recv : ℕ → Call
  call_send : List ℕ → Call
  call_wait_to_recv call_wait_to_send call_close : Call
  call_set_listener : Bool → Call

-- `Net::TcpServerListener` and `Net::TcpConnectionListener`: the calls with which a user answers, from
-- what it sees of the connection. `on_server_connected` also says whether it gives a listener.
pub record Listener : Type 0 where
  pub on_server_connected : Endpoint → Bool × List Call
  pub on_connected : Endpoint → List Call
  pub on_to_recv : Endpoint → List Call
  pub on_to_send : Endpoint → List Call

-- One call. The memory of the buffer of `_send` is the first argument.
unfoldable pub run_call : List ℕ → Call → Endpoint → Endpoint
unfolding recv send wait_to_recv wait_to_send close
run_call stack (call_recv n) e = (recv n e).1
run_call stack (call_send bytes) e = (send stack bytes e).1
run_call stack call_wait_to_recv e = wait_to_recv e
run_call stack call_wait_to_send e = wait_to_send e
run_call stack call_close e = close e
run_call stack (call_set_listener given) e = record e { has_listener = given }

unfoldable pub run_calls : List ℕ → List Call → Endpoint → Endpoint
unfolding run_call
run_calls stack [] e = e
run_calls stack (c ∷ cs) e = run_calls stack cs (run_call stack c e)

-- `_listener->…`. `none` is a null pointer that is followed.
unfoldable pub tell : List ℕ → (Endpoint → List Call) → Endpoint → Option Endpoint
unfolding run_calls
tell stack f e = if e.has_listener then some (run_calls stack (f e) e) else none
