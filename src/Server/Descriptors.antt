-- ===== src/Server/Descriptors.antt =====
-- The descriptors of the TCP endpoint of the server: connections that tryAcceptConnection accepts wait
-- for their task, authentifyClient, which closes them. server_app/endpoint/ServerTcpEndpoint.cpp.
use simple_messenger.Prelude.{
  inr, inl, Bool-cases, ℕ, zero, suc, ◌+◌, ◌≡◌, refl, Bool, Option, none, some, List, [], ◌∷◌, ◌++◌,
  arith, if◌then◌else◌,
}
use simple_messenger.Sockets.{
  bind_any, construct, EndpointBase, Call, accepts, closes, server_tcp_endpoint, destroy,
}
use simple_messenger.Server.Defs.{set_port, accept_connection}
use mathlib.Core.Option
use simple_messenger.Message.{SocketInfo, ClientInfo}
use simple_messenger.Endpoint.{Polled, poll_socket}
use simple_messenger.Sockets.Calls.{one_if, handed_out, closed, handed_out-append, closed-append}

-- The socket of the endpoint, the tasks that have been scheduled and not run, and what the system was
-- asked for.
pub record Session : Type 0 where
  pub sock : EndpointBase
  pub tasks : List (ClientInfo × ℕ)
  pub calls : List Call

abbrev scheduled : Option (ClientInfo × ℕ) → List (ClientInfo × ℕ)
scheduled none = []
scheduled (some t) = t ∷ []

-- `acceptConnection`, for what `accept4` gives.
unfoldable pub accept : Session → Option (ℕ × SocketInfo) → Session
accept s accepted = record s {
  tasks = s.tasks ++ scheduled (accept_connection accepted);
  calls = s.calls ++ (accepts s.sock.socket_id (Option.map (λ a. a.0) accepted) ∷ []);
}

-- `tryAcceptConnection`
unfoldable pub try_accept_connection : Session → Polled → Option (ℕ × SocketInfo) → Session
try_accept_connection s polled accepted =
    let (ready_to_read, _) = poll_socket polled in if ready_to_read then accept s accepted else s

-- How `authentifyClient` leaves the connection of a user who is refused, or accepted.
unfoldable pub close_connection : ℕ → Option ℕ → List Call
close_connection sock_id none = closes (some sock_id) ∷ []
close_connection sock_id (some id) = closes (some sock_id) ∷ []

-- The scheduled task number `i`, and the others.
unfoldable pub pick : ℕ → List (ClientInfo × ℕ) → Option (ClientInfo × ℕ) × List (ClientInfo × ℕ)
pick i [] = (none, [])
pick zero (t ∷ ts) = (some t, ts)
pick (suc i) (t ∷ ts) = let (picked, rest) = pick i ts in (picked, t ∷ rest)

-- A task, to whose request `handleAuthReq` gives `answer`.
unfoldable pub run_task :
    Session → Option ℕ → Option (ClientInfo × ℕ) × List (ClientInfo × ℕ) → Session
run_task s answer (none, rest) = s
run_task s answer (some (client_info, sock_id), rest) = record s {
  tasks = rest;
  calls = s.calls ++ close_connection sock_id answer;
}

pub data Event : Type 0 where
  polls : Polled → Option (ℕ × SocketInfo) → Event
  serves : ℕ → Option ℕ → Event

unfoldable pub step : Session → Event → Session
step s (polls polled accepted) = try_accept_connection s polled accepted
step s (serves i answer) = run_task s answer (pick i s.tasks)

unfoldable pub run : Session → List Event → Session
run s [] = s
run s (e ∷ es) = run (step s e) es

unfoldable pub begin : ℕ → Bool → Option ℕ → Bool → Session
begin port blocking opened bound =
    let (sock, calls) = server_tcp_endpoint port blocking opened bound in
    record { sock = sock; tasks = []; calls = calls }

-- How many of the tasks are for a connection.
unfoldable pub waiting : List (ClientInfo × ℕ) → ℕ → ℕ
waiting [] h = 0
waiting (t ∷ ts) h = one_if (some t.1) h + waiting ts h

waiting-append :
    (ts us : List (ClientInfo × ℕ)) (h : ℕ) → waiting (ts ++ us) h ≡ waiting ts h + waiting us h
unfolding waiting
waiting-append [] us h = omega arith
waiting-append (t ∷ ts) us h = omega (arith, waiting-append ts us h)

abbrev picked_one : Option (ClientInfo × ℕ) → ℕ → ℕ
picked_one none h = 0
picked_one (some t) h = one_if (some t.1) h

waiting-pick :
    (i : ℕ) (ts : List (ClientInfo × ℕ)) (h : ℕ)
    → waiting ts h ≡ picked_one (pick i ts).0 h + waiting (pick i ts).1 h
unfolding waiting pick
waiting-pick i [] h = omega arith
waiting-pick zero (t ∷ ts) h = omega arith
waiting-pick (suc i) (t ∷ ts) h = omega (arith, waiting-pick i ts h)

-- Every descriptor has been handed out as often as it has been closed or is still held.
abbrev IsBalanced : Session → Type 0
IsBalanced s =
    (h : ℕ)
    → handed_out s.calls h ≡ closed s.calls h + (one_if s.sock.socket_id h + waiting s.tasks h)

accept-IsBalanced :
    (s : Session) (accepted : Option (ℕ × SocketInfo))
    → IsBalanced s
    → IsBalanced (accept s accepted)
unfolding accept accept_connection handed_out closed waiting
accept-IsBalanced s none b h =
    let asked = accepts s.sock.socket_id none ∷ [] in
    omega (
      arith,
      b h,
      handed_out-append s.calls asked h,
      closed-append s.calls asked h,
      waiting-append s.tasks [] h,
    )
accept-IsBalanced s (some (fd, info)) b h =
    let asked = accepts s.sock.socket_id (some fd) ∷ [] in
    omega (
      arith,
      b h,
      handed_out-append s.calls asked h,
      closed-append s.calls asked h,
      waiting-append s.tasks ((record { user_id = 0; socket_info = set_port info }, fd) ∷ []) h,
    )

close_connection_lem :
    (fd : ℕ) (answer : Option ℕ) (h : ℕ)
    → (handed_out (close_connection fd answer) h ≡ 0)
      × (closed (close_connection fd answer) h ≡ one_if (some fd) h)
unfolding close_connection handed_out closed
close_connection_lem fd none h = (refl, omega arith)
close_connection_lem fd (some id) h = (refl, omega arith)

run_task-IsBalanced :
    (s : Session) (answer : Option ℕ) (picked : Option (ClientInfo × ℕ))
    (rest : List (ClientInfo × ℕ))
    → ((h : ℕ) → waiting s.tasks h ≡ picked_one picked h + waiting rest h)
    → IsBalanced s
    → IsBalanced (run_task s answer (picked, rest))
unfolding run_task
run_task-IsBalanced s answer none rest p b h = b h
run_task-IsBalanced s answer (some (client, fd)) rest p b h =
    let asked = close_connection fd answer in
    let (opened, gone) = close_connection_lem fd answer h in
    omega (
      arith,
      b h,
      p h,
      opened,
      gone,
      handed_out-append s.calls asked h,
      closed-append s.calls asked h,
    )

step-IsBalanced : (s : Session) (e : Event) → IsBalanced s → IsBalanced (step s e)
unfolding step try_accept_connection
step-IsBalanced s (polls polled accepted) b = elim (Bool-cases (poll_socket polled).0) [
  | inl ready ↦ rw ready (accept-IsBalanced s accepted b)
  | inr idle ↦ rw idle b
]
step-IsBalanced s (serves i answer) b =
    run_task-IsBalanced s answer (pick i s.tasks).0 (pick i s.tasks).1
      (λ h. waiting-pick i s.tasks h) b

run-IsBalanced : (s : Session) (es : List Event) → IsBalanced s → IsBalanced (run s es)
unfolding run
run-IsBalanced s [] b = b
run-IsBalanced s (e ∷ es) b = run-IsBalanced (step s e) es (step-IsBalanced s e b)

begin-IsBalanced :
    (port : ℕ) (blocking : Bool) (opened : Option ℕ) (bound : Bool)
    → IsBalanced (begin port blocking opened bound)
unfolding begin server_tcp_endpoint construct bind_any handed_out closed waiting
begin-IsBalanced port blocking opened bound h = omega arith

-- However connections come and tasks are run, whether users are refused or accepted: when the endpoint
-- has been destroyed, each descriptor that `socket` or `accept4` has handed out to it has been closed
-- as often as it was handed out, but for the connections whose task has not been run.
pub descriptors_balanced :
    (port : ℕ) (blocking : Bool) (opened : Option ℕ) (bound closing : Bool) (es : List Event)
    (h : ℕ)
    → let s = run (begin port blocking opened bound) es in
      let calls = s.calls ++ (destroy s.sock closing).1 in
      handed_out calls h ≡ closed calls h + waiting s.tasks h
unfolding destroy handed_out closed
descriptors_balanced port blocking opened bound closing es h =
    let s = run (begin port blocking opened bound) es in
    let b =
      run-IsBalanced (begin port blocking opened bound) es
        (begin-IsBalanced port blocking opened bound) h in
    let last = closes s.sock.socket_id ∷ [] in
    omega (arith, b, handed_out-append s.calls last h, closed-append s.calls last h)
