-- ===== src/Server/SessionTests.antt =====
-- The start of the server, and the descriptors of its TCP endpoint, at concrete values.
use simple_messenger.Prelude.{
  arith, ◌<◌, zero, suc, ◌++◌, none, some, ◌+◌, false, true, inl, ℕ, ◌≡◌, refl, List, [], ◌∷◌,
  bytes_eq,
}
use simple_messenger.CircularBuffer
use simple_messenger.CircularBuffer.Refine.{contents}
use simple_messenger.Singleton
use simple_messenger.Singleton.{null, init, object, delete_at, get_instance}
use simple_messenger.ThreadManager.Defs.{
  thread_pool_size, construct as construct_pool, worker_turn, schedule_attempt, take_task, stop,
}
use simple_messenger.ThreadManager.System.{
  Worker, exited, System, Reach, initially, next, turn, call, attempt, notify, finish, announce,
  join, after_turn, after_attempt,
}
use simple_messenger.Server.Lifetime.{
  Services, Destructor, construct_services, queued_logins_dangle,
}
use simple_messenger.ThreadManager.System
use simple_messenger.ThreadManager.Joined.{Steps, stays, then_step}
use simple_messenger.Server.Defs.{accept_connection}
use simple_messenger.Message.{SocketInfo}
use simple_messenger.Psql.Defs.{PsqlManager}
use simple_messenger.Psql.Store.{
  Users, store_libpq, store_answers, store_table, stores_first, stores_second,
}
use simple_messenger.Psql.Register.{IsStored}
use simple_messenger.Psql.Lookup.{IsPlain}
use simple_messenger.Server.SetUp.{
  set_up, user1_email, user1_password, user2_email, user2_password, predefined_users,
}
use simple_messenger.Psql.Table.{find_row}
use simple_messenger.Endpoint.{flags, poll_socket}
use simple_messenger.Sockets.{server_tcp_endpoint, construct, bind_any, destroy}
use simple_messenger.Sockets.Calls.{handed_out, closed}
use simple_messenger.Server.Descriptors
use simple_messenger.Server.Descriptors.{
  Event, polls, serves, begin, waiting, pick, run_task, accept, try_accept_connection,
  close_connection, descriptors_balanced,
}

abbrev home : SocketInfo
home = record { addr = 1 ∷ []; addrlen = 1 }

abbrev away : SocketInfo
away = record {
  addr = 2 ∷ 0 ∷ 200 ∷ 1 ∷ 10 ∷ 0 ∷ 0 ∷ 2 ∷ 0 ∷ 0 ∷ 0 ∷ 0 ∷ 0 ∷ 0 ∷ 0 ∷ 0 ∷ [];
  addrlen = 16;
}

abbrev no_users : Users
no_users = record { rows = []; emails = [] }

abbrev fresh_manager : PsqlManager store_libpq
fresh_manager = record { pg_connection = no_users; is_connected = false }

predefined_users_example :
    let m = set_up store_libpq fresh_manager in
    (id1 id2 : ℕ) × IsStored store_libpq store_answers store_table m.pg_connection user1_email
      user1_password id1
    × IsStored store_libpq store_answers store_table m.pg_connection user2_email user2_password id2
    × ((e p : List ℕ)
        → IsPlain e
        → IsPlain p
        → bytes_eq e user1_email ≡ false
        → bytes_eq e user2_email ≡ false
        → store_answers.registered m.pg_connection e p ≡ none)
    × (m.is_connected ≡ true)
    × store_answers.Works m.pg_connection
unfolding find_row
predefined_users_example =
    predefined_users store_libpq store_answers store_table stores_first stores_second fresh_manager
      refl tt (inl refl) (inl refl)

-- Two connections are accepted; one user is refused, the other waits when the endpoint is destroyed.
abbrev visits : List Event
visits =
    polls (flags false false true false) (some (7, home))
    ∷ polls (flags false false false false) none
    ∷ polls (flags false false true false) (some (8, away))
    ∷ serves 0 none
    ∷ []

descriptors_balanced_example :
    let s = Descriptors.run (begin 51111 false (some 3) true) visits in
    let calls = s.calls ++ (destroy s.sock true).1 in
    handed_out calls 8 ≡ closed calls 8 + waiting s.tasks 8
descriptors_balanced_example = descriptors_balanced 51111 false (some 3) true true visits 8

-- The connection 8 is never closed.
left_open :
    let s = Descriptors.run (begin 51111 false (some 3) true) visits in
    closed (s.calls ++ (destroy s.sock true).1) 8 ≡ 0
unfolding Descriptors.run Descriptors.step begin server_tcp_endpoint construct bind_any destroy
    closed try_accept_connection accept accept_connection run_task pick close_connection poll_socket
left_open = refl

abbrev task_storage : List ℕ
task_storage = 0 ∷ 0 ∷ 0 ∷ 0 ∷ []

-- A state of the pool with the steps that lead to it.
record Waiting : Type 0 where
  pool : System ℕ
  reach : Reach (construct_pool task_storage) pool

-- Worker 0 blocks, and the task 7 is scheduled.
task_waits : Waiting
unfolding construct_pool worker_turn after_turn after_attempt schedule_attempt CircularBuffer.make
    CircularBuffer.is_empty CircularBuffer.is_full CircularBuffer.push
task_waits = record {
  pool = _;
  reach =
      next (next (next initially (turn 0 (omega arith) refl)) (call 0 7 refl)) (attempt 0 7 refl);
}

below_four :
    (f : ℕ → Worker ℕ)
    → f 0 ≡ exited
    → f 1 ≡ exited
    → f 2 ≡ exited
    → f 3 ≡ exited
    → (i : ℕ) → i < thread_pool_size
    → f i ≡ exited
below_four f e0 e1 e2 e3 zero lt = e0
below_four f e0 e1 e2 e3 (suc zero) lt = e1
below_four f e0 e1 e2 e3 (suc (suc zero)) lt = e2
below_four f e0 e1 e2 e3 (suc (suc (suc zero))) lt = e3
below_four f e0 e1 e2 e3 (suc (suc (suc (suc i)))) lt = absurd (omega arith)

record Joined : Type 0 where
  pool : System ℕ
  steps : Steps task_waits.pool pool

-- Worker 1 takes it, the manager is stopped, and all workers return and are joined.
all_joined : Joined
unfolding task_waits construct_pool worker_turn after_turn after_attempt schedule_attempt take_task
    stop CircularBuffer.make CircularBuffer.is_empty CircularBuffer.is_full CircularBuffer.push
    CircularBuffer.pop
all_joined = record {
  pool = _;
  steps =
      then_step
        (then_step
          (then_step
            (then_step
              (then_step
                (then_step
                  (then_step
                    (then_step
                      (then_step (then_step stays (notify 0 refl)) (turn 1 (omega arith) refl))
                      (System.destroy refl))
                    (turn 0 (omega arith) refl))
                  (turn 2 (omega arith) refl))
                (turn 3 (omega arith) refl))
              (finish 1 7 (omega arith) refl))
            (turn 1 (omega arith) refl))
          (announce refl))
        (join refl (below_four _ refl refl refl refl));
}

abbrev before_shutdown : Services ℕ
before_shutdown = record { auth = (construct_services task_storage).auth; pool = task_waits.pool }

abbrev after_shutdown : Services ℕ
after_shutdown = record {
  auth = record { instance_ptr = some 0; heap = none ∷ [] };
  pool = all_joined.pool;
}

shutdown_run : Destructor before_shutdown after_shutdown
unfolding task_waits all_joined construct_services construct_pool worker_turn after_turn
    after_attempt schedule_attempt take_task stop CircularBuffer.make CircularBuffer.is_empty
    CircularBuffer.is_full CircularBuffer.push CircularBuffer.pop null init object delete_at
    Singleton.destroy
shutdown_run = record {
  called = refl;
  deleted = record before_shutdown { auth = after_shutdown.auth };
  auth_destroyed = refl;
  pool_untouched = refl;
  pool_destroyed = all_joined.steps;
  auth_untouched = refl;
  returned = refl;
}

-- The login 7 is run on a service that is gone.
queued_logins_dangle_example :
    (get_instance before_shutdown.auth ≡ some tt)
    × (get_instance after_shutdown.auth ≡ none)
    × (all_joined.pool.started
        ≡ task_waits.pool.started ++ contents task_waits.pool.shared.task_queue)
    × (get_instance after_shutdown.auth ≡ none)
unfolding shutdown_run task_waits all_joined construct_pool worker_turn after_turn after_attempt
    schedule_attempt take_task stop CircularBuffer.make CircularBuffer.is_empty
    CircularBuffer.is_full CircularBuffer.push CircularBuffer.pop
queued_logins_dangle_example =
    queued_logins_dangle task_storage before_shutdown after_shutdown refl refl task_waits.reach
      shutdown_run refl refl
