-- ===== src/UdpEndpoint/Threads/Tests.antt =====
-- An endpoint that is destroyed with two messages in its queue.
use simple_messenger.Prelude.{true, ℕ, suc, ◌≤◌, refl, [], ◌∷◌, arith}
use simple_messenger.CircularBuffer
use simple_messenger.CircularBuffer.{CircularBuffer}
use simple_messenger.Memory.{c_string}
use simple_messenger.Message.{get_message_type, set_time_stamp, create_time_stamp}
use simple_messenger.Message.Convert.{put_fields, put_message_type, put_data_type}
use simple_messenger.UdpEndpoint.PlainWire.{wire}
use simple_messenger.UdpEndpoint.Defs.{AddressedEnvelope, send_envelope}
use simple_messenger.UdpEndpoint.Samples.{greeting, here, endpoint}
use simple_messenger.UdpEndpoint.Threads.{
  Threads, Listener, resting, holds, alive, begin_destructor, start, next, picks,
}
use simple_messenger.UdpEndpoint.Threads.Invariant.{Fits, InUse}
use simple_messenger.UdpEndpoint.Threads.Ends.{Ends, endpoint_destructor_returns}
use simple_messenger.UdpEndpoint.Threads.Dropped.{unsent, destructor_drops}

abbrev message : ℕ → AddressedEnvelope
message t = record { sock_info = here; env = set_time_stamp greeting t }

-- The sender has passed its test of `isRunning`.
abbrev leaving : Threads
leaving = record {
  endpoint = send_envelope (send_envelope endpoint 5 greeting here) 6 greeting here;
  is_running = true;
  sender = resting;
  listener = Listener.testing;
  owner = alive;
  sent = [];
}

abbrev later : Threads
later = record (begin_destructor leaving) {
  endpoint = record (leaving.endpoint) {
    out_queue = (CircularBuffer.pop leaving.endpoint.out_queue).1;
  };
  sender = holds (message 5) 5;
}

message-Fits : (t : ℕ) → Fits wire 12 (message t).env
unfolding put_fields put_message_type put_data_type set_time_stamp c_string get_message_type
message-Fits t = record { text = 104 ∷ 105 ∷ []; ends = refl; short = λ p. omega arith }

leaving-InUse : InUse wire 12 leaving
unfolding send_envelope CircularBuffer.push CircularBuffer.is_full create_time_stamp
leaving-InUse = record {
  order = record {
    sound = record { in_valid = omega arith; out_valid = omega arith; ack_valid = omega arith };
    counters = tt;
  };
  fits = (message-Fits 5, (message-Fits 6, tt));
  busy = tt;
  room = refl;
  used = refl;
}

endpoint_destructor_returns_example : Ends wire 22 (begin_destructor leaving)
endpoint_destructor_returns_example = endpoint_destructor_returns wire 12 leaving leaving-InUse

destructor_drops_example : 2 ≤ suc (unsent later)
unfolding send_envelope CircularBuffer.push CircularBuffer.pop CircularBuffer.is_full
    CircularBuffer.is_empty create_time_stamp begin_destructor
destructor_drops_example =
    destructor_drops wire 12 leaving later leaving-InUse (next start (picks (message 5) refl refl))
