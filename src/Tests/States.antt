-- ===== src/Tests/States.antt =====
-- A client that has typed, its sender, and a server's transport.
use rmosh.Prelude.{ℕ, ◌<◌, ◌≡◌, refl, false, none, some, List, [], ◌∷◌, arith, ok}
use rmosh.Network.Compressor.{Instruction}
use rmosh.Network.Assembly.{new_assembly}
use rmosh.Network.Sync.{TimestampedState}
use rmosh.Network.Sender.{
  TransportSender, has_num, process_acknowledgment_through, calculate_timers,
  update_assumed_receiver_state, rationalize_states,
}
use rmosh.Network.Sender.Queue.{add_sent_state-IsValid, process_acknowledgment_through_lem}
use rmosh.Network.Sender.Send.{instruction, tick, wait_time}
use rmosh.Network.Sender.Ticks.{tick-IsValid}
use rmosh.Network.Transport.{Transport, find_num, apply_instruction}
use rmosh.Network.Transport.Apply.{apply_instruction-IsValid}
use rmosh.Network.Transport.Advance.{apply_instruction_advances}
use rmosh.State.User.{
  UserEvent, byte, resize, UserStream, subtract, diff_from, apply_string, user_sync,
}
use rmosh.State.User.Diff.{diff_from-subtract}
use rmosh.State.User.Synchronised.{apply_instruction-instruction}
use rmosh.Network.Sender.Queue
use rmosh.Network.Transport.Apply
use rmosh.Tests.Libraries.{libraries, floats, link}
use rmosh.Tests.UserCodec.{user_codec, user_codec-IsUserCodec}
use rmosh.Tests.Endpoints.{server_end}

abbrev at_start : TimestampedState UserStream
at_start = record { timestamp = 0; num = 0; state = [] }

abbrev typed_a : TimestampedState UserStream
typed_a = record { timestamp = 10; num = 1; state = byte 97 ∷ [] }

abbrev client : TransportSender UserStream
client = record {
  current_state = byte 97 ∷ resize 80 24 ∷ [];
  sent_states = at_start ∷ typed_a ∷ [];
  assumed_receiver_state = 1;
  fragmenter = record { next_instruction_id = 0; last_instruction = none; last_mtu = none };
  next_ack_time = 5000;
  next_send_time = 5000;
  shutdown_in_progress = false;
  shutdown_tries = 0;
  shutdown_start = 0;
  ack_num = 0;
  pending_data_ack = false;
  send_mindelay = 8;
  last_heard = 0;
  mindelay_clock = none;
}

client-IsValid : Queue.IsValid client
client-IsValid = record { nonempty = omega arith; within = omega arith; few = omega arith }

process_acknowledgment_through_example :
    let t = process_acknowledgment_through client 1 in
    Queue.IsValid t × (has_num 0 t.sent_states ≡ false)
process_acknowledgment_through_example =
    process_acknowledgment_through_lem client 1 0 client-IsValid

tick_example : Queue.IsValid (tick (user_sync user_codec) floats link libraries client [] [] 5000).0
tick_example =
    tick-IsValid (user_sync user_codec) floats link libraries client [] [] 5000 client-IsValid

abbrev idle : TransportSender UserStream
idle = record client { current_state = []; sent_states = at_start ∷ []; assumed_receiver_state = 0 }

idle_wait : (wait_time (user_sync user_codec) floats link libraries idle [] 100).1 ≡ 4900
unfolding wait_time calculate_timers update_assumed_receiver_state rationalize_states subtract
idle_wait = refl

idle_waits : 0 < (wait_time (user_sync user_codec) floats link libraries idle [] 100).1
idle_waits = omega (arith, idle_wait)

-- The server has the first state, and has handed out its first byte already.
abbrev held : TimestampedState UserStream
held = record { timestamp = 30; num = 1; state = [] }

abbrev pub server : Transport ℕ UserStream UserStream
server = record {
  connection = server_end;
  sender = idle;
  received_states = held ∷ [];
  receiver_quench_timer = 0;
  last_receiver_state = [];
  fragments = new_assembly;
}

server-IsValid : Apply.IsValid (user_sync user_codec) server
server-IsValid = record { nonempty = omega arith; rising = (omega arith, tt) }

abbrev resized : List UserEvent
resized = resize 80 24 ∷ []

abbrev sent : Instruction
sent = instruction client (diff_from user_codec client.current_state (byte 97 ∷ [])) 2 []

synchronised_example :
    let done = apply_instruction (user_sync user_codec) server sent 40 in
    (done.1 ≡ ok tt)
    × (find_num 2 done.0.received_states
        ≡ some (record { timestamp = 40; num = 2; state = resized }))
    × ((apply_instruction (user_sync user_codec) done.0 sent 50).0.received_states
        ≡ done.0.received_states)
synchronised_example =
    apply_instruction-instruction user_codec client server held resized [] 2 40 50
      user_codec-IsUserCodec refl refl refl (omega arith)

advances_example :
    let done = apply_instruction (user_sync user_codec) server sent 40 in
    (done.1 ≡ ok tt)
    × (find_num 2 done.0.received_states
        ≡ some (record { timestamp = 40; num = 2; state = resized }))
    × (find_num 1 done.0.received_states ≡ some held)
    × ((apply_instruction (user_sync user_codec) done.0 sent 50).0.received_states
        ≡ done.0.received_states)
advances_example =
    apply_instruction_advances (user_sync user_codec) server sent 40 50 1 held resized refl refl
      refl (omega arith) (unfold diff_from apply_string in refl) (omega arith)
      (λ h. absurd (omega arith))

apply_instruction-IsValid_example :
    Apply.IsValid (user_sync user_codec) (apply_instruction (user_sync user_codec) server sent 40).0
apply_instruction-IsValid_example =
    apply_instruction-IsValid (user_sync user_codec) server sent 40 server-IsValid

diff_from-subtract_example :
    diff_from user_codec
      (subtract (byte 97 ∷ byte 98 ∷ resized) (byte 97 ∷ []))
      (subtract (byte 97 ∷ byte 98 ∷ []) (byte 97 ∷ []))
    ≡ diff_from user_codec (byte 97 ∷ byte 98 ∷ resized) (byte 97 ∷ byte 98 ∷ [])
diff_from-subtract_example = diff_from-subtract user_codec (byte 97 ∷ []) (byte 98 ∷ []) resized
