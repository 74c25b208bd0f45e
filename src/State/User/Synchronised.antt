-- ===== src/State/User/Synchronised.antt =====
-- The user's stream between the two ends: the sender's diff, and what `Transport` makes of it.
use rmosh.Prelude.{ℕ, ◌≤◌, ◌≡◌, refl, suc, ◌+◌, arith, ap, ◌∙◌, false, some, List, ◌++◌, ok, length}
use rmosh.Network.Sync.{TimestampedState}
use rmosh.Network.Sender.{has_num, TransportSender, assumed}
use rmosh.Network.Sender.Send.{instruction}
use rmosh.Network.Transport.{Transport, max_received_states, find_num, apply_instruction}
use rmosh.Network.Transport.Advance.{apply_instruction_advances, advanced, throwaway_of}
use rmosh.State.User.{UserStream, UserCodec, IsUserCodec, diff_from, user_sync}
use rmosh.State.User.Diff.{advanced-diff_from}

module _ {F My : Type 0} (codec : UserCodec) where
  -- The instruction that a client makes of its current state, `new` more events than the state that
  -- it assumes the server has, brings a server that holds a state under that number to one that has
  -- just those events more, held under the number of the instruction; the server counts it as a
  -- success, and a repeat of the instruction changes its states no more. The server's queue is not
  -- full, and does not hold the number yet.
  pub apply_instruction-instruction :
      (client : TransportSender UserStream) (server : Transport F My UserStream)
      (held : TimestampedState UserStream) (new : UserStream) (chaff : List ℕ)
      (new_num now later : ℕ)
      → IsUserCodec codec
      → client.current_state ≡ (assumed client).state ++ new
      → has_num new_num server.received_states ≡ false
      → find_num (assumed client).num server.received_states ≡ some held
      → length server.received_states ≤ max_received_states
      → let diff = diff_from codec client.current_state (assumed client).state in
        let inst = instruction client diff new_num chaff in
        let done = apply_instruction (user_sync codec) server inst now in
        (done.1 ≡ ok tt)
        × (find_num new_num done.0.received_states
            ≡ some (record { timestamp = now; num = new_num; state = held.state ++ new }))
        × ((apply_instruction (user_sync codec) done.0 inst later).0.received_states
            ≡ done.0.received_states)
  apply_instruction-instruction client server held new chaff new_num now later lossless grown fresh
        ref few =
      let diff = diff_from codec client.current_state (assumed client).state in
      let inst = instruction client diff new_num chaff in
      let grows : advanced (user_sync codec) held.state diff ≡ some (held.state ++ new) =
        ap (λ c. advanced (user_sync codec) held.state (diff_from codec c (assumed client).state))
          grown
        ∙ advanced-diff_from codec lossless held.state (assumed client).state new in
      let done =
        apply_instruction_advances (user_sync codec) server inst now later
          (throwaway_of inst + suc new_num) held (held.state ++ new) refl fresh ref few grows
          (omega arith) (omega arith) in
      (done.0, done.1, done.3)
