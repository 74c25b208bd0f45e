-- ===== src/Network/Sender.antt =====
-- crates/mosh-network/src/sender.rs: the state of `TransportSender`, its queue and its timers.
-- A deque is a list, oldest first. Times and numbers are u64 and their sums wrap.
pub mod Send
pub mod Queue
pub mod Timers
pub mod Ticks
use rmosh.Prelude.{
  ℕ, zero, suc, ◌+◌, ◌-◌, ◌^◌, Bool, true, false, ◌&&◌, ◌||◌, not, Option, none, some, List, [],
  ◌∷◌, ◌++◌, length, get_elem?, ltb, leb, ◌==◌, if◌then◌else◌, unwrap_or, wrapping_add, min, max,
}
use rmosh.Network.Sync.{SyncState, TimestampedState}
use rmosh.Network.Connection.State.{Floats}
use rmosh.Network.Fragmenter.{Fragmenter, new_fragmenter, last_ack_sent}

abbrev pub send_interval_min : ℕ
send_interval_min = 20

abbrev pub send_interval_max : ℕ
send_interval_max = 250

abbrev pub ack_interval : ℕ
ack_interval = 3000

abbrev pub ack_delay : ℕ
ack_delay = 100

abbrev pub shutdown_retries : ℕ
shutdown_retries = 16

abbrev pub active_retry_timeout : ℕ
active_retry_timeout = 10000

-- u64::MAX, which is also SHUTDOWN_NUM.
abbrev pub u64_max : ℕ
u64_max = 2 ^ 64 - 1

abbrev pub shutdown_num : ℕ
shutdown_num = u64_max

abbrev pub max_sent_states : ℕ
max_sent_states = 32

-- `+` on u64.
abbrev pub plus : ℕ → ℕ → ℕ
plus a b = wrapping_add 64 a b

-- `verbose` turns on messages and a self-check that reports; neither changes the state.
pub record TransportSender (S : Type 0) : Type 0 where
  pub current_state : S
  pub sent_states : List (TimestampedState S)
  pub assumed_receiver_state : ℕ
  pub fragmenter : Fragmenter
  pub next_ack_time : ℕ
  pub next_send_time : ℕ
  pub shutdown_in_progress : Bool
  pub shutdown_tries : ℕ
  pub shutdown_start : ℕ
  pub ack_num : ℕ
  pub pending_data_ack : Bool
  pub send_mindelay : ℕ
  pub last_heard : ℕ
  pub mindelay_clock : Option ℕ

module _ {S : Type 0} where
  -- TransportSender::new
  unfoldable pub new_sender : S → ℕ → TransportSender S
  new_sender initial_state now = record {
    current_state = initial_state;
    sent_states = record { timestamp = now; num = 0; state = initial_state } ∷ [];
    assumed_receiver_state = 0;
    fragmenter = new_fragmenter;
    next_ack_time = now;
    next_send_time = now;
    shutdown_in_progress = false;
    shutdown_tries = 0;
    shutdown_start = 0;
    ack_num = 0;
    pending_data_ack = false;
    send_mindelay = 8;
    last_heard = 0;
    mindelay_clock = none;
  }

  -- `sent_states[i]`. Out of range the code panics; the invariant shows that it never is.
  abbrev pub sent_at : TransportSender S → ℕ → TimestampedState S
  sent_at s i =
      unwrap_or (get_elem? s.sent_states i)
        (record { timestamp = 0; num = 0; state = s.current_state })

  abbrev pub front : TransportSender S → TimestampedState S
  front s = sent_at s 0

  abbrev pub back : TransportSender S → TimestampedState S
  back s = sent_at s (length s.sent_states - 1)

  abbrev pub assumed : TransportSender S → TimestampedState S
  assumed s = sent_at s s.assumed_receiver_state

  unfoldable pub start_shutdown : TransportSender S → ℕ → TransportSender S
  start_shutdown s now =
      if s.shutdown_in_progress
      then s
      else record s { shutdown_start = now; shutdown_in_progress = true }

  unfoldable pub shutdown_acknowledged : TransportSender S → Bool
  shutdown_acknowledged s = (front s).num == shutdown_num

  unfoldable pub counterparty_shutdown_acknowledged : TransportSender S → Bool
  counterparty_shutdown_acknowledged s = last_ack_sent s.fragmenter == shutdown_num

  unfoldable pub shutdown_ack_timed_out : TransportSender S → ℕ → Bool
  shutdown_ack_timed_out s now =
      s.shutdown_in_progress
      && (leb shutdown_retries s.shutdown_tries
          || leb active_retry_timeout (now - s.shutdown_start))

  -- `self.sent_states.remove(i)`
  abbrev pub remove_at : ℕ → List (TimestampedState S) → List (TimestampedState S)
  remove_at i [] = []
  remove_at zero (x ∷ xs) = xs
  remove_at (suc i) (x ∷ xs) = x ∷ remove_at i xs

  -- With too many states, one is taken out 16 from the end.
  abbrev pub thin : TransportSender S → TransportSender S
  thin s =
      let victim = length s.sent_states - 16 in
      if ltb max_sent_states (length s.sent_states)
      then record s {
        sent_states = remove_at victim s.sent_states;
        assumed_receiver_state =
            if leb victim s.assumed_receiver_state && ltb 0 s.assumed_receiver_state
            then s.assumed_receiver_state - 1
            else s.assumed_receiver_state;
      }
      else s

  unfoldable pub add_sent_state : TransportSender S → ℕ → ℕ → S → TransportSender S
  add_sent_state s timestamp num state = thin (record s {
    sent_states = s.sent_states ++ record { timestamp = timestamp; num = num; state = state } ∷ [];
  })

  abbrev pub has_num : ℕ → List (TimestampedState S) → Bool
  has_num n [] = false
  has_num n (x ∷ xs) = x.num == n || has_num n xs

  -- `retain(|s| s.num >= n)`
  abbrev pub retain_from : ℕ → List (TimestampedState S) → List (TimestampedState S)
  retain_from n [] = []
  retain_from n (x ∷ xs) = if leb n x.num then x ∷ retain_from n xs else retain_from n xs

  abbrev clamp_assumed : TransportSender S → TransportSender S
  clamp_assumed s =
      if leb (length s.sent_states) s.assumed_receiver_state
      then record s { assumed_receiver_state = length s.sent_states - 1 }
      else s

  unfoldable pub process_acknowledgment_through : TransportSender S → ℕ → TransportSender S
  process_acknowledgment_through s ack_num = clamp_assumed (
      if has_num ack_num s.sent_states
      then record s { sent_states = retain_from ack_num s.sent_states }
      else s)

  -- How many states in a row were sent recently enough.
  abbrev pub recent : ℕ → ℕ → List (TimestampedState S) → ℕ
  recent now timeout [] = 0
  recent now timeout (x ∷ xs) =
      if ltb (now - x.timestamp) (plus timeout ack_delay) then suc (recent now timeout xs) else 0

  abbrev rest_of : List (TimestampedState S) → List (TimestampedState S)
  rest_of [] = []
  rest_of (x ∷ xs) = xs

  unfoldable pub update_assumed_receiver_state : TransportSender S → ℕ → ℕ → TransportSender S
  update_assumed_receiver_state s now timeout = record s {
    assumed_receiver_state = recent now timeout (rest_of s.sent_states);
  }

  module _ (sync : SyncState S) where
    unfoldable pub set_current_state : TransportSender S → S → TransportSender S
    set_current_state s x = record s { current_state = sync.reset_input x }

    abbrev subtract_all : S → List (TimestampedState S) → List (TimestampedState S)
    subtract_all known [] = []
    subtract_all known (x ∷ xs) =
        record x { state = sync.subtract x.state known } ∷ subtract_all known xs

    unfoldable pub rationalize_states : TransportSender S → TransportSender S
    rationalize_states s =
        let known = (front s).state in
        record s {
          current_state = sync.subtract s.current_state known;
          sent_states = subtract_all known s.sent_states;
        }

    module _ {F : Type 0} (fl : Floats F) where
      unfoldable pub send_interval : F → ℕ
      send_interval srtt =
          min (max (fl.ceil_u64 (fl.div srtt (fl.of_u64 2))) send_interval_min) send_interval_max

      abbrev hurry_ack : TransportSender S → ℕ → TransportSender S
      hurry_ack s now =
          if s.pending_data_ack && ltb (plus now ack_delay) s.next_ack_time
          then record s { next_ack_time = plus now ack_delay }
          else s

      abbrev schedule_send : TransportSender S → ℕ → F → ℕ → TransportSender S
      schedule_send s now srtt timeout =
          let clock = unwrap_or s.mindelay_clock now in
          let next = plus (back s).timestamp (send_interval srtt) in
          let delayed : ℕ = elim s.mindelay_clock [
            | none ↦ next
            | some c ↦ max next (plus c s.send_mindelay)
          ] in
          let active = ltb now (plus s.last_heard active_retry_timeout) in
          if not (sync.eq s.current_state (back s).state)
          then record s {
            mindelay_clock = some clock;
            next_send_time = max (plus clock s.send_mindelay) next;
          }
          else if not (sync.eq s.current_state (assumed s).state) && active
          then record s { next_send_time = delayed }
          else if not (sync.eq s.current_state (front s).state) && active
          then record s { next_send_time = plus (plus (back s).timestamp timeout) ack_delay }
          else record s { next_send_time = u64_max }

      abbrev hurry_shutdown : TransportSender S → F → TransportSender S
      hurry_shutdown s srtt =
          if s.shutdown_in_progress || s.ack_num == shutdown_num
          then record s { next_ack_time = plus (back s).timestamp (send_interval srtt) }
          else s

      unfoldable pub calculate_timers : TransportSender S → ℕ → F → ℕ → TransportSender S
      calculate_timers s now srtt timeout =
          let ready = rationalize_states (update_assumed_receiver_state s now timeout) in
          hurry_shutdown (schedule_send (hurry_ack ready now) now srtt timeout) srtt
