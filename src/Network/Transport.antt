-- ===== src/Network/Transport.antt =====
-- crates/mosh-network/src/transport.rs: the received states, and what an instruction does to them.
-- A queue of states is a list, oldest first; the sums on times wrap at 64 bits.
pub mod Order
pub mod Apply
pub mod Advance
pub mod Datagram
use rmosh.Prelude.{
  ℕ, zero, suc, ◌+◌, ◌-◌, Bool, true, false, not, Option, none, some, List, [], ◌∷◌, ◌++◌, Result,
  ok, err, length, take, drop, get_elem?, ltb, leb, ◌==◌, if◌then◌else◌, unwrap_or, wrapping_add,
}
use rmosh.Crypto.Session.{Cipher}
use rmosh.Network.Compressor.{Instruction, Libraries}
use rmosh.Network.Packet.{mosh_protocol_version}
use rmosh.Network.Fragment.{Fragment, FragmentError, from_bytes}
use rmosh.Network.Assembly.{FragmentAssembly, new_assembly, add_fragment, get_assembly}
use rmosh.Network.Connection.{Connection, System, send, recv}
use rmosh.Network.Connection.State.{Floats, RecvError, Received, into_payload, timeout}
use rmosh.Network.Sync.{SyncState, Link, TimestampedState}
use rmosh.Network.Sender.{
  TransportSender, new_sender, front, process_acknowledgment_through, has_num,
}
use rmosh.Network.Sender.Send.{tick}

-- MAX_RECEIVED_STATES and QUENCH_INTERVAL.
abbrev pub max_received_states : ℕ
max_received_states = 1024

abbrev pub quench_interval : ℕ
quench_interval = 15000

pub data TransportError : Type 0 where
  protocol_version_mismatch : TransportError
  recv_error : RecvError → TransportError
  malformed_instruction : TransportError

pub record Transport (F My R : Type 0) : Type 0 where
  pub connection : Connection F
  pub sender : TransportSender My
  pub received_states : List (TimestampedState R)
  pub receiver_quench_timer : ℕ
  pub last_receiver_state : R
  pub fragments : FragmentAssembly

module _ {R : Type 0} where
  -- `iter().position(p)`
  abbrev pub position : (ℕ → Bool) → List (TimestampedState R) → Option ℕ
  position p [] = none
  position p (x ∷ xs) =
      if p x.num then some 0 else elim (position p xs) [ none ↦ none | some i ↦ some (suc i) ]

  -- `iter().find(|s| s.num == n)`
  abbrev pub find_num : ℕ → List (TimestampedState R) → Option (TimestampedState R)
  find_num n [] = none
  find_num n (x ∷ xs) = if x.num == n then some x else find_num n xs

  -- The queue after `process_throwaway_until`.
  unfoldable pub throw_away : ℕ → List (TimestampedState R) → List (TimestampedState R)
  throw_away n xs = drop (unwrap_or (position (λ k. leb n k) xs) (length xs - 1)) xs

  -- The queue after `insert`, at the place of the state's number.
  unfoldable pub insert_state :
      TimestampedState R → List (TimestampedState R) → List (TimestampedState R)
  insert_state x xs =
      let pos = unwrap_or (position (λ k. ltb x.num k) xs) (length xs) in
      take pos xs ++ x ∷ drop pos xs

  -- `for s in self.received_states.iter_mut() { s.state.subtract(&oldest) }`
  abbrev pub subtract_each : SyncState R → R → List (TimestampedState R) → List (TimestampedState R)
  subtract_each remote known [] = []
  subtract_each remote known (x ∷ xs) =
      record x { state = remote.subtract x.state known } ∷ subtract_each remote known xs

module _ {F My R : Type 0} where
  -- Transport::new, where the states of the sender and of the receiver are given.
  unfoldable pub new_transport : Connection F → My → R → ℕ → Transport F My R
  new_transport connection initial_state initial_remote now = record {
    connection = connection;
    sender = new_sender initial_state now;
    received_states = record { timestamp = now; num = 0; state = initial_remote } ∷ [];
    receiver_quench_timer = 0;
    last_receiver_state = initial_remote;
    fragments = new_assembly;
  }

  -- `last().expect("never empty")`; the invariant shows that it never is empty.
  abbrev pub latest : Transport F My R → TimestampedState R
  latest t =
      unwrap_or (get_elem? t.received_states (length t.received_states - 1))
        (record { timestamp = 0; num = 0; state = t.last_receiver_state })

  abbrev pub remote_state_num : Transport F My R → ℕ
  remote_state_num t = (latest t).num

  abbrev oldest : Transport F My R → TimestampedState R
  oldest t =
      unwrap_or (get_elem? t.received_states 0)
        (record { timestamp = 0; num = 0; state = t.last_receiver_state })

  -- The acknowledgement that every instruction carries.
  unfoldable pub acknowledge : Transport F My R → Instruction → Transport F My R
  acknowledge t inst =
      let sender = process_acknowledgment_through t.sender (unwrap_or inst.ack_num 0) in
      record t {
        sender = sender;
        connection = record t.connection { last_roundtrip_success = (front sender).timestamp };
      }

  module _ (remote : SyncState R) where
    unfoldable pub get_remote_diff : Transport F My R → Transport F My R × List ℕ
    get_remote_diff t =
        let diff = remote.diff_from (latest t).state t.last_receiver_state in
        let u = record t {
          received_states = subtract_each remote (oldest t).state t.received_states;
        } in
        (record u { last_receiver_state = (latest u).state }, diff)

    -- The new state goes in, and is acknowledged.
    unfoldable pub adopt : Transport F My R → TimestampedState R → ℕ → Transport F My R
    adopt t x now =
        let u = record t { received_states = insert_state x t.received_states } in
        record u { sender = record u.sender { ack_num = remote_state_num u; last_heard = now } }

    abbrev pub adopt_diff :
        Transport F My R → ℕ → ℕ → Option R → Transport F My R × Result TransportError (Unit {0})
    adopt_diff t new_num now none = (t, err malformed_instruction)
    adopt_diff t new_num now (some state) =
        let u = record t { sender = record t.sender { pending_data_ack = true } } in
        (adopt u (record { timestamp = now; num = new_num; state = state }) now, ok tt)

    abbrev pub apply_diff :
        Transport F My R → ℕ → ℕ → R → List ℕ → Transport F My R × Result TransportError (Unit {0})
    apply_diff t new_num now reference [] =
        (adopt t (record { timestamp = now; num = new_num; state = reference }) now, ok tt)
    apply_diff t new_num now reference (b ∷ bs) =
        adopt_diff t new_num now (remote.apply_string reference (b ∷ bs))

    -- With too many states, none is taken in until the timer ends, which each one that is sets anew.
    abbrev pub quench :
        Transport F My R → ℕ → R → Instruction → Transport F My R × Result TransportError (Unit {0})
    quench t now reference inst =
        let new_num = unwrap_or inst.new_num 0 in
        let diff = unwrap_or inst.diff [] in
        if ltb max_received_states (length t.received_states)
        then (if ltb now t.receiver_quench_timer
            then (t, ok tt)
            else apply_diff
                (record t { receiver_quench_timer = wrapping_add 64 now quench_interval }) new_num
                now reference diff)
        else apply_diff t new_num now reference diff

    abbrev pub from_reference :
        Transport F My R
        → ℕ
        → Instruction
        → Option (TimestampedState R)
        → Transport F My R × Result TransportError (Unit {0})
    from_reference t now inst none = (t, ok tt)
    from_reference t now inst (some reference) =
        let kept = throw_away (unwrap_or inst.throwaway_num 0) t.received_states in
        quench (record t { received_states = kept }) now reference.state inst

    -- Once the version is right and the acknowledgement is taken.
    abbrev pub apply_known :
        Transport F My R → ℕ → Instruction → Transport F My R × Result TransportError (Unit {0})
    apply_known t now inst =
        if has_num (unwrap_or inst.new_num 0) t.received_states
        then (t, ok tt)
        else from_reference t now inst (find_num (unwrap_or inst.old_num 0) t.received_states)

    unfoldable pub apply_instruction :
        Transport F My R → Instruction → ℕ → Transport F My R × Result TransportError (Unit {0})
    apply_instruction t inst now =
        if unwrap_or inst.protocol_version 0 == mosh_protocol_version
        then apply_known (acknowledge t inst) now inst
        else (t, err protocol_version_mismatch)

    module _ (lib : Libraries) where
      abbrev pub read_assembly :
          Transport F My R
          → ℕ
          → FragmentAssembly × Result FragmentError Instruction
          → Transport F My R × Result TransportError (Unit {0})
      read_assembly t now (a, err e) = (record t { fragments = a }, err malformed_instruction)
      read_assembly t now (a, ok inst) = apply_instruction (record t { fragments = a }) inst now

      abbrev pub collect_fragment :
          Transport F My R
          → ℕ
          → Result FragmentError Fragment
          → Transport F My R × Result TransportError (Unit {0})
      collect_fragment t now (err e) = (t, err malformed_instruction)
      collect_fragment t now (ok frag) =
          let (a, complete) = add_fragment t.fragments frag in
          if complete
          then read_assembly t now (get_assembly lib a)
          else (record t { fragments = a }, ok tt)

      -- What `Connection::recv` returned.
      abbrev pub take_received :
          Transport F My R
          → ℕ
          → Result RecvError Received
          → Transport F My R × Result TransportError (Unit {0})
      take_received t now (err e) = (t, err (recv_error e))
      take_received t now (ok r) = collect_fragment t now (from_bytes (into_payload r))

      abbrev pub some_result :
          Transport F My R × Result TransportError (Unit {0})
          → Transport F My R × Option (Result TransportError (Unit {0}))
      some_result (t, r) = (t, some r)

      abbrev pub after_recv :
          Transport F My R
          → ℕ
          → Connection F × Option (Result RecvError Received)
          → Transport F My R × Option (Result TransportError (Unit {0}))
      after_recv t now (c, none) = (record t { connection = c }, none)
      after_recv t now (c, some r) = some_result (take_received (record t { connection = c }) now r)

      -- Transport::recv; `ready` is what each socket has.
      unfoldable pub recv_datagram :
          Cipher
          → Floats F
          → Transport F My R
          → List (Option (List ℕ × ℕ))
          → ℕ
          → Transport F My R × Option (Result TransportError (Unit {0}))
      recv_datagram cipher fl t ready now = after_recv t now (recv cipher fl t.connection ready now)
