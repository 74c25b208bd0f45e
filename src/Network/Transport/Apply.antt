-- ===== src/Network/Transport/Apply.antt =====
-- What `apply_instruction` and `get_remote_diff` do to the received states.
use rmosh.Prelude.{
  ℕ, ◌<◌, ◌≡◌, inl, inr, true, false, Option, none, some, List, [], ◌∷◌, length, ltb, ◌==◌,
  unwrap_or, arith, Bool-cases, wrapping_add,
}
use rmosh.Network.Compressor.{Instruction}
use rmosh.Network.Packet.{mosh_protocol_version}
use rmosh.Network.Sync.{SyncState, TimestampedState}
use rmosh.Network.Sender.{has_num}
use rmosh.Network.Transport.Order.{
  Above, insert_state-insert_sorted, insert_sorted-Above, throw_away-throw_sorted,
  throw_sorted-Above, throw_sorted_nonempty, has_num-throw_sorted, length-insert_sorted,
  subtract_each-Above, length-subtract_each,
}
use rmosh.Network.Transport.{
  Transport, max_received_states, quench_interval, find_num, throw_away, acknowledge,
  get_remote_diff, adopt, adopt_diff, apply_diff, quench, from_reference, apply_known,
  apply_instruction,
}

module _ {F My R : Type 0} (remote : SyncState R) where
  -- The received states are never empty, and their numbers rise.
  pub record IsValid (t : Transport F My R) : Type 0 where
    pub nonempty : 0 < length t.received_states
    pub rising : Above 0 t.received_states

  adopt-IsValid :
      (t : Transport F My R) (x : TimestampedState R) (now : ℕ)
      → has_num x.num t.received_states ≡ false
      → IsValid t
      → IsValid (adopt remote t x now)
  unfolding adopt
  adopt-IsValid t x now new v = rw (insert_state-insert_sorted x t.received_states) (record {
    nonempty = omega (arith, length-insert_sorted x t.received_states);
    rising = insert_sorted-Above 0 x t.received_states (omega arith) new v.rising;
  })

  adopt_diff-IsValid :
      (t : Transport F My R) (new_num now : ℕ) (o : Option R)
      → has_num new_num t.received_states ≡ false
      → IsValid t
      → IsValid (adopt_diff remote t new_num now o).0
  adopt_diff-IsValid t new_num now none new v = v
  adopt_diff-IsValid t new_num now (some state) new v =
      adopt-IsValid (record t { sender = record t.sender { pending_data_ack = true } })
        (record { timestamp = now; num = new_num; state = state }) now new
        (record { nonempty = v.nonempty; rising = v.rising })

  apply_diff-IsValid :
      (t : Transport F My R) (new_num now : ℕ) (reference : R) (diff : List ℕ)
      → has_num new_num t.received_states ≡ false
      → IsValid t
      → IsValid (apply_diff remote t new_num now reference diff).0
  apply_diff-IsValid t new_num now reference [] new v =
      adopt-IsValid t (record { timestamp = now; num = new_num; state = reference }) now new v
  apply_diff-IsValid t new_num now reference (b ∷ bs) new v =
      adopt_diff-IsValid t new_num now (remote.apply_string reference (b ∷ bs)) new v

  quench-IsValid :
      (t : Transport F My R) (now : ℕ) (reference : R) (inst : Instruction)
      → has_num (unwrap_or inst.new_num 0) t.received_states ≡ false
      → IsValid t
      → IsValid (quench remote t now reference inst).0
  quench-IsValid t now reference inst new v =
      let new_num = unwrap_or inst.new_num 0 in
      let diff = unwrap_or inst.diff [] in
      elim (Bool-cases (ltb max_received_states (length t.received_states))) [
        | inr few ↦ rw few (apply_diff-IsValid t new_num now reference diff new v)
        | inl many ↦ elim (Bool-cases (ltb now t.receiver_quench_timer)) [
          | inl early ↦ rw (many, early) v
          | inr late ↦
              rw (many, late)
                (apply_diff-IsValid
                  (record t { receiver_quench_timer = wrapping_add 64 now quench_interval }) new_num
                  now reference diff new (record { nonempty = v.nonempty; rising = v.rising }))
        ]
      ]

  from_reference-IsValid :
      (t : Transport F My R) (now : ℕ) (inst : Instruction) (o : Option (TimestampedState R))
      → has_num (unwrap_or inst.new_num 0) t.received_states ≡ false
      → IsValid t
      → IsValid (from_reference remote t now inst o).0
  from_reference-IsValid t now inst none new v = v
  from_reference-IsValid t now inst (some reference) new v =
      let n = unwrap_or inst.throwaway_num 0 in
      let xs = t.received_states in
      quench-IsValid (record t { received_states = throw_away n xs }) now reference.state inst
        (rw (throw_away-throw_sorted n xs)
          (has_num-throw_sorted n (unwrap_or inst.new_num 0) xs new))
        (record {
          nonempty = rw (throw_away-throw_sorted n xs) (throw_sorted_nonempty n xs v.nonempty);
          rising = rw (throw_away-throw_sorted n xs) (throw_sorted-Above 0 n xs v.rising);
        })

  acknowledge-IsValid :
      (t : Transport F My R) (inst : Instruction) → IsValid t → IsValid (acknowledge t inst)
  unfolding acknowledge
  acknowledge-IsValid t inst v = record { nonempty = v.nonempty; rising = v.rising }

  apply_known-IsValid :
      (t : Transport F My R) (inst : Instruction) (now : ℕ)
      → IsValid t
      → IsValid (apply_known remote t now inst).0
  apply_known-IsValid t inst now v =
      elim (Bool-cases (has_num (unwrap_or inst.new_num 0) t.received_states)) [
        | inl again ↦ rw again v
        | inr new ↦ rw new (
            from_reference-IsValid t now inst
              (find_num (unwrap_or inst.old_num 0) t.received_states) new v)
      ]

  -- Whatever instruction the peer sends, the received states stay nonempty, with strictly rising
  -- numbers.
  pub apply_instruction-IsValid :
      (t : Transport F My R) (inst : Instruction) (now : ℕ)
      → IsValid t
      → IsValid (apply_instruction remote t inst now).0
  unfolding apply_instruction
  apply_instruction-IsValid t inst now v =
      elim (Bool-cases (unwrap_or inst.protocol_version 0 == mosh_protocol_version)) [
        | inl same ↦
            rw same
              (apply_known-IsValid (acknowledge t inst) inst now (acknowledge-IsValid t inst v))
        | inr other ↦ rw other v
      ]

  pub get_remote_diff-IsValid :
      (t : Transport F My R) → IsValid t → IsValid (get_remote_diff remote t).0
  unfolding get_remote_diff
  get_remote_diff-IsValid t v = record {
    nonempty =
        let v0 : 0 < length t.received_states = v.nonempty in
        omega (arith, length-subtract_each remote _ t.received_states);
    rising = subtract_each-Above remote _ 0 t.received_states v.rising;
  }
