-- ===== src/Network/Transport/Advance.antt =====
-- Which instructions advance the remote state, and that none does so twice.
use rmosh.Prelude.{
  ℕ, ◌≤◌, ◌≡◌, ◌≢◌, refl, ap, ◌∙◌, ◌⊎◌, inl, inr, Bool, true, false, Option, none, some, List, [],
  ◌∷◌, Result, ok, length, ◌==◌, unwrap_or, arith, Bool-cases, le→ltb,
}
use rmosh.Network.Compressor.{Instruction}
use rmosh.Network.Packet.{mosh_protocol_version}
use rmosh.Network.Sync.{SyncState, TimestampedState}
use rmosh.Network.Sender.{has_num}
use rmosh.Network.Transport.Order.{
  insert_sorted, insert_state-insert_sorted, find_num-insert_sorted, throw_sorted,
  throw_away-throw_sorted, find_num-throw_sorted, has_num-throw_sorted, find_num-has_num,
  length-throw_sorted,
}
use rmosh.Network.Transport.{
  TransportError, Transport, max_received_states, find_num, throw_away, acknowledge, adopt,
  apply_diff, quench, apply_known, apply_instruction,
}

abbrev pub new_num_of : Instruction → ℕ
new_num_of inst = unwrap_or inst.new_num 0

abbrev pub old_num_of : Instruction → ℕ
old_num_of inst = unwrap_or inst.old_num 0

abbrev pub throwaway_of : Instruction → ℕ
throwaway_of inst = unwrap_or inst.throwaway_num 0

abbrev pub speaks : Instruction → Bool
speaks inst = unwrap_or inst.protocol_version 0 == mosh_protocol_version

module _ {R : Type 0} (remote : SyncState R) where
  -- The state that a diff leads to; an empty one leads nowhere.
  abbrev pub advanced : R → List ℕ → Option R
  advanced reference [] = some reference
  advanced reference (b ∷ bs) = remote.apply_string reference (b ∷ bs)

module _ {F My R : Type 0} (remote : SyncState R) where
  acknowledged_states :
      (t : Transport F My R) (inst : Instruction)
      → (acknowledge t inst).received_states ≡ t.received_states
  unfolding acknowledge
  acknowledged_states t inst = refl

  acknowledged_timer :
      (t : Transport F My R) (inst : Instruction)
      → (acknowledge t inst).receiver_quench_timer ≡ t.receiver_quench_timer
  unfolding acknowledge
  acknowledged_timer t inst = refl

  apply_known_ignored :
      (t : Transport F My R) (inst : Instruction) (now : ℕ)
      → (has_num (new_num_of inst) t.received_states ≡ true)
        ⊎ (find_num (old_num_of inst) t.received_states ≡ none)
      → apply_known remote t now inst ≡ (t, ok tt)
  apply_known_ignored t inst now (inl again) = rw again refl
  apply_known_ignored t inst now (inr lost) =
      elim (Bool-cases (has_num (new_num_of inst) t.received_states)) [
        | inl held ↦ rw held refl
        | inr new ↦ rw (new, lost) refl
      ]

  -- An instruction for a state that is held, or from one that is not, leaves the received states and
  -- the timer as they are.
  apply_instruction_ignored :
      (t : Transport F My R) (inst : Instruction) (now : ℕ)
      → (has_num (new_num_of inst) t.received_states ≡ true)
        ⊎ (find_num (old_num_of inst) t.received_states ≡ none)
      → let u = (apply_instruction remote t inst now).0 in
        (u.received_states ≡ t.received_states)
        × (u.receiver_quench_timer ≡ t.receiver_quench_timer)
  unfolding apply_instruction
  apply_instruction_ignored t inst now why = elim (Bool-cases (speaks inst)) [
    | inr other ↦ rw other (refl, refl)
    | inl same ↦
        let kept =
          apply_known_ignored (acknowledge t inst) inst now (rw (acknowledged_states t inst) why) in
        rw (same, kept) (acknowledged_states t inst, acknowledged_timer t inst)
  ]

  Adopted :
      Transport F My R
      → TimestampedState R
      → Transport F My R × Result TransportError (Unit {0})
      → Type 0
  Adopted t x done = (done.0.received_states ≡ insert_sorted x t.received_states) × (done.1 ≡ ok tt)

  apply_diff_lem :
      (t : Transport F My R) (new_num now : ℕ) (reference state : R) (diff : List ℕ)
      → advanced remote reference diff ≡ some state
      → Adopted t
          (record { timestamp = now; num = new_num; state = state })
          (apply_diff remote t new_num now reference diff)
  unfolding Adopted adopt
  apply_diff_lem t new_num now reference state [] h =
      let same : reference ≡ state = cc in
      rw (← same) (
        insert_state-insert_sorted (record { timestamp = now; num = new_num; state = reference })
            t.received_states,
        refl,
      )
  apply_diff_lem t new_num now reference state (b ∷ bs) h = rw h (
    insert_state-insert_sorted (record { timestamp = now; num = new_num; state = state })
        t.received_states,
    refl,
  )

  quench_lem :
      (t : Transport F My R) (now : ℕ) (reference state : R) (inst : Instruction)
      → length t.received_states ≤ max_received_states
      → advanced remote reference (unwrap_or inst.diff []) ≡ some state
      → Adopted t
          (record { timestamp = now; num = new_num_of inst; state = state })
          (quench remote t now reference inst)
  quench_lem t now reference state inst few h =
      rw (le→ltb max_received_states (length t.received_states) few)
        (apply_diff_lem t (new_num_of inst) now reference state (unwrap_or inst.diff []) h)

  apply_known_lem :
      (t : Transport F My R) (inst : Instruction) (now : ℕ) (reference : TimestampedState R)
      (state : R)
      → has_num (new_num_of inst) t.received_states ≡ false
      → find_num (old_num_of inst) t.received_states ≡ some reference
      → length t.received_states ≤ max_received_states
      → advanced remote reference.state (unwrap_or inst.diff []) ≡ some state
      → let done = apply_known remote t now inst in
        (done.0.received_states
          ≡ insert_sorted
              (record { timestamp = now; num = new_num_of inst; state = state })
              (throw_sorted (throwaway_of inst) t.received_states))
        × (done.1 ≡ ok tt)
  unfolding Adopted
  apply_known_lem t inst now reference state new held few h =
      let n = throwaway_of inst in
      let kept = throw_away n t.received_states in
      let few_kept : length kept ≤ max_received_states =
        rw (throw_away-throw_sorted n t.received_states)
          (omega (arith, length-throw_sorted n t.received_states)) in
      let done =
        quench_lem (record t { received_states = kept }) now reference.state state inst few_kept
          h in
      rw (new, held)
        (done.0 ∙ ap (insert_sorted _) (throw_away-throw_sorted n t.received_states), done.1)

  apply_instruction_lem :
      (t : Transport F My R) (inst : Instruction) (now : ℕ) (reference : TimestampedState R)
      (state : R)
      → speaks inst ≡ true
      → has_num (new_num_of inst) t.received_states ≡ false
      → find_num (old_num_of inst) t.received_states ≡ some reference
      → length t.received_states ≤ max_received_states
      → advanced remote reference.state (unwrap_or inst.diff []) ≡ some state
      → let done = apply_instruction remote t inst now in
        (done.0.received_states
          ≡ insert_sorted
              (record { timestamp = now; num = new_num_of inst; state = state })
              (throw_sorted (throwaway_of inst) t.received_states))
        × (done.1 ≡ ok tt)
  unfolding apply_instruction
  apply_instruction_lem t inst now reference state same new held few h =
      let x : TimestampedState R = record {
        timestamp = now;
        num = new_num_of inst;
        state = state;
      } in
      let a = acknowledged_states t inst in
      let done =
        apply_known_lem (acknowledge t inst) inst now reference state (rw a new) (rw a held)
          (rw a few) h in
      rw same (done.0 ∙ ap (λ q. insert_sorted x (throw_sorted (throwaway_of inst) q)) a, done.1)

  -- An instruction of the right version, from a state that is held to one that is not, whose diff
  -- applies, succeeds while the queue is not full: the new state is held under its number, with what
  -- the diff makes of the reference; every other state that is not thrown away is held as before;
  -- and a repeat of the instruction, at any time, changes the received states no more.
  pub apply_instruction_advances :
      (t : Transport F My R) (inst : Instruction) (now later k : ℕ) (reference : TimestampedState R)
      (state : R)
      → speaks inst ≡ true
      → has_num (new_num_of inst) t.received_states ≡ false
      → find_num (old_num_of inst) t.received_states ≡ some reference
      → length t.received_states ≤ max_received_states
      → advanced remote reference.state (unwrap_or inst.diff []) ≡ some state
      → throwaway_of inst ≤ k
      → k ≢ new_num_of inst
      → let done = apply_instruction remote t inst now in
        let u = done.0 in
        (done.1 ≡ ok tt)
        × (find_num (new_num_of inst) u.received_states
            ≡ some (record { timestamp = now; num = new_num_of inst; state = state }))
        × (find_num k u.received_states ≡ find_num k t.received_states)
        × ((apply_instruction remote u inst later).0.received_states ≡ u.received_states)
  apply_instruction_advances t inst now later k reference state same new held few h kept other =
      let x : TimestampedState R = record {
        timestamp = now;
        num = new_num_of inst;
        state = state;
      } in
      let rest = throw_sorted (throwaway_of inst) t.received_states in
      let done = apply_instruction_lem t inst now reference state same new held few h in
      let fresh =
        has_num-throw_sorted (throwaway_of inst) (new_num_of inst) t.received_states new in
      let its_own : (new_num_of inst == new_num_of inst) ≡ true = ground arith in
      let not_its : (new_num_of inst == k) ≡ false = ground arith in
      let found =
        ap (find_num (new_num_of inst)) done.0
        ∙ find_num-insert_sorted x rest (new_num_of inst) fresh
        ∙ rw its_own refl in
      (
        done.1,
        found,
        ap (find_num k) done.0
            ∙ find_num-insert_sorted x rest k fresh
            ∙ rw not_its (find_num-throw_sorted (throwaway_of inst) k t.received_states kept),
        (apply_instruction_ignored (apply_instruction remote t inst now).0 inst later (
            inl (
              find_num-has_num (new_num_of inst)
                (apply_instruction remote t inst now).0.received_states x found))).0,
      )
