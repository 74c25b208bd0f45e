-- ===== src/Terminal/Dispatcher/Editing/Rounds.antt =====
-- The loop of `csi_sgr` ends by its own test.
use rmosh.Prelude.{ℕ, zero, suc, ◌+◌, ◌≤◌, ◌<◌, ◌≡◌, refl, false, arith, ltb, Bool-cases, inl, inr}
use rmosh.Terminal.Renditions.{Renditions}
use rmosh.Terminal.Dispatcher.{Dispatcher}
use rmosh.Terminal.Dispatcher.Editing.{sgr_step, sgr_loop}

-- Every round goes on to a later parameter.
sgr_step_advances : (d : Dispatcher) (count i : ℕ) (r : Renditions) → i < (sgr_step d count i r).1
unfolding sgr_step
sgr_step_advances d count i r = ground arith

over : (count i : ℕ) → count ≤ i + 0 → ltb i count ≡ false
over count i h = ground arith

-- The loop of `csi_sgr` consumes a parameter each round: any two fuels that cover the parameters
-- left give the same renditions.
pub sgr_loop_enough :
    (a b : ℕ) (d : Dispatcher) (count i : ℕ) (r : Renditions)
    → count ≤ i + a
    → count ≤ i + b
    → sgr_loop a d count i r ≡ sgr_loop b d count i r
unfolding sgr_loop
sgr_loop_enough zero zero d count i r h k = refl
sgr_loop_enough zero (suc b) d count i r h k = rw (over count i h)
sgr_loop_enough (suc a) zero d count i r h k = rw (over count i k)
sgr_loop_enough (suc a) (suc b) d count i r h k = elim (Bool-cases (ltb i count)) [
  | inl more ↦
      let one = sgr_step d count i r in
      let on = sgr_step_advances d count i r in
      rw more (sgr_loop_enough a b d count one.1 one.0 (omega arith) (omega arith))
  | inr done ↦ rw done
]
