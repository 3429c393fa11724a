-- ===== src/Checks/OnProbe.antt =====
-- A probe of a loop of three rounds, and one whose range does not fit the signed numbers.
use spork_llvm.Base.{List, [], ◌∷◌, ◌+◌, ℕ, some, ◌≡◌, arith}
use spork_llvm.Unroll.{slt}
use spork_llvm.Unroll.Guard.{plain}
use spork_llvm.Unroll.Probe.{next_at, run_probe, written_loop}
use spork_llvm.Unroll.Probe.Alike.{run_probe-written_loop, run_probe-stops}
use spork_llvm.Unroll.Probe.Passed.{
  Operand, inside, outside, parameter, literal, collect_inputs, collect_live_outs, remap, receive,
}
use spork_llvm.Unroll.Probe.Passed.Collected.{HasOperand}
use spork_llvm.Unroll.Probe.Passed.Arrive.{values, read, take_result, call-value}
use spork_llvm.Checks.OnParfor.{add}

run_probe-written_loop_example :
    (r : ℕ × ℕ) × (run_probe (plain slt) add 0xFFFFFFFE 1 3 0 ≡ some r)
    × (written_loop (plain slt) add 1 3 0xFFFFFFFE 0 ≡ some r)
    × (r.0 ≡ 1)
run_probe-written_loop_example =
    run_probe-written_loop slt add 0xFFFFFFFE 1 (omega arith) (omega arith) (omega arith)
      (omega arith) 3 0 (omega arith)

run_probe-stops_example :
    (run_probe (plain slt) add 0x80000000 5 8 0
      ≡ some (
        next_at (plain slt) (next_at (plain slt) 0x80000000 0) 1,
        add (next_at (plain slt) 0x80000000 0) 0,
      ))
    × (written_loop (plain slt) add 5 8 0x80000000 0
        ≡ written_loop (plain slt) add 5 7 (next_at (plain slt) 0x80000000 1) (add 0x80000000 0))
run_probe-stops_example =
    run_probe-stops add 0x80000000 5 7 0 (omega arith) (omega arith) (omega arith)

-- The operands of a loop with the instructions 0 and 1, and the latch inputs of its exit.
abbrev loop_operands : List Operand
loop_operands = parameter 0 ∷ outside 7 ∷ literal 1 ∷ inside 0 ∷ parameter 0 ∷ []

abbrev exit_inputs : List Operand
exit_inputs = inside 1 ∷ inside 0 ∷ outside 7 ∷ inside 1 ∷ []

abbrev value_of : Operand → ℕ
value_of (inside n) = 100 + n
value_of (outside n) = 200 + n
value_of (parameter n) = 300 + n
value_of (literal n) = n

call-value_example :
    ((o : Operand)
      → HasOperand o loop_operands
      → read value_of
          (values value_of (collect_inputs loop_operands []))
          (remap (collect_inputs loop_operands []) o)
        ≡ some (value_of o))
    × ((o : Operand)
        → HasOperand o exit_inputs
        → take_result value_of
            (values value_of (collect_live_outs exit_inputs []))
            (receive (collect_live_outs exit_inputs []) o)
          ≡ some (value_of o))
call-value_example = call-value value_of loop_operands exit_inputs
