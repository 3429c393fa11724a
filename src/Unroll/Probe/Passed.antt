-- ===== src/Unroll/Probe/Passed.antt =====
-- fablepass, what goes into the probe and what comes out of it: the parameters and the results that
-- `buildProbe` gives it, and the call with which `transplantProbe` puts it in the place of the loop.
-- Children: what is collected (Collected), and that the values arrive (Arrive).
pub mod Collected
pub mod Arrive
use spork_llvm.Base.{
  ℕ, zero, suc, Bool, true, false, ◌&&◌, List, [], ◌∷◌, ◌++◌, Option, none, some, if◌then◌else◌,
  ◌==◌, get_elem?,
}

-- An operand of an instruction of the loop: an instruction of the loop or of the function around it, a
-- parameter of that function, or a constant.
pub data Operand : Type 0 where
  inside : ℕ → Operand
  outside : ℕ → Operand
  parameter : ℕ → Operand
  literal : ℕ → Operand

abbrev pub same_operand : Operand → Operand → Bool
same_operand (inside m) (inside n) = m == n
same_operand (outside m) (outside n) = m == n
same_operand (parameter m) (parameter n) = m == n
same_operand (literal m) (literal n) = m == n
same_operand _ _ = false

-- The place of an operand in a list, counted from the index.
abbrev pub place_of : Operand → List Operand → (index : ℕ) → Option ℕ
place_of o [] index = none
place_of o (x ∷ xs) index = if same_operand x o then some index else place_of o xs (suc index)

-- `SetVector::insert`, and `is_contained` with `push_back`.
abbrev pub insert_unless : Option ℕ → Operand → List Operand → List Operand
insert_unless none o xs = xs ++ (o ∷ [])
insert_unless (some i) o xs = xs

abbrev pub insert : Operand → List Operand → List Operand
insert o xs = insert_unless (place_of o xs 0) o xs

-- `Inputs`, of the operands of all instructions in order; behind these the call passes the bound and the
-- two pointers.
unfoldable pub collect_inputs : List Operand → (inputs : List Operand) → List Operand
collect_inputs [] inputs = inputs
collect_inputs (inside n ∷ os) inputs = collect_inputs os inputs
collect_inputs (outside n ∷ os) inputs = collect_inputs os (insert (outside n) inputs)
collect_inputs (parameter n ∷ os) inputs = collect_inputs os (insert (parameter n) inputs)
collect_inputs (literal n ∷ os) inputs = collect_inputs os inputs

-- `LiveOuts`, of the latch inputs of the exit PHIs.
unfoldable pub collect_live_outs : List Operand → (live_outs : List Operand) → List Operand
collect_live_outs [] live_outs = live_outs
collect_live_outs (inside n ∷ os) live_outs = collect_live_outs os (insert (inside n) live_outs)
collect_live_outs (outside n ∷ os) live_outs = collect_live_outs os live_outs
collect_live_outs (parameter n ∷ os) live_outs = collect_live_outs os live_outs
collect_live_outs (literal n ∷ os) live_outs = collect_live_outs os live_outs

-- An operand of the clone: a clone of an instruction, a parameter of the probe by its place, or what
-- stays as it is.
pub data Cloned : Type 0 where
  clone : ℕ → Cloned
  probe_parameter : ℕ → Cloned
  unmapped : Operand → Cloned

abbrev pub mapped : Option ℕ → Operand → Cloned
mapped none o = unmapped o
mapped (some i) o = probe_parameter i

-- `VMap` at an operand; the parameters have been entered for the inputs.
unfoldable pub remap : (inputs : List Operand) → Operand → Cloned
remap inputs (inside n) = clone n
remap inputs o = mapped (place_of o inputs 0) o

-- What an exit PHI takes from the call: the result itself, a part of it by its place, or its old input.
pub data Received : Type 0 where
  whole : Received
  part : ℕ → Received
  old_input : Operand → Received

abbrev pub received : Option ℕ → Operand → Received
received none o = old_input o
received (some i) o = part i

-- `LiveOutMap`, at the latch input of an exit PHI.
unfoldable pub receive : (live_outs : List Operand) → Operand → Received
receive (x ∷ []) o = if same_operand x o then whole else old_input o
receive live_outs o = received (place_of o live_outs 0) o
