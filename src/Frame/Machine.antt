-- ===== src/Frame/Machine.antt =====
-- RtsSporkPass, `runOnMachineFunction` as a whole: the slots out of the metadata, the frame index of
-- each alloca, and the table that is patched by both. Child: what a slot's entry then holds
-- (Entries).
pub mod Entries
use spork_llvm.Base.{ℕ, zero, suc, List, ◌++◌, [], ◌∷◌, Option, none, some, if◌then◌else◌, ◌==◌}
use spork_llvm.Frame.{SlotEntry, Table, patch}

-- An instruction: the alloca it is, and the operands of its slot metadata, if it has any.
pub record IrInstr : Type 0 where
  pub made_alloca : Option ℕ
  pub slot_operands : Option (List ℕ)

-- The test of one instruction: an alloca whose metadata have two operands or more.
abbrev pub slot_of : IrInstr → List SlotEntry
slot_of i = elim i.made_alloca [
  | none ↦ []
  | some x ↦ (elim i.slot_operands [
    | some (s ∷ a ∷ _) ↦ record { site = s; arg = a; alloca = x } ∷ []
    | _ ↦ []
  ])
]

-- The loop over the instructions of all blocks.
unfoldable pub collect_slots : List IrInstr → List SlotEntry
collect_slots [] = []
collect_slots (i ∷ is) = slot_of i ++ collect_slots is

-- `AllocaToFI` at an alloca: the last of the frame's objects that it is allocated to, counted from the
-- first object on.
unfoldable pub frame_index : List (Option ℕ) → (index : ℕ) → (alloca : ℕ) → Option ℕ → Option ℕ
frame_index [] index x found = found
frame_index (none ∷ objects) index x found = frame_index objects (suc index) x found
frame_index (some y ∷ objects) index x found =
    frame_index objects (suc index) x (if y == x then some index else found)

-- The offset that the frame gives for an alloca; `reference` is `getFrameIndexReference`.
unfoldable pub frame_offset : (reference : ℕ → ℕ) → List (Option ℕ) → (alloca : ℕ) → Option ℕ
unfolding frame_index
frame_offset reference objects x = elim (frame_index objects 0 x none) [
  | none ↦ none
  | some fi ↦ some (reference fi)
]

-- What the pass does with the slots, on the table of the module, `none` inside if there is none; `none`
-- outside is a write out of bounds.
unfoldable pub apply_slots :
    (num_args : ℕ) → (ℕ → Option ℕ) → Option Table → List SlotEntry → Option (Option Table)
unfolding patch
apply_slots num_args offset table [] = some table
apply_slots num_args offset none (se ∷ ses) = some none
apply_slots num_args offset (some t) (se ∷ ses) = elim (patch num_args offset t (se ∷ ses)) [
  | none ↦ none
  | some t' ↦ some (some t')
]

unfoldable pub run_machine :
    (num_args : ℕ)
    → (reference : ℕ → ℕ) → List (Option ℕ)
    → List IrInstr
    → Option Table
    → Option (Option Table)
unfolding collect_slots frame_offset apply_slots
run_machine num_args reference objects code table =
    apply_slots num_args (frame_offset reference objects) table (collect_slots code)
