-- ===== src/Checks/OnFrame.antt =====
-- A site whose first argument is a cast of a GEP, and a table of two sites with the slots of a
-- function.
use spork_llvm.Base.{ℕ, ◌+◌, List, [], ◌∷◌, Option, none, some, ◌≡◌, refl, arith, ◌<◌}
use spork_llvm.Frame.{
  Pointer, alloca, bit_cast, gep, constant, variable, resolve_to, gep_all_zero, Instruction, call,
  other, populate, try_record, record_args, Table,
}
use spork_llvm.Frame.Patch.{entry, ArgsFit}
use spork_llvm.Frame.Machine.{IrInstr, collect_slots, run_machine}
use spork_llvm.Frame.Machine.Entries.{HasSlot, OnlyAlloca, IsObject, run_machine-offset}

abbrev first_field : Pointer
first_field = bit_cast (gep (alloca 4) (constant 0 ∷ constant 0 ∷ []))

resolves : resolve_to first_field ≡ some 4
unfolding resolve_to gep_all_zero
resolves = refl

abbrev two_calls : List Instruction
two_calls =
    call (some 7) (first_field ∷ alloca 5 ∷ [])
    ∷ other
    ∷ call (some 7) (gep (alloca 4) (variable 0 ∷ []) ∷ alloca 5 ∷ [])
    ∷ call (some 7) (alloca 6 ∷ alloca 4 ∷ [])
    ∷ []

recorded :
    populate 7 two_calls [] ≡ record { id = 0; i = 4; j = 5 } ∷ record { id = 1; i = 6; j = 4 } ∷ []
unfolding populate try_record record_args resolve_to gep_all_zero
recorded = refl

abbrev blank : Table
blank = (0 ∷ 0 ∷ []) ∷ (0 ∷ 0 ∷ []) ∷ []

-- Two allocas with slots, one with none, and an instruction that is no alloca.
abbrev annotated : List IrInstr
annotated =
    record { made_alloca = some 3; slot_operands = some (1 ∷ 0 ∷ []) }
    ∷ record { made_alloca = none; slot_operands = none }
    ∷ record { made_alloca = some 9; slot_operands = none }
    ∷ record { made_alloca = some 5; slot_operands = some (0 ∷ 1 ∷ []) }
    ∷ []

abbrev frame_objects : List (Option ℕ)
frame_objects = none ∷ some 5 ∷ some 3 ∷ []

args_fit : ArgsFit 2 (collect_slots annotated)
unfolding collect_slots
args_fit = (omega arith, (omega arith, tt))

run_machine-offset_example :
    (t' : Table) × (run_machine 2 (λ fi. 8 + fi) frame_objects annotated (some blank)
      ≡ some (some t'))
    × ((s a x i : ℕ)
        → s < 2
        → HasSlot (collect_slots annotated) s a x
        → OnlyAlloca (collect_slots annotated) s a x
        → IsObject frame_objects i x
        → entry t' s a ≡ some (8 + i))
run_machine-offset_example =
    run_machine-offset 2 (λ fi. 8 + fi) frame_objects annotated blank (refl, (refl, tt)) args_fit
