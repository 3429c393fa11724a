-- ===== src/Checks/OnQueens.antt =====
-- A queen in the corner, and the boards of size 4.
use spork_llvm.Base.{List, [], ◌∷◌, ◌≡◌, ◌%◌, refl, arith, length, u32_mod}
use spork_llvm.Queens.{Queen, count_sol}
use spork_llvm.Queens.Count.{boards, count_sol-boards}

abbrev corner : List Queen
corner = record { x = 0; y = 0 } ∷ []

four : length (boards 4 0 4 []) ≡ 2
four = refl

count_sol-boards_example : count_sol 3 1 4 corner ≡ length (boards 3 1 4 corner) % u32_mod
count_sol-boards_example =
    count_sol-boards 3 1 4 corner (omega arith) (omega arith) (omega arith, omega arith, tt)
