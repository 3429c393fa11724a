-- ===== src/Checks/OnFork.antt =====
-- A `par` whose right branch is stolen, and `fibE(5)` with every job stolen.
use spork_llvm.Base.{ℕ, ◌+◌, [], ◌∷◌, ◌≡◌, refl}
use spork_llvm.Fork.{
  Prog, act, andthen, par, done, left, right, Trace, acts, then_, thief, run, par_seq,
}
use spork_llvm.Fork.Races.{RaceFree, par-par_seq}

abbrev Cells : Type 0
Cells = ℕ × ℕ

abbrev to_left : ℕ → Cells → Cells
to_left n (a, b) = (a + n, b)

abbrev to_right : ℕ → Cells → Cells
to_right n (a, b) = (a, b + n)

abbrev two_cells : Prog Cells
two_cells = par (andthen (act (to_left 1)) (act (to_left 2))) (act (to_right 5))

two_cells-RaceFree : RaceFree two_cells
two_cells-RaceFree = ((tt, tt), tt, (λ s. refl, λ s. refl))

in_the_middle : Trace two_cells (to_left 1 ∷ to_right 5 ∷ to_left 2 ∷ [])
in_the_middle =
    thief (then_ (acts (to_left 1)) (acts (to_left 2))) (acts (to_right 5))
      (left (right (left done)))

par-par_seq_example :
    run (to_left 1 ∷ to_right 5 ∷ to_left 2 ∷ []) (0, 0) ≡ par_seq two_cells (0, 0)
par-par_seq_example = par-par_seq (0, 0) two_cells-RaceFree in_the_middle
