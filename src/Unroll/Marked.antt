-- ===== src/Unroll/Marked.antt =====
-- fablepass, `findMarkedLoops`: the loops that a marker denotes, on what LLVM says of the blocks and
-- loops of the function. Children: how they lie to the marker (Denoted), and the fuel of the walk (Fuel).
pub mod Denoted
pub mod Fuel
use spork_llvm.Base.{
  ℕ, zero, suc, ◌+◌, ◌≤◌, ◌≡◌, Bool, true, false, not, ◌&&◌, ◌||◌, List, [], ◌∷◌, ◌++◌, Option,
  none, some, if◌then◌else◌, ◌==◌, ltb, refl, sym, ap, arith, Bool-cases, Option-cases, inl, inr,
  ltb→le, ==_iff,
}
use spork_llvm.Unroll.Recognise.{check, bind, same}
use spork_llvm.Unroll.Recognise.Accepted.{check-some, bind-some, and-left, and-right, not-true}

pub record Blocks : Type 0 where
  pub successors : ℕ → List ℕ
  pub loop_for : ℕ → Option ℕ
  pub header : ℕ → ℕ
  pub parent_loop : ℕ → Option ℕ
  pub loop_preheader : ℕ → Option ℕ
  pub contains : ℕ → ℕ → Bool  -- the first loop contains the second
  pub barrier : ℕ → Bool  -- `isWalkBarrier`

-- `Visited`, `Work` and `Loops`; `Work` has its last element first.
pub record Walk : Type 0 where
  pub visited : List ℕ
  pub work : List (ℕ × ℕ)
  pub loops : List ℕ

abbrev pub max_marker_walk_depth : ℕ
max_marker_walk_depth = 8

abbrev pub is_in : ℕ → List ℕ → Bool
is_in x [] = false
is_in x (y ∷ ys) = x == y || is_in x ys

abbrev pub leaves : Blocks → Option ℕ → ℕ → Bool
leaves b none l = false
leaves b (some e) l = not (b.contains e l)

-- A successor in another loop; `none` is `return false`.
unfoldable pub visit_loop : Blocks → Option ℕ → ℕ → ℕ → Option ℕ → Walk → Option Walk
visit_loop b enclosing bb s none w = some w
visit_loop b enclosing bb s (some l) w =
    if leaves b enclosing l
    then some w
    else check
        (b.header l == s && same (b.parent_loop l) enclosing && same (b.loop_preheader l) (some bb))
        (some (if is_in l w.loops then w else record w { loops = w.loops ++ (l ∷ []) }))

-- A successor in the marker's own loop.
unfoldable pub visit_bridge : Blocks → ℕ → ℕ → Walk → Option Walk
visit_bridge b depth s w =
    if is_in s w.visited || b.barrier s
    then some (record w { visited = s ∷ w.visited })
    else if ltb max_marker_walk_depth (depth + 1)
    then none
    else some (record w { visited = s ∷ w.visited; work = (s, depth + 1) ∷ w.work })

unfoldable pub visit_one : Blocks → Option ℕ → ℕ → ℕ → ℕ → Walk → Option Walk
unfolding visit_loop visit_bridge
visit_one b enclosing bb depth s w =
    if same (b.loop_for s) enclosing
    then visit_bridge b depth s w
    else visit_loop b enclosing bb s (b.loop_for s) w

unfoldable pub visit_all : Blocks → Option ℕ → ℕ → ℕ → List ℕ → Walk → Option Walk
unfolding visit_one
visit_all b enclosing bb depth [] w = some w
visit_all b enclosing bb depth (s ∷ ss) w =
    bind (visit_one b enclosing bb depth s w) (λ w'. visit_all b enclosing bb depth ss w')

-- `return !Loops.empty();`
abbrev pub nonempty : List ℕ → Option (List ℕ)
nonempty [] = none
nonempty (l ∷ ls) = some (l ∷ ls)

abbrev pub walk_on : Option Walk → (Walk → Option (Option (List ℕ))) → Option (Option (List ℕ))
walk_on none walk = some none
walk_on (some w) walk = walk w

-- The loop over `Work`, and what `findMarkedLoops` returns behind it: `some none` is `return false`,
-- and `none` stands for a walk that its fuel does not finish.
unfoldable pub walk_blocks : ℕ → Blocks → Option ℕ → List (ℕ × ℕ) → Walk → Option (Option (List ℕ))
unfolding visit_all
walk_blocks zero b enclosing work w = none
walk_blocks (suc fuel) b enclosing [] w = some (nonempty w.loops)
walk_blocks (suc fuel) b enclosing ((bb, depth) ∷ work) w =
    walk_on (visit_all b enclosing bb depth (b.successors bb) (record w { work = work }))
      (λ w'. walk_blocks fuel b enclosing w'.work w')

unfoldable pub find_marked_loops : ℕ → Blocks → ℕ → Option (Option (List ℕ))
unfolding walk_blocks
find_marked_loops fuel b start =
    walk_blocks fuel b (b.loop_for start) ((start, 0) ∷ [])
      (record { visited = start ∷ []; work = []; loops = [] })
