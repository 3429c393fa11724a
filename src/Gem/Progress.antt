-- ===== src/Gem/Progress.antt =====
-- gempass, `resolveAlloca`, `collectDependentLoads`, `findProgressStore`, `matchExitCondition` and
-- `cloneCleanupLoop`: whether a marked loop has the form that the pass can batch. What LLVM says of the
-- loop is in the record `GemShape`. Children: which variable a guard reads (Slot), that a guard can be
-- built (Built), and the search for loads (Collect).
pub mod Slot
pub mod Built
pub mod Collect
use spork_llvm.Base.{
  ℕ, zero, suc, ◌+◌, Bool, true, false, not, ◌&&◌, ◌||◌, List, [], ◌∷◌, ◌++◌, Option, none, some,
  if◌then◌else◌, ◌==◌, get_elem?, length,
}
use spork_llvm.Unroll.{
  Value, instruction, cast, ValueType, Predicate, ult, slt, strip_integer_casts,
}
use spork_llvm.Unroll.Recognise.{
  Load, Store, Instr, SlotLoad, check, bind, same, present, volatile_stores, only, is_instruction,
}
use spork_llvm.Unroll.Recognise.Match.{bound_root, unread}

-- A pointer, as `resolveAlloca` looks through it. It is finite, so no pointer comes up twice on the way.
pub data Pointer : Type 0 where
  alloca : ℕ → Pointer
  pointer_cast : Pointer → Pointer
  gep : (all_zero : Bool) → Pointer → Pointer
  loaded : Pointer → Pointer
  other : ℕ → Pointer

unfoldable pub resolve_alloca : Pointer → Option ℕ
resolve_alloca (alloca n) = some n
resolve_alloca (pointer_cast p) = resolve_alloca p
resolve_alloca (gep all_zero p) = let rest = resolve_alloca p in if all_zero then rest else none
resolve_alloca (loaded p) = resolve_alloca p
resolve_alloca (other n) = none

-- A value by its number in the function: a load, another instruction with its operands, or neither.
pub data Node : Type 0 where
  load_node : Load → Node
  instr_node : List ℕ → Node
  leaf : Node

abbrev pub is_visited : ℕ → List ℕ → Bool
is_visited v [] = false
is_visited v (u ∷ us) = u == v || is_visited v us

-- What is still to do, the values visited and the loads found.
pub record Collecting : Type 0 where
  pub work : List ℕ
  pub visited : List ℕ
  pub loads : List Load

-- The visit of a value that is not visited yet.
unfoldable pub visit_node : ℕ → Option Node → Collecting → Collecting
visit_node v none c = record c { visited = v ∷ c.visited }
visit_node v (some leaf) c = record c { visited = v ∷ c.visited }
visit_node v (some (load_node l)) c = record c {
  visited = v ∷ c.visited;
  loads = c.loads ++ (l ∷ []);
}
visit_node v (some (instr_node ops)) c = record c { work = ops ++ c.work; visited = v ∷ c.visited }

-- A call of `collectDependentLoads` for the next value.
unfoldable pub collect_next : List Node → ℕ → Collecting → Collecting
unfolding visit_node
collect_next g v c = if is_visited v c.visited then c else visit_node v (get_elem? g v) c

-- `collectDependentLoads`, its calls kept on a work list: the operands of a value are done before what
-- comes after it. `none` is the end of the fuel.
unfoldable pub collect : List Node → (fuel : ℕ) → Collecting → Option (List Load)
unfolding collect_next
collect g zero c = elim c.work [ [] ↦ some c.loads | v ∷ work ↦ none ]
collect g (suc fuel) c = elim c.work [
  | [] ↦ some c.loads
  | v ∷ work ↦ collect g fuel (collect_next g v (record c { work = work }))
]

-- One for each value and each operand.
abbrev pub node_size : Node → ℕ
node_size (load_node l) = 1
node_size (instr_node ops) = 1 + length ops
node_size leaf = 1

abbrev pub graph_size : List Node → ℕ
graph_size [] = 0
graph_size (n ∷ g) = node_size n + graph_size g

unfoldable pub collect_dependent_loads : List Node → ℕ → Option (List Load)
unfolding collect
collect_dependent_loads g root =
    collect g (1 + graph_size g) (record { work = root ∷ []; visited = []; loads = [] })

-- The compare of a conditional branch; `predicate` if it is `<`, signed or unsigned.
pub record GemCompare : Type 0 where
  pub id : ℕ
  pub one_use : Bool
  pub predicate : Option Predicate
  pub lhs : Value
  pub rhs : Value

-- An operand of the increment.
pub data Operand : Type 0 where
  value : Value → Operand
  constant : ℕ → Operand

-- `induction` is `getInductionVariable`, and `next` its latch value: an instruction, or casts of integers
-- around one, which are stripped before it is compared.
pub record GemShape : Type 0 where
  pub latch : Option ℕ
  pub induction : Option ℕ
  pub next : Option Value
  pub latch_code : List Instr
  pub compare : Option GemCompare
  pub nodes : List Node
  pub pointer : ℕ → Pointer
  pub slot_loads : ℕ → List SlotLoad
  pub one_use : Value → Bool
  pub load_of : ℕ → Option Load
  pub block_count : ℕ
  pub header : ℕ
  pub preheader : Option ℕ
  pub exit : Option ℕ
  pub exit_phis : List ℕ
  pub preheader_branch : Bool  -- unconditional
  pub increment : Option (Operand × Operand)  -- the operands of `next` without its casts, if an addition

-- `ProgressStore`
pub record GemProgress : Type 0 where
  pub progress : Store
  pub slot : ℕ
  pub bound_slot : ℕ
  pub bound_load : Load
  pub phi : ℕ
  pub next : Value
  pub predicate : Predicate
  pub lhs : Value
  pub rhs : Value

unfoldable pub volatile_loads : List Load → List Load
volatile_loads [] = []
volatile_loads (l ∷ ls) = if l.volatile then l ∷ volatile_loads ls else volatile_loads ls

abbrev pub only_load : List Load → Option Load
only_load (l ∷ []) = some l
only_load _ = none

-- The exit test of `findProgressStore`: the predicate and the volatile load that the compare depends on.
unfoldable pub find_exit_test : GemShape → GemCompare → ℕ → Option (Predicate × Load)
unfolding strip_integer_casts collect_dependent_loads volatile_loads
find_exit_test s c next = bind c.predicate (λ p.
    check (is_instruction next (strip_integer_casts c.lhs)) (
      bind (collect_dependent_loads s.nodes c.id)
        (λ loads. bind (only_load (volatile_loads loads)) (λ ld. check ld.integer (some (p, ld))))))

-- The slots of the progress and of the bound.
unfoldable pub find_slots : GemShape → (progress_ptr bound_ptr : ℕ) → Option (ℕ × ℕ)
unfolding resolve_alloca unread
find_slots s progress_ptr bound_ptr = bind (resolve_alloca (s.pointer progress_ptr)) (λ slot.
    check (unread (s.slot_loads slot)) (
      bind (resolve_alloca (s.pointer bound_ptr))
        (λ bound_slot. check (not (bound_slot == slot)) (some (slot, bound_slot)))))

-- The only volatile store of the latch, of the next index.
unfoldable pub find_store : GemShape → ℕ → Option Store
unfolding volatile_stores strip_integer_casts
find_store s next =
    bind (only (volatile_stores s.latch_code))
      (λ st. check (is_instruction next (strip_integer_casts st.value)) (some st))

-- The instruction that `stripIntegerCasts` leaves.
abbrev pub number_of : Value → Option ℕ
number_of (instruction n t) = some n
number_of (cast op src dest v) = none

-- `findProgressStore`, where the latch value strips to the instruction `next`.
unfoldable pub find_progress_of : GemShape → (phi : ℕ) → Value → (next : ℕ) → Option GemProgress
unfolding find_store find_exit_test find_slots
find_progress_of s phi latch_value next = bind (find_store s next) (λ st. bind s.compare (λ c.
    bind (find_exit_test s c next) (λ t. bind (find_slots s st.ptr t.1.ptr) (λ slots. some (record {
      progress = st;
      slot = slots.0;
      bound_slot = slots.1;
      bound_load = t.1;
      phi = phi;
      next = latch_value;
      predicate = t.0;
      lhs = c.lhs;
      rhs = c.rhs;
    })))))

-- `findProgressStore`
unfoldable pub find_progress_store : GemShape → Option GemProgress
unfolding find_progress_of strip_integer_casts
find_progress_store s = check (present s.latch) (
    bind s.induction (λ phi.
      bind s.next
        (λ v. bind (number_of (strip_integer_casts v)) (λ next. find_progress_of s phi v next))))

abbrev pub same_predicate : Predicate → Predicate → Bool
same_predicate ult ult = true
same_predicate slt slt = true
same_predicate _ _ = false

-- `matchExitCondition`, on the compare of a branch: the load of the bound.
unfoldable pub match_exit_condition :
    GemShape → Option GemCompare → (bound_slot : ℕ) → Predicate → Option Load
unfolding bound_root resolve_alloca
match_exit_condition s branch bound_slot p = bind branch (λ c. bind c.predicate (λ q.
    check (same_predicate q p && c.one_use) (
      bind (bound_root s.one_use c.rhs) (λ id. bind (s.load_of id) (λ ld.
        check
          (ld.volatile
            && s.one_use (instruction id ValueType.other)
            && same (resolve_alloca (s.pointer ld.ptr)) (some bound_slot))
          (some ld))))))

abbrev pub is_value : ℕ → Operand → Bool
is_value n (value v) = is_instruction n (strip_integer_casts v)
is_value n (constant k) = false

abbrev pub is_one : Operand → Bool
is_one (constant k) = k == 1
is_one (value v) = false

unfoldable pub unit_stride : (phi : ℕ) → Operand × Operand → Bool
unfolding strip_integer_casts
unit_stride phi ops =
    if is_value phi ops.0 then is_one ops.1 else if is_value phi ops.1 then is_one ops.0 else false

-- `cloneCleanupLoop`: whether it clones the loop.
unfoldable pub clone_cleanup_loop : GemShape → (phi : ℕ) → Bool
unfolding unit_stride
clone_cleanup_loop s phi =
    s.block_count == 1
    && same (some s.header) s.latch
    && present s.preheader
    && present s.exit
    && (elim s.exit_phis [ [] ↦ true | p ∷ ps ↦ false ])
    && s.preheader_branch
    && (elim s.increment [ none ↦ false | some ops ↦ unit_stride phi ops ])
