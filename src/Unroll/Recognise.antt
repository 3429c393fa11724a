-- ===== src/Unroll/Recognise.antt =====
-- fablepass, `matchLoopProtocol` and `isWalkBarrier`: which loops the pass takes for the loop of
-- `parfor_`. What LLVM's analyses say of a loop is in the record `LoopShape`. Children: the rest of the
-- match (Match), and what an accepted loop is like (Accepted, Follows).
pub mod Match
pub mod Accepted
pub mod Follows
use spork_llvm.Base.{
  ℕ, zero, suc, Bool, true, false, not, ◌&&◌, ◌||◌, List, [], ◌∷◌, Option, none, some,
  if◌then◌else◌, ◌==◌,
}
use spork_llvm.Unroll.{
  Value, ValueType, int, other, instruction, cast, CastStep, Predicate, capture,
  strip_integer_casts,
}

-- What is called: a valid marker, an intrinsic of one of three kinds, or anything else.
pub data Callee : Type 0 where
  marker : Callee
  assume_like : Callee
  no_memory : Callee
  memory : Callee
  function : Callee

pub record Load : Type 0 where
  pub id : ℕ
  pub volatile : Bool
  pub atomic : Bool
  pub integer : Bool
  pub ptr : ℕ

pub record Store : Type 0 where
  pub id : ℕ
  pub volatile : Bool
  pub atomic : Bool
  pub value : Value
  pub ptr : ℕ

pub data Kind : Type 0 where
  load : Load → Kind
  store : Store → Kind
  call : Callee → Kind
  invoke : Kind
  atomic_rmw : Kind
  cmpxchg : Kind
  fence : Kind
  plain : Kind

pub record Instr : Type 0 where
  pub kind : Kind
  pub may_throw : Bool

unfoldable pub is_harmless_call : Callee → Bool
is_harmless_call assume_like = true
is_harmless_call no_memory = true
is_harmless_call _ = false

abbrev pub is_barrier : Kind → Bool
is_barrier (call marker) = true
is_barrier (call c) = not (is_harmless_call c)
is_barrier (store s) = s.volatile || s.atomic
is_barrier invoke = true
is_barrier fence = true
is_barrier atomic_rmw = true
is_barrier cmpxchg = true
is_barrier _ = false

unfoldable pub is_walk_barrier : List Instr → Bool
unfolding is_harmless_call
is_walk_barrier [] = false
is_walk_barrier (i ∷ is) = is_barrier i.kind || is_walk_barrier is

-- `getInductionVariable` with its recurrence: `step` if it is one of this loop, with a constant step.
pub record Induction : Type 0 where
  pub integer : Bool
  pub step : Option ℕ
  pub next : Value
  pub next_in_loop : Bool

pub record HeaderPhi : Type 0 where
  pub init : Option ℕ
  pub latch_val : Option ℕ

-- The condition of the latch; `predicate` if it is `<`, signed or unsigned.
pub record Compare : Type 0 where
  pub one_use : Bool
  pub predicate : Option Predicate
  pub lhs : Value
  pub rhs : Value

-- A load from the slot of the progress: whether the loop contains it, and whether it dominates the marker.
pub record SlotLoad : Type 0 where
  pub in_loop : Bool
  pub dominates_marker : Bool

pub record LoopShape : Type 0 where
  pub simplify_form : Bool
  pub lcssa_form : Bool
  pub sub_loops : List ℕ
  pub header : ℕ
  pub preheader : Option ℕ
  pub latch : Option ℕ
  pub exit : Option ℕ
  pub exiting : Option ℕ
  pub preheader_branch : Bool  -- unconditional
  pub latch_successors : Option (ℕ × ℕ)
  pub induction : Option Induction
  pub phis : List HeaderPhi
  pub latch_code : List Instr
  pub code : List Instr  -- of all blocks, the latch's included
  pub compare : Option Compare
  pub one_use : Value → Bool
  pub defined_in_loop : ℕ → Bool
  pub resolved_alloca : ℕ → Option ℕ
  pub slot_loads : ℕ → List SlotLoad
  pub exit_phis : List (Option ℕ)  -- the latch inputs

-- The part of `LoopProtocol` that says what the loop does.
pub record Matched : Type 0 where
  pub next : ℕ
  pub progress : Store
  pub progress_casts : List CastStep
  pub predicate : Predicate
  pub next_casts : List CastStep
  pub bound : Load
  pub bound_casts : List CastStep

-- `if (!test) return nullopt;`, and a step that may fail.
unfoldable pub check {ℓ} : {B : Type ℓ} → Bool → Option B → Option B
check true r = r
check false r = none

unfoldable pub bind {ℓ} : {A B : Type ℓ} → Option A → (A → Option B) → Option B
bind none f = none
bind (some a) f = f a

abbrev pub same : Option ℕ → Option ℕ → Bool
same none none = true
same (some a) (some b) = a == b
same _ _ = false

abbrev pub present {ℓ} : {A : Type ℓ} → Option A → Bool
present none = false
present (some a) = true

abbrev pub no_more : List ℕ → Bool
no_more [] = true
no_more _ = false

abbrev pub continues : ℕ → Option ℕ → Option (ℕ × ℕ) → Bool
continues header exit none = false
continues header exit (some (s₀, s₁)) = s₀ == header && same (some s₁) exit

unfoldable pub match_shape : LoopShape → Bool
match_shape s =
    s.simplify_form
    && s.lcssa_form
    && no_more s.sub_loops
    && present s.preheader
    && present s.latch
    && present s.exit
    && same s.exiting s.latch
    && s.preheader_branch
    && continues s.header s.exit s.latch_successors

abbrev pub plain_next : Value → Option ℕ
plain_next (instruction n t) = some n
plain_next (cast op src dest v) = none

unfoldable pub match_induction : LoopShape → Option ℕ
match_induction s = bind s.induction (λ ind.
    check ind.integer
      (bind ind.step (λ step. check (step == 1) (check ind.next_in_loop (plain_next ind.next)))))

unfoldable pub match_phis : List HeaderPhi → Bool
match_phis [] = true
match_phis (p ∷ ps) = present p.init && present p.latch_val && match_phis ps

unfoldable pub volatile_stores : List Instr → List Store
volatile_stores [] = []
volatile_stores (i ∷ is) = elim i.kind [
  | store s ↦ if s.volatile then s ∷ volatile_stores is else volatile_stores is
  | _ ↦ volatile_stores is
]

abbrev pub only : List Store → Option Store
only (x ∷ []) = some x
only _ = none

abbrev pub is_instruction : ℕ → Value → Bool
is_instruction n (instruction m t) = n == m
is_instruction n (cast op src dest v) = false

unfoldable pub match_progress : LoopShape → ℕ → Option (Store × List CastStep)
unfolding volatile_stores strip_integer_casts capture
match_progress s next = bind (only (volatile_stores s.latch_code)) (λ st.
    check (is_instruction next (strip_integer_casts st.value) && not (s.defined_in_loop st.ptr))
      (bind (capture st.value next []) (λ casts. some (st, casts))))
