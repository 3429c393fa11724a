-- ===== src/Unroll/Recognise/Match.antt =====
-- fablepass, `matchLoopProtocol` from the exit test on, and the whole of it.
use spork_llvm.Base.{
  ℕ, Bool, true, false, not, ◌&&◌, ◌||◌, List, [], ◌∷◌, Option, none, some, if◌then◌else◌, ◌==◌,
}
use spork_llvm.Unroll.{Value, int, other, instruction, cast, CastStep, Predicate, capture}
use spork_llvm.Unroll.Recognise.{
  Load, Kind, load, store, call, invoke, atomic_rmw, cmpxchg, fence, plain, Instr, is_harmless_call,
  HeaderPhi, SlotLoad, LoopShape, Matched, check, bind, same, match_shape, match_induction,
  match_phis, match_progress,
}

-- The loop over the casts of the bound: each is a cast of integers with a single use.
unfoldable pub bound_root : (Value → Bool) → Value → Option ℕ
bound_root one_use (instruction n t) = some n
bound_root one_use (cast op (int src) (int dest) v) =
    check (one_use (cast op (int src) (int dest) v)) (bound_root one_use v)
bound_root one_use (cast op _ _ v) = none

unfoldable pub find_load : ℕ → List Instr → Option Load
find_load id [] = none
find_load id (i ∷ is) = elim i.kind [
  | load l ↦ if l.id == id then some l else find_load id is
  | _ ↦ find_load id is
]

pub record ExitTest : Type 0 where
  pub predicate : Predicate
  pub next_casts : List CastStep
  pub bound : Load
  pub bound_casts : List CastStep

unfoldable pub match_bound : LoopShape → Value → Option Load
unfolding bound_root find_load
match_bound s rhs = bind (bound_root s.one_use rhs) (λ id. bind (find_load id s.latch_code) (λ ld.
    check
      (ld.volatile
        && s.one_use (instruction id other)
        && ld.integer
        && not (s.defined_in_loop ld.ptr))
      (some ld)))

unfoldable pub match_exit_test : LoopShape → ℕ → Option ExitTest
unfolding match_bound capture
match_exit_test s next = bind s.compare (λ c. check c.one_use (
    bind c.predicate (λ p. bind (capture c.lhs next []) (λ nc. bind (match_bound s c.rhs) (λ ld.
      bind (capture c.rhs ld.id [])
        (λ bc. some (record { predicate = p; next_casts = nc; bound = ld; bound_casts = bc })))))))

unfoldable pub unread : List SlotLoad → Bool
unread [] = true
unread (l ∷ ls) = not l.in_loop && l.dominates_marker && unread ls

unfoldable pub match_slots : LoopShape → (progress_ptr bound_ptr : ℕ) → Bool
unfolding unread
match_slots s progress_ptr bound_ptr = elim (s.resolved_alloca progress_ptr) [
  | none ↦ false
  | some slot ↦ not (same (s.resolved_alloca bound_ptr) (some slot)) && unread (s.slot_loads slot)
]

abbrev pub allowed : (bound progress : ℕ) → Kind → Bool
allowed bound progress (load l) = not (l.volatile || l.atomic) || l.id == bound
allowed bound progress (store s) = not (s.volatile || s.atomic) || s.id == progress
allowed bound progress (call c) = is_harmless_call c
allowed bound progress invoke = false
allowed bound progress atomic_rmw = false
allowed bound progress cmpxchg = false
allowed bound progress fence = false
allowed bound progress plain = true

unfoldable pub match_body : (bound progress : ℕ) → List Instr → Bool
match_body bound progress [] = true
match_body bound progress (i ∷ is) =
    allowed bound progress i.kind && not i.may_throw && match_body bound progress is

unfoldable pub is_latch_val : ℕ → List HeaderPhi → Bool
is_latch_val v [] = false
is_latch_val v (p ∷ ps) = same p.latch_val (some v) || is_latch_val v ps

unfoldable pub match_exit_phis : LoopShape → List (Option ℕ) → Bool
unfolding is_latch_val
match_exit_phis s [] = true
match_exit_phis s (none ∷ vs) = false
match_exit_phis s (some v ∷ vs) =
    (not (s.defined_in_loop v) || is_latch_val v s.phis) && match_exit_phis s vs

-- `matchLoopProtocol`
unfoldable pub match_loop_protocol : LoopShape → Option Matched
unfolding match_shape match_induction match_phis match_progress match_exit_test match_slots
    match_body match_exit_phis
match_loop_protocol s = check (match_shape s) (
    bind (match_induction s) (λ next. check (match_phis s.phis) (
      bind (match_progress s next) (λ pr. bind (match_exit_test s next) (λ t.
        check (match_slots s pr.0.ptr t.bound.ptr) (
          check (match_body t.bound.id pr.0.id s.code) (
            check (match_exit_phis s s.exit_phis) (
              some (record {
                next = next;
                progress = pr.0;
                progress_casts = pr.1;
                predicate = t.predicate;
                next_casts = t.next_casts;
                bound = t.bound;
                bound_casts = t.bound_casts;
              })))))))))
