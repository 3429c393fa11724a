-- ===== src/Unroll/Transplant/Sink.antt =====
-- fablepass, `SinkPlan`: which users of the snapshot limit feed a use behind the exit of a step loop,
-- and whether the limit may be replaced there. Children: the visit of one use (Visits), what is noted
-- (Noted), what the plan decides (Planned).
pub mod Visits
pub mod Noted
pub mod Planned
use spork_llvm.Base.{
  ℕ, zero, suc, ◌+◌, Bool, true, false, not, ◌||◌, List, [], ◌∷◌, Option, none, some, if◌then◌else◌,
  ◌==◌,
}

-- A user: no instruction, a PHI or a terminator, an instruction with memory or side effects, or a pure
-- one by its number.
pub data User : Type 0 where
  not_instruction : User
  merge : User
  effect : User
  pure : ℕ → User

-- A use: whether its user is the compare that is skipped, and whether the exit dominates it.
pub record Use : Type 0 where
  pub skipped : Bool
  pub past_exit : Bool
  pub user : User

-- `Needs` and `Failure`.
pub record Sinking : Type 0 where
  pub needs : List (ℕ × Bool)
  pub failure : Bool

abbrev pub lookup_needs : ℕ → List (ℕ × Bool) → Option Bool
lookup_needs v [] = none
lookup_needs v ((u, b) ∷ ns) = if u == v then some b else lookup_needs v ns

abbrev pub fail_sink : Sinking → Sinking
fail_sink s = record s { failure = true }

-- `visitUse`, where `visit` is the call of `needs`.
unfoldable pub visit_use : (ℕ → Sinking → Bool × Sinking) → Use → Sinking → Bool × Sinking
visit_use visit u s =
    if u.skipped then (false, s) else if u.past_exit then (true, s) else (elim u.user [
      | not_instruction ↦ (false, fail_sink s)
      | merge ↦ (false, s)
      | effect ↦ (false, fail_sink s)
      | pure w ↦ visit w s
    ])

-- The loop over the uses.
unfoldable pub visit_uses : (ℕ → Sinking → Bool × Sinking) → List Use → Sinking → Bool × Sinking
unfolding visit_use
visit_uses visit [] s = (false, s)
visit_uses visit (u ∷ us) s =
    let first = visit_use visit u s in
    let rest = visit_uses visit us first.1 in (first.0 || rest.0, rest.1)

abbrev pub note_need : ℕ → Bool → Sinking → Sinking
note_need v b s = record s { needs = (v, b) ∷ s.needs }

-- `needs`, with as much fuel as the calls go deep.
unfoldable pub visit_needs : (ℕ → List Use) → (fuel : ℕ) → ℕ → Sinking → Bool × Sinking
unfolding visit_uses
visit_needs uses zero v s = (false, s)
visit_needs uses (suc fuel) v s = elim (lookup_needs v s.needs) [
  | some b ↦ (b, s)
  | none ↦
      let r = visit_uses (visit_needs uses fuel) (uses v) (note_need v false s) in
      (r.0, note_need v r.0 r.1)
]

-- `plan`: what it has noted, if nothing failed.
unfoldable pub plan_sink :
    (ℕ → List Use) → (fuel : ℕ) → (root : List Use) → Option (List (ℕ × Bool))
unfolding visit_uses visit_needs
plan_sink uses fuel root =
    let r = visit_uses (visit_needs uses fuel) root (record { needs = []; failure = false }) in
    if r.1.failure then none else some r.1.needs
