-- ===== src/Gem/Form.antt =====
-- gempass: what `formBatchedLoopWithCleanup` validates before it rewrites anything, and
-- `transformMarkedLoops` for one marker. Child: what a batched loop has passed (Passed).
pub mod Passed
use spork_llvm.Base.{
  ℕ, Bool, true, false, not, ◌&&◌, List, [], ◌∷◌, Option, none, some, if◌then◌else◌, ◌==◌, length,
}
use spork_llvm.Unroll.Recognise.{Instr, present}
use spork_llvm.Gem.Marker.{Bridges, find_marked_loop}
use spork_llvm.Gem.Progress.{
  GemCompare, GemShape, GemProgress, find_progress_store, match_exit_condition, clone_cleanup_loop,
}
use spork_llvm.Gem.Decide.{LoopFacts, Decision, has_unbounded_work, native_unroll_decision}
use spork_llvm.Gem.Driver.{UnrollResult, unmodified, GemMarker}

-- A tagged store of the unrolled loop: its number, the compare of its block's conditional branch, and
-- whether the loop contains the first and the second successor.
pub record Clone : Type 0 where
  pub id : ℕ
  pub branch : Option GemCompare
  pub first_in_loop : Bool
  pub second_in_loop : Bool

-- The loop that `UnrollLoop` has left: its tagged stores as `llvm::sort` leaves them, the order
-- `comesBeforeInUnrolledChain`, and the PHIs of the header with their inputs from the final latch.
pub record MainLoop : Type 0 where
  pub preheader : Option ℕ
  pub stores : List Clone
  pub comes_before : ℕ → ℕ → Bool
  pub phis : List (ℕ × Option ℕ)

unfoldable pub in_chain : (ℕ → ℕ → Bool) → List Clone → Bool
in_chain before [] = true
in_chain before (c ∷ []) = true
in_chain before (c ∷ d ∷ cs) = before c.id d.id && in_chain before (d ∷ cs)

-- The condition is matched, and exactly one successor is in the loop.
abbrev pub checked_clone : GemShape → GemProgress → Clone → Bool
checked_clone s p c =
    present (match_exit_condition s c.branch p.bound_slot p.predicate)
    && (if c.first_in_loop then not c.second_in_loop else c.second_in_loop)

unfoldable pub checked_clones : GemShape → GemProgress → List Clone → Bool
unfolding match_exit_condition
checked_clones s p [] = true
checked_clones s p (c ∷ cs) = checked_clone s p c && checked_clones s p cs

unfoldable pub final_values : List (ℕ × Option ℕ) → Bool
final_values [] = true
final_values ((phi, v) ∷ phis) = present v && final_values phis

unfoldable pub has_phi : ℕ → List (ℕ × Option ℕ) → Bool
has_phi n [] = false
has_phi n ((phi, v) ∷ phis) = let rest = has_phi n phis in if phi == n then true else rest

-- The validation of `formBatchedLoopWithCleanup`.
unfoldable pub can_form : GemShape → GemProgress → MainLoop → (count : ℕ) → Bool
unfolding in_chain checked_clones final_values has_phi
can_form s p m count =
    present m.preheader
    && present s.exit
    && (elim s.exit_phis [ [] ↦ true | n ∷ ns ↦ false ])
    && length m.stores == count
    && in_chain m.comes_before m.stores
    && checked_clones s p m.stores
    && final_values m.phis
    && has_phi p.phi m.phis

-- A marker and what LLVM says of the loops of its function; `unroll` and `main_loop` are what
-- `UnrollLoop` makes of a loop with a count.
pub record GemSite : Type 0 where
  pub token : Option ℕ
  pub marker_block : ℕ
  pub bridges : Bridges
  pub shape : ℕ → GemShape
  pub sub_loops : ℕ → List ℕ
  pub code : ℕ → List Instr
  pub facts : ℕ → LoopFacts
  pub unroll : ℕ → ℕ → UnrollResult
  pub main_loop : ℕ → ℕ → MainLoop

abbrev pub count_of : Option Decision → Option ℕ
count_of none = none
count_of (some d) = some d.count

abbrev pub unroll_of : GemSite → ℕ → Option ℕ → UnrollResult
unroll_of s l none = unmodified
unroll_of s l (some count) = s.unroll l count

abbrev pub formed_of : GemSite → ℕ → GemProgress → Option ℕ → Bool
formed_of s l p none = false
formed_of s l p (some count) = can_form (s.shape l) p (s.main_loop l count) count

-- A marker with a loop and a progress store.
abbrev pub candidate : GemSite → ℕ → GemProgress → GemMarker
candidate s l p =
    let count : Option ℕ = count_of (native_unroll_decision (s.facts l)) in
    record {
      token = s.token;
      supported = not (has_unbounded_work (s.sub_loops l) (s.code l));
      decision = count;
      cleanup = clone_cleanup_loop (s.shape l) p.phi;
      unroll = unroll_of s l count;
      formed = formed_of s l p count;
    }

abbrev pub unsupported : Option ℕ → GemMarker
unsupported token = record {
  token = token;
  supported = false;
  decision = none;
  cleanup = false;
  unroll = unmodified;
  formed = false;
}

-- `transformMarkedLoops` for one marker, up to the choice of the factor.
unfoldable pub gem_marker : GemSite → GemMarker
unfolding find_marked_loop find_progress_store native_unroll_decision has_unbounded_work
    clone_cleanup_loop can_form
gem_marker s = elim (find_marked_loop s.bridges s.marker_block) [
  | none ↦ unsupported s.token
  | some l ↦ elim (find_progress_store (s.shape l)) [
    | none ↦ unsupported s.token
    | some p ↦ candidate s l p
  ]
]
