-- ===== src/Unroll/Transplant/Snapshot.antt =====
-- fablepass, the end of `transplantProbe`'s checks: no loop of the probe may depend on the parameter
-- that is the bound as it was when the probe was called. Children: what a round of the work list does
-- (Rounds), and what the check decides (Decided).
pub mod Rounds
pub mod Decided
use spork_llvm.Base.{
  ℕ, zero, suc, Bool, true, false, not, ◌&&◌, List, [], ◌∷◌, Option, none, some, if◌then◌else◌,
}
use spork_llvm.Unroll.Marked.{is_in}

-- `Snapshot` and `Work`; the top of `Work` stands first.
pub record Tainting : Type 0 where
  pub snapshot : List ℕ
  pub pending : List ℕ

abbrev pub taint_user : ℕ → Tainting → Tainting
taint_user u t =
    if is_in u t.snapshot then t else record { snapshot = u ∷ t.snapshot; pending = u ∷ t.pending }

-- The loop over the users of a value.
unfoldable pub taint_users : List ℕ → Tainting → Tainting
taint_users [] t = t
taint_users (u ∷ us) t = taint_users us (taint_user u t)

-- The loop over `Work`; `none` is the end of the fuel.
unfoldable pub taint_all : (users : ℕ → List ℕ) → (fuel : ℕ) → Tainting → Option (List ℕ)
unfolding taint_users
taint_all users zero t = none
taint_all users (suc fuel) t = elim t.pending [
  | [] ↦ some t.snapshot
  | v ∷ vs ↦ taint_all users fuel (taint_users (users v) (record t { pending = vs }))
]

-- No instruction of the loops is in the set.
unfoldable pub untainted : List ℕ → (code : List ℕ) → Bool
untainted snapshot [] = true
untainted snapshot (i ∷ is) = not (is_in i snapshot) && untainted snapshot is

unfoldable pub snapshot_free :
    (users : ℕ → List ℕ) → (fuel root : ℕ) → (code : List ℕ) → Option Bool
unfolding taint_all untainted
snapshot_free users fuel root code =
    elim (taint_all users fuel (record { snapshot = []; pending = root ∷ [] })) [
      | none ↦ none
      | some snapshot ↦ some (untainted snapshot code)
    ]
