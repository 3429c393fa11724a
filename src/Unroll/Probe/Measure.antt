-- ===== src/Unroll/Probe/Measure.antt =====
-- fablepass, `measureProbe` and the end of `buildProbe`: the batch that LLVM has formed, read off the
-- loops that it has left in the probe. Child: which batch that is (Largest).
pub mod Largest
use spork_llvm.Base.{
  ℕ, zero, suc, ◌%◌, ◌<◌, Bool, true, false, not, ◌&&◌, ◌||◌, List, [], ◌∷◌, if◌then◌else◌, ◌==◌,
  ltb, Option, none, some, u32_mod,
}

-- What scalar evolution says of a header PHI: no add recurrence of the loop, one whose step is not
-- constant, or one by a constant, given by its sign and its size.
pub data Recurrence : Type 0 where
  opaque : Recurrence
  varying : Recurrence
  by_steps : (negative : Bool) → (size : ℕ) → Recurrence

-- A header PHI of a loop of the probe: the width of its type if that is an integer type, its
-- recurrence, its value from the latch and from the preheader.
pub record ProbePhi : Type 0 where
  pub bits : Option ℕ
  pub recurrence : Recurrence
  pub from_latch : ℕ
  pub from_preheader : ℕ

-- The step of a header PHI that counts for the batch; 0 is none.
abbrev pub constant_step : ProbePhi → ℕ
constant_step phi = elim phi.bits [
  | none ↦ 0
  | some w ↦ (elim phi.recurrence [ opaque ↦ 0 | varying ↦ 0 | by_steps sign size ↦ size ])
]

-- `S && (!MinStep || S < MinStep)`, and the same of the lanes.
abbrev pub lower : (least s : ℕ) → ℕ
lower least s = if not (s == 0) && ((least == 0) || ltb s least) then s else least

-- `MinStep`.
unfoldable pub least_step : List ProbePhi → (least : ℕ) → ℕ
least_step [] least = least
least_step (phi ∷ phis) least = least_step phis (lower least (constant_step phi))

-- `MinVF`, of the numbers of elements of the vector results in the loop.
unfoldable pub least_lanes : List ℕ → (least : ℕ) → ℕ
least_lanes [] least = least
least_lanes (n ∷ ns) least = least_lanes ns (if (least == 0) || ltb n least then n else least)

-- The `ProbeResult`.
pub record ProbeResult : Type 0 where
  pub largest : ℕ
  pub vector_width : ℕ

abbrev pub no_batch : ProbeResult
no_batch = record { largest = 1; vector_width = 0 }

-- What one loop of the probe makes of the result; `Batch` is an unsigned of 32 bits.
unfoldable pub measure_loop : List ProbePhi → List ℕ → ProbeResult → ProbeResult
measure_loop phis lanes r =
    if ltb r.largest (least_step phis 0)
    then record { largest = least_step phis 0 % u32_mod; vector_width = least_lanes lanes 0 }
    else r

-- `measureProbe`, over the loops in preorder.
unfoldable pub measure_probe : List (List ProbePhi × List ℕ) → ProbeResult → ProbeResult
unfolding measure_loop
measure_probe [] r = r
measure_probe ((phis, lanes) ∷ loops) r = measure_probe loops (measure_loop phis lanes r)

-- What `buildProbe` keeps of it.
unfoldable pub probe_result : (max_batch : ℕ) → List (List ProbePhi × List ℕ) → ProbeResult
unfolding measure_probe
probe_result max_batch loops =
    let r = measure_probe loops no_batch in if ltb max_batch r.largest then no_batch else r
