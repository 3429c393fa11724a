-- ===== src/Unroll/Probe/Alike.antt =====
-- fablepass, the probe: it does what the loop does, at 32 bits and with no casts.
use spork_llvm.Base.{
  ℕ, zero, suc, ◌+◌, ◌-◌, ◌^◌, ◌<◌, ◌≤◌, ◌≡◌, true, false, some, refl, sym, ap, ◌∙◌, arith, u32_mod,
  Bool-cases, inl, inr,
}
use spork_llvm.Unroll.{i32, Predicate, ult, slt, key, icmp}
use spork_llvm.Unroll.Guard.{plain}
use spork_llvm.Unroll.Probe.{probe_count, next_at, probe_loop, run_probe, written_loop}

-- How many rounds there are from `start` to `bound`, in the order of the predicate.
abbrev pub distance : Predicate → (start bound : ℕ) → ℕ
distance p start bound = key p i32 bound - key p i32 start

-- Where the signed difference does not overflow.
abbrev pub Representable : Predicate → ℕ → Type 0
Representable ult d = Unit {0}
Representable slt d = d < 2 ^ 31

tests_alike :
    (p : Predicate) (start bound idx : ℕ)
    → start < u32_mod
    → bound < u32_mod
    → key p i32 start < key p i32 bound
    → Representable p (distance p start bound)
    → idx < distance p start bound
    → icmp p i32 (next_at (plain p) idx 1) (probe_count (plain p) start bound)
      ≡ icmp p i32 (next_at (plain p) (next_at (plain p) start idx) 1) bound
unfolding probe_count
tests_alike ult start bound idx hs hb lt rep h = ground arith
tests_alike slt start bound idx hs hb lt rep h = ground arith

-- What the test decides.
tests_on :
    (p : Predicate) (start bound idx : ℕ)
    → start < u32_mod
    → bound < u32_mod
    → key p i32 start < key p i32 bound
    → idx < distance p start bound
    → icmp p i32 (next_at (plain p) (next_at (plain p) start idx) 1) bound ≡ true
    → idx + 1 < distance p start bound
tests_on ult start bound idx hs hb lt h e = ground arith
tests_on slt start bound idx hs hb lt h e = ground arith

tests_off :
    (p : Predicate) (start bound idx : ℕ)
    → start < u32_mod
    → bound < u32_mod
    → key p i32 start < key p i32 bound
    → idx < distance p start bound
    → icmp p i32 (next_at (plain p) (next_at (plain p) start idx) 1) bound ≡ false
    → next_at (plain p) (next_at (plain p) start idx) 1 ≡ bound
tests_off ult start bound idx hs hb lt h e = ground arith
tests_off slt start bound idx hs hb lt h e = ground arith

distance-fits :
    (p : Predicate) (start bound : ℕ) → bound < u32_mod → distance p start bound < u32_mod
distance-fits ult start bound h = omega arith
distance-fits slt start bound h = omega arith

next_at-sum :
    (p : Predicate) (start idx : ℕ)
    → next_at (plain p) (next_at (plain p) start idx) 1
      ≡ next_at (plain p) start (next_at (plain p) idx 1)
next_at-sum p start idx = omega arith

module _ {A : Type 0} (p : Predicate) (body : ℕ → A → A) (start bound : ℕ) (hs : start < u32_mod)
    (hb : bound < u32_mod) (lt : key p i32 start < key p i32 bound)
    (rep : Representable p (distance p start bound)) where
  probe_more :
      (fuel idx : ℕ) (a : A)
      → icmp p i32 (next_at (plain p) idx 1) (probe_count (plain p) start bound) ≡ true
      → probe_loop (plain p) body start (probe_count (plain p) start bound) (suc fuel) idx a
        ≡ probe_loop
            (plain p)
            body
            start
            (probe_count (plain p) start bound)
            fuel
            (next_at (plain p) idx 1)
            (body (next_at (plain p) start idx) a)
  unfolding probe_loop
  probe_more fuel idx a e = rw (e, probe_loop) refl

  probe_last :
      (fuel idx : ℕ) (a : A)
      → icmp p i32 (next_at (plain p) idx 1) (probe_count (plain p) start bound) ≡ false
      → probe_loop (plain p) body start (probe_count (plain p) start bound) (suc fuel) idx a
        ≡ some (
          next_at (plain p) (next_at (plain p) start idx) 1,
          body (next_at (plain p) start idx) a,
        )
  unfolding probe_loop
  probe_last fuel idx a e = rw (e, probe_loop) refl

  written_more :
      (fuel i : ℕ) (a : A)
      → icmp p i32 (next_at (plain p) i 1) bound ≡ true
      → written_loop (plain p) body bound (suc fuel) i a
        ≡ written_loop (plain p) body bound fuel (next_at (plain p) i 1) (body i a)
  unfolding written_loop
  written_more fuel i a e = rw (e, written_loop) refl

  written_last :
      (fuel i : ℕ) (a : A)
      → icmp p i32 (next_at (plain p) i 1) bound ≡ false
      → written_loop (plain p) body bound (suc fuel) i a ≡ some (next_at (plain p) i 1, body i a)
  unfolding written_loop
  written_last fuel i a e = rw (e, written_loop) refl

  probe_loop-written_loop :
      (fuel idx : ℕ) (a : A)
      → idx < distance p start bound
      → distance p start bound ≤ idx + fuel
      → (r : ℕ × A) × (probe_loop
            (plain p)
            body
            start
            (probe_count (plain p) start bound)
            fuel
            idx
            a
          ≡ some r)
        × (written_loop (plain p) body bound fuel (next_at (plain p) start idx) a ≡ some r)
        × (r.0 ≡ bound)
  probe_loop-written_loop zero idx a h f = absurd (omega arith)
  probe_loop-written_loop (suc fuel) idx a h f =
      let q = tests_alike p start bound idx hs hb lt rep h in
      let i : ℕ = next_at (plain p) start idx in
      elim (Bool-cases (icmp p i32 (next_at (plain p) i 1) bound)) [
        | inl e ↦
            let m = tests_on p start bound idx hs hb lt h e in
            let d = distance-fits p start bound hb in
            let z : next_at (plain p) idx 1 ≡ idx + 1 = omega (arith, m, d) in
            let (r, x, y, b) = probe_loop-written_loop fuel (idx + 1) (body i a) m (omega arith) in
            (
              r,
              probe_more fuel idx a (q ∙ e)
                  ∙ ap
                      (λ k.
                        probe_loop (plain p) body start (probe_count (plain p) start bound) fuel k
                          (body i a))
                      z
                  ∙ x,
              written_more fuel i a e
                  ∙ ap (λ k. written_loop (plain p) body bound fuel k (body i a))
                      (next_at-sum p start idx ∙ ap (next_at (plain p) start) z)
                  ∙ y,
              b,
            )
        | inr e ↦ (
          (next_at (plain p) i 1, body i a),
          probe_last fuel idx a (q ∙ e),
          written_last fuel i a e,
          tests_off p start bound idx hs hb lt h e,
        )
      ]

  -- On a range that is not empty and whose length is representable the probe does what the loop as
  -- written does if nobody changes its bound: as many rounds of fuel as there are indices are enough
  -- for both, they return the same index, which is the bound, and the same accumulator.
  pub run_probe-written_loop :
      (fuel : ℕ) (a : A)
      → distance p start bound ≤ fuel
      → (r : ℕ × A) × (run_probe (plain p) body start bound fuel a ≡ some r)
        × (written_loop (plain p) body bound fuel start a ≡ some r)
        × (r.0 ≡ bound)
  unfolding run_probe
  run_probe-written_loop fuel a f =
      let (r, x, y, b) = probe_loop-written_loop fuel 0 a (omega (arith, lt)) (omega (arith, f)) in
      let z : next_at (plain p) start 0 ≡ start = omega (arith, hs) in
      (r, x, ap (λ k. written_loop (plain p) body bound fuel k a) (sym z) ∙ y, b)

count_negative :
    (start bound : ℕ)
    → start < u32_mod
    → bound < u32_mod
    → 2 ^ 31 ≤ distance slt start bound
    → icmp slt i32 (next_at (plain slt) 0 1) (probe_count (plain slt) start bound) ≡ false
unfolding probe_count
count_negative start bound hs hb h = ground arith

-- On a signed range of 2^31 indices or more the subtraction of the probe overflows, and the probe, with
-- the bits that it gives, stops after one round, while the loop as written goes on.
pub run_probe-stops :
    {A : Type 0} (body : ℕ → A → A) (start bound fuel : ℕ) (a : A)
    → start < u32_mod
    → bound < u32_mod
    → 2 ^ 31 ≤ distance slt start bound
    → (run_probe (plain slt) body start bound (suc fuel) a
        ≡ some (
          next_at (plain slt) (next_at (plain slt) start 0) 1,
          body (next_at (plain slt) start 0) a,
        ))
      × (written_loop (plain slt) body bound (suc fuel) start a
          ≡ written_loop (plain slt) body bound fuel (next_at (plain slt) start 1) (body start a))
unfolding run_probe probe_loop written_loop
run_probe-stops body start bound fuel a hs hb h =
    let e = count_negative start bound hs hb h in
    let w : icmp slt i32 (next_at (plain slt) start 1) bound ≡ true = ground arith in
    (rw (e, run_probe, probe_loop) refl, rw (w, written_loop) refl)
