-- ===== src/Unroll/Guard.antt =====
-- What the guard of a batch decides.
use spork_llvm.Base.{ℕ, ◌+◌, ◌-◌, ◌^◌, ◌<◌, ◌≤◌, ◌≡◌, ◌↔◌, true, [], ◌∷◌, refl, arith, u32_mod}
use spork_llvm.Unroll.{i32, i64, trunc, zext, Protocol, Predicate, ult, slt, key, batch_guard}

-- The test of the loop as written: `next < loop_end` at 32 bits.
abbrev pub plain : Predicate → Protocol
plain p = record {
  predicate = p;
  base_type = i32;
  bound_type = i32;
  next_casts = [];
  bound_casts = [];
}

-- The index is widened, as `size_t` or by LLVM, and the bound is extended.
abbrev pub widened : Protocol
widened = record {
  predicate = ult;
  base_type = i64;
  bound_type = i32;
  next_casts = [];
  bound_casts = record { op = zext; dest = i64 } ∷ [];
}

-- The index is widened, and truncated for the test.
abbrev pub truncated : Protocol
truncated = record {
  predicate = ult;
  base_type = i64;
  bound_type = i32;
  next_casts = record { op = trunc; dest = i32 } ∷ [];
  bound_casts = [];
}

-- At 32 bits the guard holds exactly if all the iterations of the batch are below the bound, with no
-- wrap-around, in the order of the predicate; the batch has at most 2^31 iterations.
pub batch_guard-exact :
    (p : Predicate) (count base bound : ℕ)
    → 1 ≤ count
    → count ≤ 2 ^ 31
    → base < u32_mod
    → bound < u32_mod
    → (batch_guard (plain p) count base bound ≡ true) ↔ (key p i32 base + count ≤ key p i32 bound)
unfolding batch_guard
batch_guard-exact ult count base bound c1 c hb he = (λ e. ground arith, λ h. ground arith)
batch_guard-exact slt count base bound c1 c hb he = (λ e. ground arith, λ h. ground arith)

-- So it does with a widened index that stays below 2^32 and a bound extended by zeros.
pub batch_guard-widened :
    (count base bound : ℕ)
    → 1 ≤ count
    → count < u32_mod
    → base < u32_mod
    → bound < u32_mod
    → (batch_guard widened count base bound ≡ true) ↔ (base + count ≤ bound)
unfolding batch_guard
batch_guard-widened count base bound c1 c hb he = (λ e. ground arith, λ h. ground arith)

-- With a widened index that the test truncates, every batch of three iterations or more is let in at
-- some index below the bound with a single iteration left: the sum wraps at the width of the
-- test, and overflow is looked for at the width of the index.
pub batch_guard-overshoots :
    (count : ℕ)
    → 3 ≤ count
    → count < 2 ^ 31
    → (base : ℕ) × (bound : ℕ) × (base < u32_mod)
      × (bound < u32_mod)
      × (base + 1 ≡ bound)
      × (batch_guard truncated count base bound ≡ true)
unfolding batch_guard
batch_guard-overshoots count c3 c =
    (2 ^ 32 - 2, 2 ^ 32 - 1, omega arith, omega arith, refl, ground arith)
