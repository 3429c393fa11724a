-- ===== src/Gem/Guard.antt =====
-- gempass, `replayIntegerCastChain` and `createBatchGuard`.
use spork_llvm.Base.{
  ℕ, ◌+◌, ◌-◌, ◌%◌, ◌<◌, ◌≤◌, ◌≡◌, Bool, false, not, ◌&&◌, List, [], ◌∷◌, Option, none, some, refl,
  sym, ap, ◌∙◌, arith, ltb, if◌then◌else◌, ◌==◌, Bool-cases, inl, inr,
}
use spork_llvm.Unroll.{
  Width, i32, i64, modulus, Predicate, ult, slt, icmp, add_overflows, run_casts, last_width,
  Protocol, batch_guard, CastStep, Value, int, other, instruction, cast, type_of, capture, replay,
}

-- The guard, which adds an offset of 0 too.
unfoldable pub gem_guard : Protocol → (count base bound : ℕ) → Bool
gem_guard p count base bound =
    let offset : ℕ = (count - 1) % modulus p.base_type in
    let last : ℕ = (base + offset) % modulus p.base_type in
    let overflow : Bool = add_overflows p.predicate p.base_type base offset in
    let in_bounds : Bool =
      icmp p.predicate (last_width p.base_type p.next_casts)
        (run_casts p.base_type p.next_casts last) (run_casts p.bound_type p.bound_casts bound) in
    not overflow && in_bounds

-- `replayIntegerCastChain`, without the list of casts between its two loops: the casts from the root
-- up to the template, on another root. The root is an instruction and no cast. `none` is unreachable
-- code.
unfoldable pub replay_chain : (template : Value) (root : ℕ) (replacement : Value) → Option Value
replay_chain (instruction n t) root r = if n == root then some r else none
replay_chain (cast op (int src) (int dest) v) root r = elim (replay_chain v root r) [
  | none ↦ none
  | some w ↦ some (cast op (type_of w) (int dest) w)
]
replay_chain (cast op _ _ v) root r = none

no_overflow :
    (p : Predicate) (w : Width) (base : ℕ) → base < modulus w → add_overflows p w base 0 ≡ false
no_overflow ult i32 base h = ground arith
no_overflow ult i64 base h = ground arith
no_overflow slt i32 base h = ground arith
no_overflow slt i64 base h = ground arith

same_last : (w : Width) (base : ℕ) → base < modulus w → (base + 0) % modulus w ≡ base
same_last i32 base h = omega arith
same_last i64 base h = omega arith

zero_offset : (w : Width) (count : ℕ) → count ≤ 1 → (count - 1) % modulus w ≡ 0
zero_offset i32 count h = omega arith
zero_offset i64 count h = omega arith

-- For every count, every predicate and all casts the guards of the two passes decide alike, at a base
-- that fits its type.
pub gem_guard-batch_guard :
    (p : Protocol) (count base bound : ℕ)
    → base < modulus p.base_type
    → gem_guard p count base bound ≡ batch_guard p count base bound
unfolding gem_guard batch_guard
gem_guard-batch_guard p count base bound h = elim (Bool-cases (ltb 1 count)) [
  | inl e ↦ rw e refl
  | inr e ↦
      let c : count ≤ 1 = ground arith in
      rw
        (
          e,
          zero_offset p.base_type count c,
          same_last p.base_type base h,
          no_overflow p.predicate p.base_type base h,
        )
        refl
]

-- What `capture` finds, put on a replacement.
replay_chain-replay :
    (v : Value) (root : ℕ) (r : Value) (steps chain : List CastStep)
    → capture v root steps ≡ some chain
    → (w : Value) × (replay_chain v root r ≡ some w) × (replay chain r ≡ replay steps w)
unfolding capture replay_chain replay
replay_chain-replay (instruction n t) root r steps chain e = elim (Bool-cases (n == root)) [
  | inl q ↦
      let e' = rw q at e in
      let z : steps ≡ chain = cc in (r, rw q refl, ap (λ s. replay s r) (sym z))
  | inr q ↦ let e' = rw q at e in absurd cc
]
replay_chain-replay (cast op (int src) (int dest) v) root r steps chain e =
    let (w, q, p) =
      replay_chain-replay v root r (record { op = op; dest = dest } ∷ steps) chain e in
    (cast op (type_of w) (int dest) w, rw (q, replay_chain) refl, p)
replay_chain-replay (cast op (int src) other v) root r steps chain e = absurd cc
replay_chain-replay (cast op other dest v) root r steps chain e = absurd cc

-- Where `CastChain::capture` of the one pass finds a chain, `replayIntegerCastChain` of the other does
-- not run into its unreachable branch, and builds what `CastChain::replay` builds.
pub replay_chain-eq-replay :
    (v : Value) (root : ℕ) (r : Value) (chain : List CastStep)
    → capture v root [] ≡ some chain
    → replay_chain v root r ≡ some (replay chain r)
unfolding replay
replay_chain-eq-replay v root r chain e =
    let (w, q, p) = replay_chain-replay v root r [] chain e in q ∙ ap some (sym p)
