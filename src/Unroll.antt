-- ===== src/Unroll.antt =====
-- fablepass/SporkUnrollPass.cpp: chains of integer casts, and the guard of a batch. Children: what
-- the guard decides (Guard), that a replayed chain is the captured one (Casts), the loop that the pass
-- forms (Batched), the factor that it publishes for each site (Sites), the loops that it accepts
-- (Recognise) and finds (Marked), the probe (Probe) and the loops made of it (Transplant).
pub mod Guard
pub mod Casts
pub mod Batched
pub mod Sites
pub mod Recognise
pub mod Marked
pub mod Transplant
pub mod Probe
use spork_llvm.Base.{
  ℕ, zero, suc, ◌+◌, ◌-◌, ◌/◌, ◌%◌, ◌^◌, Bool, true, false, not, ◌&&◌, List, [], ◌∷◌, Option, none,
  some, if◌then◌else◌, ltb, leb, ◌==◌,
}

-- The integer types that the model has; the source takes any width.
pub data Width : Type 0 where
  i32 : Width
  i64 : Width

abbrev pub modulus : Width → ℕ
modulus i32 = 2 ^ 32
modulus i64 = 2 ^ 64

abbrev pub half : Width → ℕ
half i32 = 2 ^ 31
half i64 = 2 ^ 63

pub data CastOp : Type 0 where
  trunc : CastOp
  zext : CastOp
  sext : CastOp

-- A step of a `CastChain`: the opcode and the destination type.
pub record CastStep : Type 0 where
  pub op : CastOp
  pub dest : Width

pub data ValueType : Type 0 where
  int : Width → ValueType
  other : ValueType

-- An IR value: an instruction that is no cast, by its number, or a cast of a value.
pub data Value : Type 0 where
  instruction : ℕ → ValueType → Value
  cast : CastOp → ValueType → ValueType → Value → Value

abbrev pub type_of : Value → ValueType
type_of (instruction n t) = t
type_of (cast op src dest v) = dest

-- `CastChain::capture`, from the template down to the root. The steps are put in front, so the list
-- needs no reversal at the end.
unfoldable pub capture : Value → ℕ → List CastStep → Option (List CastStep)
capture (instruction n t) root steps = if n == root then some steps else none
capture (cast op (int src) (int dest) v) root steps =
    capture v root (record { op = op; dest = dest } ∷ steps)
capture (cast op _ _ v) root steps = none

-- `CastChain::replay`
unfoldable pub replay : List CastStep → Value → Value
replay [] v = v
replay (s ∷ steps) v = replay steps (cast s.op (type_of v) (int s.dest) v)

-- `stripIntegerCasts`
unfoldable pub strip_integer_casts : Value → Value
strip_integer_casts (instruction n t) = instruction n t
strip_integer_casts (cast op (int src) (int dest) v) = strip_integer_casts v
strip_integer_casts (cast op src dest v) = cast op src dest v

-- What a cast does to the bits of a value of width `src`.
abbrev pub cast_bits : CastOp → Width → Width → ℕ → ℕ
cast_bits trunc src dest v = v % modulus dest
cast_bits zext src dest v = v
cast_bits sext src dest v = if ltb v (half src) then v else v + (modulus dest - modulus src)

abbrev pub run_casts : Width → List CastStep → ℕ → ℕ
run_casts w [] v = v
run_casts w (s ∷ steps) v = run_casts s.dest steps (cast_bits s.op w s.dest v)

abbrev pub last_width : Width → List CastStep → Width
last_width w [] = w
last_width w (s ∷ steps) = last_width s.dest steps

-- `ICMP_ULT` and `ICMP_SLT`
pub data Predicate : Type 0 where
  ult : Predicate
  slt : Predicate

-- Bits in the order of the predicate, from 0 up.
abbrev pub key : Predicate → Width → ℕ → ℕ
key ult w v = v
key slt w v = (v + half w) % modulus w

abbrev pub icmp : Predicate → Width → ℕ → ℕ → Bool
icmp p w a b = ltb (key p w a) (key p w b)

-- The second result of `uadd_with_overflow` and of `sadd_with_overflow`.
abbrev pub add_overflows : Predicate → Width → ℕ → ℕ → Bool
add_overflows ult w a b = leb (modulus w) (a + b)
add_overflows slt w a b =
    if ltb b (half w) then leb (modulus w) (key slt w a + b) else ltb (key slt w a + b) (modulus w)

-- The casts of a loop's exit test.
pub record Protocol : Type 0 where
  pub predicate : Predicate
  pub base_type : Width
  pub bound_type : Width
  pub next_casts : List CastStep
  pub bound_casts : List CastStep

-- The value of what `createBatchGuard` builds, on the bits of the base and of the loaded bound.
unfoldable pub batch_guard : Protocol → (count base bound : ℕ) → Bool
batch_guard p count base bound =
    let offset : ℕ = (count - 1) % modulus p.base_type in
    let last : ℕ = if ltb 1 count then (base + offset) % modulus p.base_type else base in
    let overflow : Bool =
      if ltb 1 count then add_overflows p.predicate p.base_type base offset else false in
    let in_bounds : Bool =
      icmp p.predicate (last_width p.base_type p.next_casts)
        (run_casts p.base_type p.next_casts last) (run_casts p.bound_type p.bound_casts bound) in
    not overflow && in_bounds
