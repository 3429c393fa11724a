-- ===== src/Frame.antt =====
-- pass/RtsSporkPass.cpp: resolving arguments to the allocas of a frame, numbering the sites, and
-- patching frame offsets into the table. Children: addresses and numbers (Resolve), the table (Patch),
-- and the machine pass as a whole (Machine).
pub mod Resolve
pub mod Machine
pub mod Patch
use spork_llvm.Base.{
  ℕ, zero, suc, ◌+◌, ◌*◌, Bool, true, false, ◌&&◌, List, [], ◌∷◌, ◌++◌, Option, none, some,
  if◌then◌else◌, ◌==◌, ltb, leb, length, get_elem?, set,
}

pub data Index : Type 0 where
  constant : ℕ → Index
  variable : ℕ → Index

-- A value that is a pointer; `opaque` is any that is none of the others.
pub data Pointer : Type 0 where
  alloca : ℕ → Pointer
  bit_cast : Pointer → Pointer
  addr_space_cast : Pointer → Pointer
  gep : Pointer → List Index → Pointer
  opaque : ℕ → Pointer

-- `GEPAllZero`
unfoldable pub gep_all_zero : List Index → Bool
gep_all_zero [] = true
gep_all_zero (constant n ∷ is) = n == 0 && gep_all_zero is
gep_all_zero (variable n ∷ is) = false

-- `resolveTo<AllocaInst>`
unfoldable pub resolve_to : Pointer → Option ℕ
unfolding gep_all_zero
resolve_to (alloca a) = some a
resolve_to (bit_cast p) = resolve_to p
resolve_to (addr_space_cast p) = resolve_to p
resolve_to (gep p is) = let r = resolve_to p in if gep_all_zero is then r else none
resolve_to (opaque n) = none

-- A call, of a known function or not, by the function's name; or another instruction.
pub data Instruction : Type 0 where
  call : Option ℕ → List Pointer → Instruction
  other : Instruction

-- `SporkLoopInfo`, its fields `id`, `i` and `j`.
pub record SporkLoopInfo : Type 0 where
  pub id : ℕ
  pub i : ℕ
  pub j : ℕ

-- `tryRecordSporkLoopInfo` once the callee and the number of arguments fit.
unfoldable pub record_args : Pointer → Pointer → List SporkLoopInfo → List SporkLoopInfo
unfolding resolve_to
record_args p q sporks = elim (resolve_to p) [
  | none ↦ sporks
  | some a ↦ elim (resolve_to q) [
    | none ↦ sporks
    | some b ↦ sporks ++ (record { id = length sporks; i = a; j = b } ∷ [])
  ]
]

abbrev pub record_call : List Pointer → List SporkLoopInfo → List SporkLoopInfo
record_call (p ∷ q ∷ []) sporks = record_args p q sporks
record_call _ sporks = sporks

-- `tryRecordSporkLoopInfo`; `name` is the name that is looked for.
unfoldable pub try_record : ℕ → Instruction → List SporkLoopInfo → List SporkLoopInfo
unfolding record_args
try_record name (call none args) sporks = sporks
try_record name (call (some f) args) sporks = if f == name then record_call args sporks else sporks
try_record name other sporks = sporks

-- `populateSporkInfo`, over the instructions of the module in order.
unfoldable pub populate : ℕ → List Instruction → List SporkLoopInfo → List SporkLoopInfo
unfolding try_record
populate name [] sporks = sporks
populate name (i ∷ is) sporks = populate name is (try_record name i sporks)

pub record SlotEntry : Type 0 where
  pub site : ℕ
  pub arg : ℕ
  pub alloca : ℕ

-- `rawSites`: a row of offsets, as 64 bits, for each site.
abbrev pub Table : Type 0
Table = List (List ℕ)

abbrev pub row_or : Option (List ℕ) → List ℕ
row_or none = []
row_or (some r) = r

abbrev pub row_of : Table → ℕ → List ℕ
row_of t s = row_or (get_elem? t s)

-- One turn of the loop over `slots`; `offset` is what the frame has for an alloca, if it has an index
-- for it. `none` is a write behind the end of a row of `num_args`.
unfoldable pub patch_slot : ℕ → (ℕ → Option ℕ) → Table → SlotEntry → Option Table
patch_slot num_args offset t se =
    if leb (length t) se.site then some t else (elim (offset se.alloca) [
      | none ↦ some t
      | some o ↦
          if ltb se.arg num_args
          then some (set t se.site (set (row_of t se.site) se.arg o))
          else none
    ])

-- `runOnMachineFunction`, from the table read to the table written.
unfoldable pub patch : ℕ → (ℕ → Option ℕ) → Table → List SlotEntry → Option Table
unfolding patch_slot
patch num_args offset t [] = some t
patch num_args offset t (se ∷ ses) = elim (patch_slot num_args offset t se) [
  | none ↦ none
  | some t' ↦ patch num_args offset t' ses
]
