-- ===== src/Gem/Marker.antt =====
-- gempass, `findMarkedLoop`: the loop that a marker denotes, on what LLVM says of the blocks. Child: what is found
-- (Found).
pub mod Found
use spork_llvm.Base.{
  ℕ, ◌≡◌, ◌≢◌, Bool, true, false, ◌&&◌, List, [], ◌∷◌, Option, none, some, if◌then◌else◌, ◌==◌,
  refl, sym, ap, ◌∙◌, arith, Bool-cases, Option-cases, inl, inr, ◌⊎◌, ==_iff, subst,
}
use spork_llvm.Unroll.Recognise.{bind, same}
use spork_llvm.Unroll.Recognise.Accepted.{bind-some}
use spork_llvm.Unroll.Recognise.Follows.{some_inj}
use spork_llvm.Unroll.Marked.{Blocks}

-- The block that a bridge goes on to: `bridge s` is the successor of `s` if that ends in an
-- unconditional branch.
pub record Bridges : Type 0 where
  pub blocks : Blocks
  pub bridge : ℕ → Option ℕ

-- `Header` is the header of the loop, and the loop is entered by `Preheader`.
abbrev pub enters : Bridges → (preheader header loop : ℕ) → Bool
enters b preheader header loop =
    b.blocks.header loop == header && same (b.blocks.loop_preheader loop) (some preheader)

-- `Found` after the loop `L`; `none` if another one was found.
abbrev pub found_also : Option ℕ → ℕ → Option (Option ℕ)
found_also none l = some (some l)
found_also (some f) l = if f == l then some (some l) else none

-- `Consider`
unfoldable pub consider : Bridges → (preheader header : ℕ) → Option ℕ → Option (Option ℕ)
consider b preheader header found = elim (b.blocks.loop_for header) [
  | none ↦ some found
  | some l ↦ if enters b preheader header l then found_also found l else some found
]

abbrev pub is_header : Bridges → Option ℕ → ℕ → Bool
is_header b none s = false
is_header b (some l) s = b.blocks.header l == s

-- A successor that is no header of what is found may be a bridge.
unfoldable pub cross : Bridges → (successor : ℕ) → Option ℕ → Option (Option ℕ)
unfolding consider
cross b s found =
    if is_header b found s
    then some found
    else (elim (b.bridge s) [ none ↦ some found | some t ↦ consider b s t found ])

unfoldable pub consider_all : Bridges → (marker : ℕ) → List ℕ → Option ℕ → Option (Option ℕ)
unfolding consider cross
consider_all b marker [] found = some found
consider_all b marker (s ∷ ss) found =
    bind (consider b marker s found) (λ f. bind (cross b s f) (λ g. consider_all b marker ss g))

-- `findMarkedLoop`
unfoldable pub find_marked_loop : Bridges → (marker : ℕ) → Option ℕ
unfolding consider_all
find_marked_loop b marker = elim (consider_all b marker (b.blocks.successors marker) none) [
  | none ↦ none
  | some found ↦ found
]

-- The loop is entered from the block `preheader` by the block `header`.
abbrev pub Enters : Bridges → (preheader header loop : ℕ) → Type 0
Enters b preheader header loop =
    (b.blocks.loop_for header ≡ some loop) × (enters b preheader header loop ≡ true)

-- ... from the marker itself, or over one bridge.
abbrev pub Denotes : Bridges → (marker loop : ℕ) → List ℕ → Type 0
Denotes b marker loop [] = ⊥
Denotes b marker loop (s ∷ ss) =
    (Enters b marker s loop ⊎ ((t : ℕ) × (b.bridge s ≡ some t) × Enters b s t loop))
    ⊎ Denotes b marker loop ss

-- No other loop is: each successor that enters a loop enters this one, and so does each bridge that is
-- not the header of this loop.
abbrev pub NoOther : Bridges → (marker loop : ℕ) → List ℕ → Type 0
NoOther b marker loop [] = Unit {0}
NoOther b marker loop (s ∷ ss) =
    ((l : ℕ) → Enters b marker s l → l ≡ loop)
    × ((t l : ℕ) → b.blocks.header loop ≢ s → b.bridge s ≡ some t → Enters b s t l → l ≡ loop)
    × NoOther b marker loop ss
