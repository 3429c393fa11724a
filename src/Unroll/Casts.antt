-- ===== src/Unroll/Casts.antt =====
-- Capturing and replaying chains of casts.
use spork_llvm.Base.{
  ℕ, ◌≡◌, ◌∷◌, List, [], some, refl, sym, ap, ◌∙◌, ◌==◌, Bool-cases, inl, inr, ==_iff,
}
use spork_llvm.Unroll.{
  CastStep, ValueType, int, other, Value, instruction, cast, type_of, capture, replay,
  strip_integer_casts,
}

-- The source type of every cast is the type of what it casts.
abbrev pub IsTyped : Value → Type 0
IsTyped (instruction n t) = Unit {0}
IsTyped (cast op src dest v) = (src ≡ type_of v) × IsTyped v

abbrev root_of : Value → Value
root_of (instruction n t) = instruction n t
root_of (cast op src dest v) = root_of v

replay-root :
    (v : Value) (root : ℕ) (steps chain : List CastStep)
    → IsTyped v
    → capture v root steps ≡ some chain
    → replay chain (root_of v) ≡ replay steps v
unfolding capture replay
replay-root (instruction n t) root steps chain ty e = elim (Bool-cases (n == root)) [
  | inl q ↦ let e' = rw q at e in cc
  | inr q ↦ let e' = rw q at e in absurd cc
]
replay-root (cast op (int src) (int dest) v) root steps chain ty e =
    replay-root v root (record { op = op; dest = dest } ∷ steps) chain ty.1 e
    ∙ ap (λ t. replay steps (cast op t (int dest) v)) (sym ty.0)
replay-root (cast op (int src) other v) root steps chain ty e = absurd cc
replay-root (cast op other dest v) root steps chain ty e = absurd cc

stripped :
    (v : Value) (root : ℕ) (steps chain : List CastStep)
    → capture v root steps ≡ some chain
    → (strip_integer_casts v ≡ root_of v) × ((t : ValueType) × (root_of v ≡ instruction root t))
unfolding capture strip_integer_casts
stripped (instruction n t) root steps chain e = elim (Bool-cases (n == root)) [
  | inl q ↦ (refl, (t, ap (λ m. instruction m t) ((==_iff n root).0 q)))
  | inr q ↦ let e' = rw q at e in absurd cc
]
stripped (cast op (int src) (int dest) v) root steps chain e =
    stripped v root (record { op = op; dest = dest } ∷ steps) chain e
stripped (cast op (int src) other v) root steps chain e = absurd cc
stripped (cast op other dest v) root steps chain e = absurd cc

-- A chain that `capture` finds between a value and a root is a chain of casts of the root instruction,
-- where `stripIntegerCasts` ends too, and `replay` on the root builds the value again. The value's casts
-- must be typed.
pub replay-capture :
    (v : Value) (root : ℕ) (chain : List CastStep)
    → IsTyped v
    → capture v root [] ≡ some chain
    → (t : ValueType) × (strip_integer_casts v ≡ instruction root t)
      × (replay chain (instruction root t) ≡ v)
unfolding replay
replay-capture v root chain ty e =
    let s = stripped v root [] chain e in
    let (t, q) = s.1 in (t, s.0 ∙ q, ap (replay chain) (sym q) ∙ replay-root v root [] chain ty e)
