-- ===== src/Gem/Progress/Built.antt =====
-- gempass, the casts of an accepted exit test: the guard can be built from them.
use spork_llvm.Base.{
  ℕ, ◌≡◌, Bool, true, List, [], ◌∷◌, some, refl, sym, ap, ◌∙◌, arith, ◌==◌, subst,
}
use spork_llvm.Unroll.{
  Predicate, Value, ValueType, instruction, cast, int, other, CastStep, capture, replay,
  strip_integer_casts,
}
use spork_llvm.Unroll.Recognise.{Load, bind, is_instruction}
use spork_llvm.Unroll.Recognise.Accepted.{check-some, bind-some}
use spork_llvm.Unroll.Recognise.Follows.{some_inj}
use spork_llvm.Unroll.Recognise.Match.{bound_root}
use spork_llvm.Gem.Guard.{replay_chain, replay_chain-eq-replay}
use spork_llvm.Gem.Progress.{
  GemShape, GemCompare, GemProgress, number_of, find_exit_test, find_progress_store,
  match_exit_condition,
}
use spork_llvm.Gem.Progress.Slot.{find_progress_store-fields}

capture-stripped :
    (v : Value) (root : ℕ) (steps : List CastStep)
    → is_instruction root (strip_integer_casts v) ≡ true
    → (chain : List CastStep) × (capture v root steps ≡ some chain)
unfolding capture strip_integer_casts
capture-stripped (instruction n t) root steps e =
    let q : (n == root) ≡ true = ground arith in (steps, rw q refl)
capture-stripped (cast op (int src) (int dest) v) root steps e =
    capture-stripped v root (record { op = op; dest = dest } ∷ steps) e
capture-stripped (cast op (int src) other v) root steps e = absurd cc
capture-stripped (cast op other dest v) root steps e = absurd cc

capture-bound_root :
    (one_use : Value → Bool) (v : Value) (root : ℕ) (steps : List CastStep)
    → bound_root one_use v ≡ some root
    → (chain : List CastStep) × (capture v root steps ≡ some chain)
unfolding capture bound_root
capture-bound_root one_use (instruction n t) root steps e =
    let z : n ≡ root = some_inj n root e in
    let q : (n == root) ≡ true = ground (arith, z) in (steps, rw q refl)
capture-bound_root one_use (cast op (int src) (int dest) v) root steps e =
    let (u, e₁) = check-some _ _ root e in
    capture-bound_root one_use v root (record { op = op; dest = dest } ∷ steps) e₁
capture-bound_root one_use (cast op (int src) other v) root steps e = absurd cc
capture-bound_root one_use (cast op other dest v) root steps e = absurd cc

-- The casts between `root` and `v` are found, and put on any other root.
abbrev pub Replays : Value → ℕ → Type 0
Replays v root =
    (chain : List CastStep) × (capture v root [] ≡ some chain)
    × ((r : Value) → replay_chain v root r ≡ some (replay chain r))

Replays-captured :
    (v : Value) (root : ℕ)
    → (chain : List CastStep) × (capture v root [] ≡ some chain)
    → Replays v root
Replays-captured v root c = (c.0, c.1, λ r. replay_chain-eq-replay v root r c.0 c.1)

exit_test-lhs :
    (s : GemShape) (c : GemCompare) (next : ℕ) (t : Predicate × Load)
    → find_exit_test s c next ≡ some t
    → is_instruction next (strip_integer_casts c.lhs) ≡ true
unfolding find_exit_test
exit_test-lhs s c next t e =
    let (p, a, e₁) = bind-some c.predicate _ t e in
    (check-some (is_instruction next (strip_integer_casts c.lhs)) _ t e₁).0

exit_condition-root :
    (s : GemShape) (c : GemCompare) (slot : ℕ) (p : Predicate) (ld : Load)
    → match_exit_condition s (some c) slot p ≡ some ld
    → (id : ℕ) × (bound_root s.one_use c.rhs ≡ some id) × (s.load_of id ≡ some ld)
unfolding match_exit_condition bind
exit_condition-root s c slot p ld e =
    let (q, a, e₁) = bind-some c.predicate _ ld e in
    let (b, e₂) = check-some _ _ ld e₁ in
    let (id, r, e₃) = bind-some (bound_root s.one_use c.rhs) _ ld e₂ in
    let (l, f, e₄) = bind-some (s.load_of id) _ ld e₃ in
    let (g, e₅) = check-some _ _ ld e₄ in (id, r, f ∙ ap some (some_inj l ld e₅))

-- The exit test of a loop whose progress store is found, and whose exit condition is matched with the
-- load that was found, has integer casts only between the next index and its left side, and between
-- the bound and its right side; the guard's builder does not come to its unreachable branch, and
-- puts the same casts on the last index of the batch and on the bound that the guard loads. The latch
-- value must be the next index itself and no cast of it, and loads must carry their own numbers.
pub find_progress_store-Replays :
    (s : GemShape) (p : GemProgress) (next : ℕ) (t : ValueType)
    → find_progress_store s ≡ some p
    → p.next ≡ instruction next t
    → match_exit_condition s s.compare p.bound_slot p.predicate ≡ some p.bound_load
    → ((n : ℕ) (l : Load) → s.load_of n ≡ some l → l.id ≡ n)
    → Replays p.lhs next × Replays p.rhs p.bound_load.id
unfolding strip_integer_casts
find_progress_store-Replays s p next t e direct m own =
    let (c, n, cq, nq, tested, lq, rq) = (find_progress_store-fields s p e).1 in
    let same_next : next ≡ n =
      some_inj next n (ap (λ v. number_of (strip_integer_casts v)) (sym direct) ∙ nq) in
    let m' =
      subst (λ o. match_exit_condition s o p.bound_slot p.predicate ≡ some p.bound_load) cq m in
    let (id, root, ld) = exit_condition-root s c p.bound_slot p.predicate p.bound_load m' in
    let tested' : find_exit_test s c next ≡ some (p.predicate, p.bound_load) =
      ap (find_exit_test s c) same_next ∙ tested in
    (
      subst (λ v. Replays v next) lq
          (Replays-captured c.lhs next (
            capture-stripped c.lhs next []
              (exit_test-lhs s c next (p.predicate, p.bound_load) tested'))),
      subst (λ v. Replays v p.bound_load.id) rq
          (Replays-captured c.rhs p.bound_load.id (
            capture-bound_root s.one_use c.rhs p.bound_load.id []
              (root ∙ ap some (sym (own id p.bound_load ld))))),
    )
