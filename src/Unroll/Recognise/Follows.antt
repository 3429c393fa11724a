-- ===== src/Unroll/Recognise/Follows.antt =====
-- A loop that `matchLoopProtocol` accepts follows the protocol.
use spork_llvm.Base.{
  ℕ, true, not, List, [], ◌∷◌, Option, none, some, ◌≡◌, ◌≢◌, sym, ap, ◌∙◌, arith, ◌==◌, ==_iff,
  Option-cases, inl, inr,
}
use spork_llvm.Unroll.{Value, ValueType, instruction, cast, CastStep, capture, replay}
use spork_llvm.Unroll.Casts.{IsTyped, replay-capture}
use spork_llvm.Unroll.Recognise.{
  Load, Store, LoopShape, Matched, Induction, Compare, same, plain_next, match_induction,
  match_progress, volatile_stores,
}
use spork_llvm.Unroll.Recognise.Match.{
  ExitTest, match_bound, match_exit_test, match_slots, match_body, match_loop_protocol, bound_root,
  find_load,
}
use spork_llvm.Unroll.Recognise.Accepted.{
  check-some, bind-some, and-left, body-Quiet, progress-chain, Quiet,
}

-- `v` is a chain of casts of the instruction `n`.
abbrev pub ChainOf : List CastStep → ℕ → Value → Type 0
ChainOf casts n v = (t : ValueType) × (replay casts (instruction n t) ≡ v)

pub record Follows (s : LoopShape) (m : Matched) : Type 0 where
  -- the index goes up by one
  pub unit_step :
      (ind : Induction) × (s.induction ≡ some ind)
      × (ind.step ≡ some 1)
      × ((t : ValueType) × (ind.next ≡ instruction m.next t))
  -- the latch stores the next index, cast, and nothing else that is volatile
  pub only_store : volatile_stores s.latch_code ≡ m.progress ∷ []
  pub stored : ChainOf m.progress_casts m.next m.progress.value
  -- the loop goes on if the next index is below the bound, both cast
  pub tested :
      (c : Compare) × (s.compare ≡ some c)
      × (c.predicate ≡ some m.predicate)
      × ChainOf m.next_casts m.next c.lhs
      × ChainOf m.bound_casts m.bound.id c.rhs
  pub fresh_bound : m.bound.volatile ≡ true
  pub quiet : Quiet m.bound.id m.progress.id s.code
  -- the progress variable is a slot, and the bound's pointer does not resolve to it
  pub apart :
      (slot : ℕ) × (s.resolved_alloca m.progress.ptr ≡ some slot)
      × (s.resolved_alloca m.bound.ptr ≢ some slot)

chain :
    (v : Value) (n : ℕ) (casts : List CastStep)
    → IsTyped v
    → capture v n [] ≡ some casts
    → ChainOf casts n v
chain v n casts ty e = let (t, p, q) = replay-capture v n casts ty e in (t, q)

plain_next-some :
    (v : Value) (n : ℕ) → plain_next v ≡ some n → (t : ValueType) × (v ≡ instruction n t)
plain_next-some (instruction m t) n e = let q : m ≡ n = cc in (t, ap (λ k. instruction k t) q)
plain_next-some (cast op src dest v) n e = absurd cc

induction-step :
    (s : LoopShape) (next : ℕ)
    → match_induction s ≡ some next
    → (ind : Induction) × (s.induction ≡ some ind)
      × (ind.step ≡ some 1)
      × ((t : ValueType) × (ind.next ≡ instruction next t))
unfolding match_induction
induction-step s next e =
    let (ind, q, e₁) = bind-some s.induction _ next e in
    let (i, e₂) = check-some _ _ next e₁ in
    let (step, p, e₃) = bind-some ind.step _ next e₂ in
    let (one, e₄) = check-some _ _ next e₃ in
    let (inside, e₅) = check-some _ _ next e₄ in
    (ind, q, p ∙ ap some ((==_iff step 1).0 one), plain_next-some ind.next next e₅)

bound-volatile :
    (s : LoopShape) (rhs : Value) (ld : Load) → match_bound s rhs ≡ some ld → ld.volatile ≡ true
unfolding match_bound
bound-volatile s rhs ld e =
    let (id, p, e₁) = bind-some (bound_root s.one_use rhs) _ ld e in
    let (l, q, e₂) = bind-some (find_load id s.latch_code) _ ld e₁ in
    let (b, e₃) = check-some _ _ ld e₂ in
    let z : l ≡ ld = cc in
    ap (λ x. x.volatile) (sym z) ∙ and-left _ _ (and-left _ _ (and-left _ _ b))

abbrev Tested : LoopShape → ℕ → ExitTest → Type 0
Tested s next t =
    (c : Compare) × (s.compare ≡ some c)
    × (c.predicate ≡ some t.predicate)
    × (capture c.lhs next [] ≡ some t.next_casts)
    × (capture c.rhs t.bound.id [] ≡ some t.bound_casts)
    × (t.bound.volatile ≡ true)

exit_test-Tested :
    (s : LoopShape) (next : ℕ) (t : ExitTest) → match_exit_test s next ≡ some t → Tested s next t
unfolding match_exit_test
exit_test-Tested s next t e =
    let (c, q, e₁) = bind-some s.compare _ t e in
    let (u, e₂) = check-some _ _ t e₁ in
    let (p, pq, e₃) = bind-some c.predicate _ t e₂ in
    let (nc, nq, e₄) = bind-some (capture c.lhs next []) _ t e₃ in
    let (ld, lq, e₅) = bind-some (match_bound s c.rhs) _ t e₄ in
    let (bc, bq, e₆) = bind-some (capture c.rhs ld.id []) _ t e₅ in
    let z : record { predicate = p; next_casts = nc; bound = ld; bound_casts = bc } ≡ t = cc in
    rw (sym z) (c, q, pq, nq, bq, bound-volatile s c.rhs ld lq)

same-some : (o : Option ℕ) (n : ℕ) → not (same o (some n)) ≡ true → o ≢ some n
same-some none n e q = absurd cc
same-some (some m) n e q =
    let z : m ≡ n = cc in let w : (m == n) ≡ true = (==_iff m n).1 z in absurd (ground arith)

pub some_inj : {A : Type 0} (a b : A) → some a ≡ some b → a ≡ b
some_inj a b e = cc

slots-apart :
    (s : LoopShape) (p b : ℕ)
    → match_slots s p b ≡ true
    → (slot : ℕ) × (s.resolved_alloca p ≡ some slot) × (s.resolved_alloca b ≢ some slot)
unfolding match_slots
slots-apart s p b e = elim (Option-cases (s.resolved_alloca p)) [
  | inl q ↦ let e' = rw (q, match_slots) at e in absurd cc
  | inr (slot, q) ↦
      let e' = rw (q, match_slots) at e in
      (slot, q, same-some (s.resolved_alloca b) slot (and-left _ _ e'))
]

-- A loop that `matchLoopProtocol` accepts follows the protocol: its index goes up by one; the latch
-- stores the next index and nothing else that is volatile; the loop goes on by a test of the next
-- index against a volatile load; no other access of the body is volatile or atomic, and no
-- instruction of it throws or calls but a harmless intrinsic; and the progress variable is a stack slot,
-- which the bound's pointer is not found to lead to. The casts of the stored value and of the test must
-- be typed.
pub match_loop_protocol-Follows :
    (s : LoopShape) (m : Matched)
    → match_loop_protocol s ≡ some m
    → IsTyped m.progress.value
    → ((c : Compare) → s.compare ≡ some c → IsTyped c.lhs × IsTyped c.rhs)
    → Follows s m
unfolding match_loop_protocol
match_loop_protocol-Follows s m e st ct =
    let (shape, e₁) = check-some _ _ m e in
    let (next, n, e₂) = bind-some (match_induction s) _ m e₁ in
    let (phis, e₃) = check-some _ _ m e₂ in
    let (pr, p, e₄) = bind-some (match_progress s next) _ m e₃ in
    let (t, tq, e₅) = bind-some (match_exit_test s next) _ m e₄ in
    let (slots, e₆) = check-some _ _ m e₅ in
    let (code, e₇) = check-some _ _ m e₆ in
    let (exits, e₈) = check-some _ _ m e₇ in
    follows next pr t n p tq slots code (sym (some_inj _ _ e₈))
  where
    follows :
        (next : ℕ) (pr : Store × List CastStep) (t : ExitTest)
        → match_induction s ≡ some next
        → match_progress s next ≡ some pr
        → match_exit_test s next ≡ some t
        → match_slots s pr.0.ptr t.bound.ptr ≡ true
        → match_body t.bound.id pr.0.id s.code ≡ true
        → m ≡ record {
          next = next;
          progress = pr.0;
          progress_casts = pr.1;
          predicate = t.predicate;
          next_casts = t.next_casts;
          bound = t.bound;
          bound_casts = t.bound_casts;
        }
        → Follows s m
    follows next pr t n p tq slots code q =
        let (one, cap) = progress-chain s next pr p in
        let (c, cq, pq, nq, bq, vol) = exit_test-Tested s next t tq in
        let value : m.progress.value ≡ pr.0.value = ap (λ x. x.progress.value) q in
        let typed : IsTyped pr.0.value = rw value at st in
        let (lt, rt) = ct c cq in
        rw q record {
          unit_step = induction-step s next n;
          only_store = one;
          stored = chain pr.0.value next pr.1 typed cap;
          tested = (
            c,
            cq,
            pq,
            chain c.lhs next t.next_casts lt nq,
            chain c.rhs t.bound.id t.bound_casts rt bq,
          );
          fresh_bound = vol;
          quiet = body-Quiet t.bound.id pr.0.id s.code code;
          apart = slots-apart s pr.0.ptr t.bound.ptr slots;
        }
