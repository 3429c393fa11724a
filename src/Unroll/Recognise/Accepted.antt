-- ===== src/Unroll/Recognise/Accepted.antt =====
-- What holds of a loop that `matchLoopProtocol` accepts.
use spork_llvm.Base.{
  ℕ, Bool, true, false, not, ◌&&◌, ◌||◌, List, [], ◌∷◌, Option, none, some, ◌≡◌, refl, sym, ap,
  ◌==◌, inl, inr, ◌⊎◌, ==_iff,
}
use spork_llvm.Unroll.{CastStep, capture}
use spork_llvm.Unroll.Recognise.{
  Store, Kind, load, store, call, invoke, atomic_rmw, cmpxchg, fence, plain, Callee, assume_like,
  no_memory, marker, memory, function, is_harmless_call, Instr, LoopShape, check, bind,
  match_progress, volatile_stores, only,
}
use spork_llvm.Unroll.Recognise.Match.{allowed, match_body}

pub check-some :
    {B : Type 0} (b : Bool) (r : Option B) (x : B) → check b r ≡ some x → (b ≡ true) × (r ≡ some x)
unfolding check
check-some true r x e = (refl, e)
check-some false r x e = absurd cc

pub bind-some :
    {A B : Type 0} (o : Option A) (f : A → Option B) (x : B)
    → bind o f ≡ some x
    → (a : A) × (o ≡ some a) × (f a ≡ some x)
unfolding bind
bind-some none f x e = absurd cc
bind-some (some a) f x e = (a, refl, e)

pub only-some : (ss : List Store) (x : Store) → only ss ≡ some x → ss ≡ x ∷ []
only-some [] x e = absurd cc
only-some (y ∷ []) x e = let q : y ≡ x = cc in ap (λ z. z ∷ []) q
only-some (y ∷ z ∷ ss) x e = absurd cc

pub and-left : (a b : Bool) → (a && b) ≡ true → a ≡ true
and-left true b e = refl
and-left false b e = absurd cc

-- The latch stores one volatile value, the chain of casts of the next index.
pub progress-chain :
    (s : LoopShape) (next : ℕ) (pr : Store × List CastStep)
    → match_progress s next ≡ some pr
    → (volatile_stores s.latch_code ≡ pr.0 ∷ []) × (capture pr.0.value next [] ≡ some pr.1)
unfolding match_progress
progress-chain s next pr e =
    let (st, q, e₁) = bind-some (only (volatile_stores s.latch_code)) _ pr e in
    let (b, e₂) = check-some _ _ pr e₁ in
    let (casts, c, e₃) = bind-some (capture st.value next []) _ pr e₂ in
    let z : (st, casts) ≡ pr = cc in rw (sym z) (only-some _ st q, c)

-- The access is neither volatile nor atomic, or it is the one that may be.
abbrev pub Tame : (volatile atomic : Bool) (id allowed_id : ℕ) → Type 0
Tame volatile atomic id allowed_id = ((volatile ≡ false) × (atomic ≡ false)) ⊎ (id ≡ allowed_id)

-- Nothing but the load of the bound and the store of the progress pins an iteration in place.
abbrev pub QuietKind : (bound progress : ℕ) → Kind → Type 0
QuietKind bound progress (load l) = Tame l.volatile l.atomic l.id bound
QuietKind bound progress (store s) = Tame s.volatile s.atomic s.id progress
QuietKind bound progress (call c) = (c ≡ assume_like) ⊎ (c ≡ no_memory)
QuietKind bound progress plain = Unit {0}
QuietKind bound progress _ = ⊥

abbrev pub Quiet : (bound progress : ℕ) → List Instr → Type 0
Quiet bound progress [] = Unit {0}
Quiet bound progress (i ∷ is) =
    QuietKind bound progress i.kind × (i.may_throw ≡ false) × Quiet bound progress is

tame : (v a : Bool) (id n : ℕ) → (not (v || a) || id == n) ≡ true → Tame v a id n
tame true a id n e = inr ((==_iff id n).0 e)
tame false true id n e = inr ((==_iff id n).0 e)
tame false false id n e = inl (refl, refl)

harmless : (c : Callee) → is_harmless_call c ≡ true → (c ≡ assume_like) ⊎ (c ≡ no_memory)
unfolding is_harmless_call
harmless assume_like e = inl refl
harmless no_memory e = inr refl
harmless marker e = absurd cc
harmless memory e = absurd cc
harmless function e = absurd cc

quiet_kind : (b p : ℕ) (k : Kind) → allowed b p k ≡ true → QuietKind b p k
quiet_kind b p (load l) e = tame l.volatile l.atomic l.id b e
quiet_kind b p (store s) e = tame s.volatile s.atomic s.id p e
quiet_kind b p (call c) e = harmless c e
quiet_kind b p invoke e = absurd cc
quiet_kind b p atomic_rmw e = absurd cc
quiet_kind b p cmpxchg e = absurd cc
quiet_kind b p fence e = absurd cc
quiet_kind b p plain e = tt

pub and-right : (a b : Bool) → (a && b) ≡ true → b ≡ true
and-right true b e = e
and-right false b e = absurd cc

pub not-true : (b : Bool) → not b ≡ true → b ≡ false
not-true true e = absurd cc
not-true false e = refl

pub body-Quiet : (b p : ℕ) (is : List Instr) → match_body b p is ≡ true → Quiet b p is
unfolding match_body
body-Quiet b p [] e = tt
body-Quiet b p (i ∷ is) e =
    let first = and-left (allowed b p i.kind && not i.may_throw) _ e in
    (
      quiet_kind b p i.kind (and-left _ _ first),
      not-true i.may_throw (and-right (allowed b p i.kind) _ first),
      body-Quiet b p is (and-right (allowed b p i.kind && not i.may_throw) _ e),
    )
