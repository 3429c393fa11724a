-- ===== src/Unroll/Transplant/Sink/Planned.antt =====
-- fablepass, the plan for the uses behind an exit: what a run of it over the pure users of the limit
-- notes and when it gives up.
use spork_llvm.Base.{
  ℕ, zero, suc, ◌+◌, ◌<◌, ◌≤◌, ◌≡◌, ◌↔◌, ◌⊎◌, inl, inr, Bool, true, false, ◌||◌, List, [], ◌∷◌,
  Option, none, some, if◌then◌else◌, ◌==◌, refl, ap, subst, arith, Bool-cases, Option-cases,
}
use spork_llvm.Unroll.Transplant.Sink.{
  Use, Sinking, lookup_needs, visit_use, visit_uses, note_need, visit_needs, plan_sink,
}
use spork_llvm.Unroll.Transplant.Sink.Noted.{IsNoted, IsFollowed, visit_uses-IsNoted}
use spork_llvm.Unroll.Transplant.Sink.Visits.{
  Reaches, later, IsPast, IsLeak, Numbers, JudgedUses, Good, Visited, settled, unreached,
  Reaches-cases, Reaches-first, Reaches-none, Visits, visit_use_parts,
}

or_true : {a b : Bool} → (a || b) ≡ true → (a ≡ true) ⊎ (b ≡ true)
or_true {a = true} e = inl refl
or_true {a = false} e = inr e

or_left : {a : Bool} (b : Bool) → a ≡ true → (a || b) ≡ true
or_left b e = ap (λ x. x || b) e

or_right : (a : Bool) {b : Bool} → b ≡ true → (a || b) ≡ true
or_right true e = refl
or_right false e = e

module _ (uses : ℕ → List Use) where
  joined :
      {Open : ℕ → Type 0} {u : Use} {us : List Use} {s : Sinking} {r r' : Bool × Sinking}
      → Visited uses Open (u ∷ []) s r
      → Visited uses Open us r.1 r'
      → Visited uses Open (u ∷ us) s (r.0 || r'.0, r'.1)
  joined {r = r} {r' = r'} o o' = record {
    judged = record {
      fed = λ e. elim (or_true e) [
        | inl t ↦ Reaches-first uses (o.judged.fed t)
        | inr t ↦ later (o'.judged.fed t)
      ];
      told = λ q. elim (Reaches-cases uses q) [
        | inl q' ↦ or_left r'.0 (o.judged.told q')
        | inr q' ↦ or_right r.0 (o'.judged.told q')
      ];
      caught = λ q. elim (Reaches-cases uses q) [
        | inl q' ↦ o'.grows (o.judged.caught q')
        | inr q' ↦ o'.judged.caught q'
      ];
    };
    kept = o'.kept;
    grows = λ e. o'.grows (o.grows e);
    blamed = λ e. elim (o'.blamed e) [
      | inl f ↦ (elim (o.blamed f) [ inl f' ↦ inl f' | inr q ↦ inr (Reaches-first uses q) ])
      | inr q ↦ inr (later q)
    ];
  }

  visit_uses-Visited :
      {Open : ℕ → Type 0} {low high : ℕ} (visit : ℕ → Sinking → Bool × Sinking) (us : List Use)
      → Numbers low high us
      → ((w : ℕ) → low ≤ w → w < high → Visits uses Open visit w)
      → (s : Sinking) → Good uses Open s
      → Visited uses Open us s (visit_uses visit us s)
  unfolding visit_uses
  visit_uses-Visited visit [] ns step s g =
      settled uses g (unreached uses _ _ (Reaches-none uses) (Reaches-none uses))
  visit_uses-Visited visit (u ∷ us) (n, ns) step s g =
      let o =
        visit_use_parts uses visit u.skipped u.past_exit u.user (λ w e. step w (n w e).0 (n w e).1)
          s g in
      joined o (visit_uses-Visited visit us ns step (visit_use visit u s).1 o.kept)

  -- A lookup behind a note: the noted value, or as before.
  lookup_note :
      (v : ℕ) (b : Bool) (s : Sinking) (w : ℕ) (c : Bool)
      → lookup_needs w (note_need v b s).needs ≡ some c
      → ((v ≡ w) × (b ≡ c)) ⊎ (((v == w) ≡ false) × (lookup_needs w s.needs ≡ some c))
  lookup_note v b s w c e = elim (Bool-cases (v == w)) [
    | inl t ↦ inl (ground arith, ground arith)
    | inr f ↦ inr (f, ground arith)
  ]

  -- The note of a value on the way is the note of a value that is open.
  opened :
      {Open : ℕ → Type 0} (v : ℕ) (s : Sinking)
      → Good uses Open s
      → Good uses (λ w. Open w ⊎ (v ≡ w)) (note_need v false s)
  opened v s g w c e = elim (lookup_note v false s w c e) [
    | inl (q, _) ↦ inl (inr q)
    | inr (ne, e') ↦ (elim (g w c e') [ inl o ↦ inl (inl o) | inr j ↦ inr j ])
  ]

  -- A value that has been judged is open no more.
  closed :
      {Open : ℕ → Type 0} (v : ℕ) {s : Sinking} {r : Bool × Sinking}
      → Visited uses (λ w. Open w ⊎ (v ≡ w)) (uses v) (note_need v false s) r
      → Visited uses Open (uses v) s (r.0, note_need v r.0 r.1)
  closed v {r = r} o = record {
    judged = o.judged;
    kept = λ w c e. elim (lookup_note v r.0 r.1 w c e) [
      | inl (q, q') ↦ inr (
          subst (λ x. JudgedUses uses (uses x) c r.1.failure) q
            (subst (λ y. JudgedUses uses (uses v) y r.1.failure) q' o.judged))
      | inr (ne, e') ↦ (elim (o.kept w c e') [
        | inl (inl p) ↦ inl p
        | inl (inr q) ↦ ground arith
        | inr j ↦ inr j
      ])
    ];
    grows = o.grows;
    blamed = o.blamed;
  }

  visit_needs-Visited :
      {n : ℕ}
      → ((v : ℕ) → Numbers (suc v) n (uses v))
      → (fuel : ℕ) {Open : ℕ → Type 0} (v : ℕ) → v < n
      → n ≤ v + fuel
      → ((w : ℕ) → Open w → w < v)
      → Visits uses Open (visit_needs uses fuel) v
  unfolding visit_needs
  visit_needs-Visited ord zero v lt en below s g = ground arith
  visit_needs-Visited {n = n} ord (suc fuel) {Open = Open} v lt en below s g =
      elim (Option-cases (lookup_needs v s.needs)) [
        | inl e ↦
            let rec : (w : ℕ)
                → suc v ≤ w
                → w < n
                → Visits uses (λ x. Open x ⊎ (v ≡ x)) (visit_needs uses fuel) w =
              λ w lo hi.
                visit_needs-Visited ord fuel w hi (omega arith) (λ x. elim [
                  | inl o ↦ (let q = below x o in omega arith)
                  | inr q ↦ omega arith
                ]) in
            rw (e, visit_needs)
              (closed v (
                visit_uses-Visited (visit_needs uses fuel) (uses v) (ord v) rec
                  (note_need v false s) (opened v s g)))
        | inr (b, e) ↦
            rw (e, visit_needs)
              (elim (g v b e) [
                | inl o ↦ (let q = below v o in ground arith)
                | inr j ↦ settled uses g j
              ])
      ]

-- What a plan is to tell of the uses of the limit.
abbrev pub Verdict : (ℕ → List Use) → List Use → Option (List (ℕ × Bool)) → Type 0
Verdict uses root none = Reaches uses IsLeak root
Verdict uses root (some needs) =
    (¬ Reaches uses IsLeak root)
    × ((v : ℕ) (b : Bool)
        → lookup_needs v needs ≡ some b
        → (b ≡ true) ↔ Reaches uses IsPast (uses v))
    × ((v : ℕ) → Reaches uses (IsFollowed v) root → (b : Bool) × (lookup_needs v needs ≡ some b))

verdict :
    (uses : ℕ → List Use) (root : List Use) (s : Sinking) (r : Bool × Sinking)
    → s.failure ≡ false
    → Visited uses (λ v. ⊥) root s r
    → ((v : ℕ) → Reaches uses (IsFollowed v) root → IsNoted v r.1)
    → Verdict uses root (if r.1.failure then none else some r.1.needs)
verdict uses root s r clear o noted = elim (Bool-cases r.1.failure) [
  | inl t ↦ rw t (elim (o.blamed t) [ inl q ↦ absurd cc | inr l ↦ l ])
  | inr f ↦ rw f (
    λ l. absurd (let t = o.judged.caught l in ground arith),
    λ v b e. elim (o.kept v b e) [ inl x ↦ elim x [ ] | inr j ↦ (j.fed, j.told) ],
    noted,
  )
]

-- Let the pure users have numbers below `n` and the fuel be at least `n`, and let a pure instruction
-- only have pure users with greater numbers. Then the plan for the uses of the limit ends without a
-- result exactly when they lead by pure instructions in front of the exit to memory, to a call or to a
-- user that is no instruction. A plan has noted every pure instruction that they lead to so, and what
-- it has noted of an instruction is true exactly when that leads so to a use that the exit dominates.
pub plan_sink-Verdict :
    (uses : ℕ → List Use) (n fuel : ℕ) (root : List Use)
    → ((v : ℕ) → Numbers (suc v) n (uses v))
    → Numbers 0 n root
    → n ≤ fuel
    → Verdict uses root (plan_sink uses fuel root)
unfolding plan_sink
plan_sink-Verdict uses n fuel root ord first en =
    verdict uses root (record { needs = []; failure = false })
      (visit_uses (visit_needs uses fuel) root (record { needs = []; failure = false })) refl
      (visit_uses-Visited uses (visit_needs uses fuel) root first
        (λ w lo hi. visit_needs-Visited uses ord fuel w hi (omega arith) (λ x. elim [ ]))
        (record { needs = []; failure = false }) (λ v b e. absurd cc))
      (visit_uses-IsNoted uses n fuel root ord first en)
