-- ===== src/Unroll/Transplant/Sink/Visits.antt =====
-- fablepass, the plan for the uses behind an exit: what may be come to from a list of uses, and what a
-- visit of one use gives.
use spork_llvm.Base.{
  ℕ, ◌<◌, ◌≤◌, ◌≡◌, ◌⊎◌, inl, inr, Bool, true, false, List, [], ◌∷◌, some, refl, subst, arith,
}
use spork_llvm.Unroll.Transplant.Sink.{
  User, not_instruction, merge, effect, pure, Use, Sinking, lookup_needs, fail_sink, visit_use,
}

-- From the uses, by pure instructions in front of the exit, one comes to a use of the given kind.
pub data Reaches (uses : ℕ → List Use) (P : Use → Type 0) : List Use → Type 0 where
  here : {u : Use} {us : List Use} → P u → Reaches uses P (u ∷ us)
  through :
      {u : Use} {us : List Use} (w : ℕ)
      → u.skipped ≡ false
      → u.past_exit ≡ false
      → u.user ≡ pure w
      → Reaches uses P (uses w)
      → Reaches uses P (u ∷ us)
  later : {u : Use} {us : List Use} → Reaches uses P us → Reaches uses P (u ∷ us)

abbrev pub IsPast : Use → Type 0
IsPast u = (u.skipped ≡ false) × (u.past_exit ≡ true)

abbrev pub IsLeak : Use → Type 0
IsLeak u =
    (u.skipped ≡ false) × (u.past_exit ≡ false) × ((u.user ≡ not_instruction) ⊎ (u.user ≡ effect))

-- The pure users have numbers from `low` up to `high`.
abbrev pub Numbers : (low high : ℕ) → List Use → Type 0
Numbers low high [] = Unit
Numbers low high (u ∷ us) =
    ((w : ℕ) → u.user ≡ pure w → (low ≤ w) × (w < high)) × Numbers low high us

-- A verdict and the failure flag that came with it.
pub record Judged (F L : Type 0) (b failed : Bool) : Type 0 where
  pub fed : b ≡ true → F
  pub told : F → b ≡ true
  pub caught : L → failed ≡ true

module _ (uses : ℕ → List Use) where
  abbrev pub JudgedUses : List Use → Bool → Bool → Type 0
  JudgedUses us b failed = Judged (Reaches uses IsPast us) (Reaches uses IsLeak us) b failed

  abbrev pub Good : (ℕ → Type 0) → Sinking → Type 0
  Good Open s =
      (v : ℕ) (b : Bool)
      → lookup_needs v s.needs ≡ some b
      → Open v ⊎ JudgedUses (uses v) b s.failure

  pub record Visited (Open : ℕ → Type 0) (us : List Use) (s : Sinking) (r : Bool × Sinking)
      : Type 0 where
    pub judged : JudgedUses us r.0 r.1.failure
    pub kept : Good Open r.1
    pub grows : s.failure ≡ true → r.1.failure ≡ true
    pub blamed : r.1.failure ≡ true → (s.failure ≡ true) ⊎ Reaches uses IsLeak us

  pub Reaches-cases :
      {P : Use → Type 0} {u : Use} {us : List Use}
      → Reaches uses P (u ∷ us)
      → Reaches uses P (u ∷ []) ⊎ Reaches uses P us
  Reaches-cases (here p) = inl (here p)
  Reaches-cases (through w s p e r) = inl (through w s p e r)
  Reaches-cases (later r) = inr r

  pub Reaches-first :
      {P : Use → Type 0} {u : Use} {us : List Use}
      → Reaches uses P (u ∷ [])
      → Reaches uses P (u ∷ us)
  Reaches-first (here p) = here p
  Reaches-first (through w s p e r) = through w s p e r
  Reaches-first (later r) = elim r [ ]

  -- What one use comes to: it is of the kind, or its user is pure and comes there.
  Reaches-one :
      {P : Use → Type 0} {u : Use}
      → Reaches uses P (u ∷ [])
      → P u
        ⊎ ((w : ℕ) × (u.skipped ≡ false)
            × (u.past_exit ≡ false)
            × (u.user ≡ pure w)
            × Reaches uses P (uses w))
  Reaches-one (here p) = inl p
  Reaches-one (through w s p e r) = inr (w, s, p, e, r)
  Reaches-one (later r) = elim r [ ]

  pub Reaches-none : {P : Use → Type 0} → ¬ Reaches uses P []
  Reaches-none = elim [ ]

  pub unreached :
      (us : List Use) (failed : Bool)
      → ¬ Reaches uses IsPast us
      → ¬ Reaches uses IsLeak us
      → JudgedUses us false failed
  unreached us failed np nl = record {
    fed = λ e. ground arith;
    told = λ r. elim (np r) [ ];
    caught = λ r. elim (nl r) [ ];
  }

  pub settled :
      {Open : ℕ → Type 0} {us : List Use} {s : Sinking} {b : Bool}
      → Good Open s
      → JudgedUses us b s.failure
      → Visited Open us s (b, s)
  settled g j = record { judged = j; kept = g; grows = λ e. e; blamed = λ e. inl e }

  pub weakened :
      {F L : Type 0} {b failed failed' : Bool}
      → Judged F L b failed
      → (failed ≡ true → failed' ≡ true)
      → Judged F L b failed'
  weakened j g = record { fed = j.fed; told = j.told; caught = λ l. g (j.caught l) }

  IsLeak-IsPast : {u : Use} → IsLeak u → ¬ Reaches uses IsPast (u ∷ [])
  IsLeak-IsPast (sk, pe, k) r = elim (Reaches-one r) [
    | inl (sk', pe') ↦ ground arith
    | inr (w, sk', pe', e, r') ↦ (elim k [ inl n ↦ ground arith | inr n ↦ ground arith ])
  ]

  failing :
      {Open : ℕ → Type 0} {u : Use} {s : Sinking}
      → Good Open s
      → IsLeak u
      → Visited Open (u ∷ []) s (false, fail_sink s)
  failing g (sk, pe, k) = record {
    judged = record {
      fed = λ e. ground arith;
      told = λ r. elim (IsLeak-IsPast (sk, pe, k) r) [ ];
      caught = λ r. refl;
    };
    kept = λ v b e. elim (g v b e) [ inl o ↦ inl o | inr j ↦ inr (weakened j (λ _. refl)) ];
    grows = λ e. refl;
    blamed = λ e. inr (here (sk, pe, k));
  }

  -- What a visit of a pure user must do.
  abbrev pub Visits : (ℕ → Type 0) → (ℕ → Sinking → Bool × Sinking) → ℕ → Type 0
  Visits Open visit w = (s : Sinking) → Good Open s → Visited Open (uses w) s (visit w s)

  through_one :
      {Open : ℕ → Type 0} {w : ℕ} {s : Sinking} {r : Bool × Sinking}
      → Visited Open (uses w) s r
      → Visited Open (record { skipped = false; past_exit = false; user = pure w } ∷ []) s r
  through_one {w = w} o = record {
    judged = record {
      fed = λ e. through w refl refl refl (o.judged.fed e);
      told = λ r. elim (Reaches-one r) [
        | inl (sk, pe) ↦ ground arith
        | inr (w', sk, pe, e, r') ↦
            (let q : w' ≡ w = ground arith in
              o.judged.told (subst (λ x. Reaches uses IsPast (uses x)) q r'))
      ];
      caught = λ r. elim (Reaches-one r) [
        | inl (sk, pe, k) ↦ (elim k [ inl n ↦ ground arith | inr n ↦ ground arith ])
        | inr (w', sk, pe, e, r') ↦
            (let q : w' ≡ w = ground arith in
              o.judged.caught (subst (λ x. Reaches uses IsLeak (uses x)) q r'))
      ];
    };
    kept = o.kept;
    grows = o.grows;
    blamed = λ e. elim (o.blamed e) [ inl f ↦ inl f | inr l ↦ inr (through w refl refl refl l) ];
  }

  -- Nothing is come to by a use that is of no such kind and is not followed.
  unfollowed :
      {u : Use} {P : Use → Type 0}
      → ¬ P u
      → ((w : ℕ) → u.skipped ≡ false → u.past_exit ≡ false → ¬ (u.user ≡ pure w))
      → ¬ Reaches uses P (u ∷ [])
  unfollowed kind stop r = elim (Reaches-one r) [
    | inl y ↦ kind y
    | inr (w, sk, pe, e, r') ↦ stop w sk pe e
  ]

  pub visit_use_parts :
      {Open : ℕ → Type 0} (visit : ℕ → Sinking → Bool × Sinking) (sk pe : Bool) (x : User)
      → ((w : ℕ) → x ≡ pure w → Visits Open visit w)
      → (s : Sinking) → Good Open s
      → Visited Open
          (record { skipped = sk; past_exit = pe; user = x } ∷ [])
          s
          (visit_use visit (record { skipped = sk; past_exit = pe; user = x }) s)
  unfolding visit_use
  visit_use_parts visit true pe x step s g = settled g (
      unreached _ _ (unfollowed (λ (a, b). ground arith) (λ w a b e. ground arith))
        (unfollowed (λ (a, b, c). ground arith) (λ w a b e. ground arith)))
  visit_use_parts visit false true x step s g = settled g (record {
    fed = λ e. here (refl, refl);
    told = λ r. refl;
    caught = λ r. elim (unfollowed (λ (a, b, c). ground arith) (λ w a b e. ground arith) r) [ ];
  })
  visit_use_parts visit false false not_instruction step s g = failing g (refl, refl, inl refl)
  visit_use_parts visit false false effect step s g = failing g (refl, refl, inr refl)
  visit_use_parts visit false false merge step s g = settled g (
      unreached _ _ (unfollowed (λ (a, b). ground arith) (λ w a b e. ground arith))
        (unfollowed (λ (a, b, c). ground arith) (λ w a b e. ground arith)))
  visit_use_parts visit false false (pure w) step s g = through_one (step w refl s g)
