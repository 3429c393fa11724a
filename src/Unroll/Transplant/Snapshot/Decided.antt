-- ===== src/Unroll/Transplant/Snapshot/Decided.antt =====
-- fablepass, the check that no loop depends on the snapshot of the bound decides just that.
use spork_llvm.Base.{
  ℕ, zero, suc, ◌+◌, ◌<◌, ◌≤◌, ◌≡◌, ◌↔◌, ◌⊎◌, inl, inr, Bool, true, List, [], ◌∷◌, length, some,
  refl, sym, subst, arith, Bool-cases,
}
use spork_llvm.Unroll.Marked.{is_in}
use spork_llvm.Unroll.Marked.Fuel.{unvisited, unvisited-le, Below}
use spork_llvm.Unroll.Transplant.Snapshot.{
  Tainting, taint_users, taint_all, untainted, snapshot_free,
}
use spork_llvm.Unroll.Transplant.Snapshot.Rounds.{
  In, Noted, noted_first, noted_rest, noted_self, only_one, taint_users-Noted,
}

-- The instruction uses the value, or uses an instruction that depends on it.
pub data Depends (users : ℕ → List ℕ) (root : ℕ) : ℕ → Type 0 where
  at_once : {u : ℕ} → In u (users root) → Depends users root u
  further : {u : ℕ} (v : ℕ) → Depends users root v → In u (users v) → Depends users root u

module _ (users : ℕ → List ℕ) (root n : ℕ) (bounded : (v : ℕ) → Below n (users v)) where
  Source : ℕ → Type 0
  Source v = (v ≡ root) ⊎ Depends users root v

  record Taints (t : Tainting) : Type 0 where
    sound : (x : ℕ) → In x t.snapshot → Depends users root x
    sources : (x : ℕ) → In x t.pending → Source x
    closed :
        (x : ℕ)
        → (x ≡ root) ⊎ In x t.snapshot
        → In x t.pending ⊎ ((u : ℕ) → In u (users x) → In u t.snapshot)

  follow : (v u : ℕ) → Source v → In u (users v) → Depends users root u
  unfolding Source
  follow v u (inl e) h = at_once (subst (λ y. In u (users y)) e h)
  follow v u (inr d) h = further v d h

  taint_round :
      (v : ℕ) (snapshot vs : List ℕ) (t' : Tainting)
      → Taints (record { snapshot = snapshot; pending = v ∷ vs })
      → Noted n (users v) (record { snapshot = snapshot; pending = vs }) t'
      → Taints t'
  unfolding Source
  taint_round v snapshot vs t' t o =
      let source = t.sources v (noted_self v vs) in
      record {
        sound = λ x h. elim (o.fresh x h) [
          | inl h' ↦ t.sound x h'
          | inr (h', _) ↦ follow v x source h'
        ];
        sources = λ x h. elim (o.awaited x h) [
          | inl h' ↦ t.sources x (noted_rest v x vs h')
          | inr h' ↦ inr (follow v x source h')
        ];
        closed = λ x h.
            let old : ((x ≡ root) ⊎ In x snapshot) ⊎ In x t'.pending = elim h [
              | inl e ↦ inl (inl e)
              | inr h' ↦ (elim (o.fresh x h') [ inl h'' ↦ inl (inr h'') | inr (_, w) ↦ inr w ])
            ] in
            elim old [
              | inr w ↦ inl w
              | inl h' ↦ (elim (t.closed x h') [
                | inr c ↦ inr (λ u m. o.grows u (c u m))
                | inl w ↦ (elim (noted_first v x vs w) [
                  | inl e ↦ inr (λ u m. o.all_in u (subst (λ y. In u (users y)) e m))
                  | inr w' ↦ inl (o.keeps x w')
                ])
              ])
            ];
      }

  -- With fuel for all instructions the list runs empty, and the set is what depends on the root.
  taint_all-Depends :
      (fuel : ℕ) (snapshot pending : List ℕ)
      → Taints (record { snapshot = snapshot; pending = pending })
      → unvisited n snapshot + length pending < fuel
      → (found : List ℕ) × (taint_all users fuel (record { snapshot = snapshot; pending = pending })
          ≡ some found)
        × ((x : ℕ) → In x found ↔ Depends users root x)
  unfolding taint_all
  taint_all-Depends zero snapshot pending t en = absurd (omega arith)
  taint_all-Depends (suc fuel) snapshot [] t en = (snapshot, refl, λ x. (t.sound x, reached x))
    where
      reached : (x : ℕ) → Depends users root x → In x snapshot
      reached x (at_once h) = elim (t.closed root (inl refl)) [ inl w ↦ absurd cc | inr c ↦ c x h ]
      reached x (further v d h) = elim (t.closed v (inr (reached v d))) [
        | inl w ↦ absurd cc
        | inr c ↦ c x h
      ]
  taint_all-Depends (suc fuel) snapshot (v ∷ vs) t en =
      let o =
        taint_users-Noted n (users v) (record { snapshot = snapshot; pending = vs }) (bounded v) in
      let t' = taint_users (users v) (record { snapshot = snapshot; pending = vs }) in
      taint_all-Depends fuel t'.snapshot t'.pending (taint_round v snapshot vs t' t o)
        (omega (arith, o.measure, en))

at_start :
    (users : ℕ → List ℕ) (root n : ℕ) (bounded : (v : ℕ) → Below n (users v))
    → Taints users root n bounded (record { snapshot = []; pending = root ∷ [] })
unfolding Source
at_start users root n bounded = record {
  sound = λ x h. absurd cc;
  sources = λ x h. inl (only_one root x h);
  closed = λ x h. elim h [
    | inl e ↦ inl (subst (λ y. In y (root ∷ [])) (sym e) (noted_self root []))
    | inr h' ↦ absurd cc
  ];
}

-- No instruction of the code has the property that the set stands for.
NoneOf : (P : ℕ → Type 0) → List ℕ → Type 0
NoneOf P code = (x : ℕ) → In x code → ¬ P x

untainted-NoneOf :
    {P : ℕ → Type 0} (snapshot code : List ℕ)
    → ((x : ℕ) → In x snapshot ↔ P x)
    → (untainted snapshot code ≡ true) ↔ NoneOf P code
unfolding untainted NoneOf
untainted-NoneOf snapshot [] is = (λ e x h. absurd cc, λ f. refl)
untainted-NoneOf snapshot (i ∷ code) is =
    let ih = untainted-NoneOf snapshot code is in
    elim (Bool-cases (is_in i snapshot)) [
      | inl q ↦ rw q (λ e. absurd cc, λ f. elim (f i (noted_self i code) ((is i).0 q)) [ ])
      | inr q ↦ rw q (
        λ e x h p. elim (noted_first i x code h) [
          | inl r ↦ absurd (let q' = (is x).1 p in let r' = subst (λ y. In y snapshot) r q' in cc)
          | inr h' ↦ ih.0 e x h' p
        ],
        λ f. ih.1 (λ x h. f x (noted_rest i x code h)),
      )
    ]

-- Let all users be instructions below `n`. With fuel for `n + 2` steps the check ends with a result,
-- which is true exactly when no instruction of the loops depends, by whatever chain of users, on the
-- root.
pub snapshot_free-Depends :
    (users : ℕ → List ℕ) (n fuel root : ℕ) (code : List ℕ)
    → ((v : ℕ) → Below n (users v))
    → n + 2 ≤ fuel
    → (b : Bool) × (snapshot_free users fuel root code ≡ some b)
      × ((b ≡ true) ↔ ((x : ℕ) → is_in x code ≡ true → ¬ Depends users root x))
unfolding snapshot_free NoneOf
snapshot_free-Depends users n fuel root code bounded en =
    let le = unvisited-le n [] in
    let (found, e, is) =
      taint_all-Depends users root n bounded fuel [] (root ∷ []) (at_start users root n bounded)
        (omega (arith, le, en)) in
    (untainted found code, rw (e, snapshot_free) refl, untainted-NoneOf found code is)
