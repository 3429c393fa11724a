-- ===== src/Unroll/Transplant/Sink/Noted.antt =====
-- fablepass, the plan for the uses behind an exit has noted every instruction that it may be asked for.
use spork_llvm.Base.{
  ℕ, zero, suc, ◌+◌, ◌<◌, ◌≤◌, ◌≡◌, ◌⊎◌, inl, inr, Bool, true, false, List, [], ◌∷◌, some, ◌==◌,
  refl, subst, arith, Bool-cases, Option-cases,
}
use spork_llvm.Unroll.Transplant.Sink.{
  User, not_instruction, merge, effect, pure, Use, Sinking, lookup_needs, fail_sink, visit_use,
  visit_uses, note_need, visit_needs,
}
use spork_llvm.Unroll.Transplant.Sink.Visits.{Reaches, here, through, later, Numbers}

abbrev pub IsNoted : ℕ → Sinking → Type 0
IsNoted w s = (b : Bool) × (lookup_needs w s.needs ≡ some b)

-- The use is followed, to this pure instruction.
abbrev pub IsFollowed : ℕ → Use → Type 0
IsFollowed w u = (u.skipped ≡ false) × (u.past_exit ≡ false) × (u.user ≡ pure w)

abbrev pub AllNoted : List Use → Sinking → Type 0
AllNoted [] s = Unit {0}
AllNoted (u ∷ us) s = ((w : ℕ) → IsFollowed w u → IsNoted w s) × AllNoted us s

IsNoted-self : (v : ℕ) (b : Bool) (s : Sinking) → IsNoted v (note_need v b s)
IsNoted-self v b s = let q : (v == v) ≡ true = ground arith in (b, rw q refl)

IsNoted-again : (v w : ℕ) (b : Bool) (s : Sinking) → IsNoted w s → IsNoted w (note_need v b s)
IsNoted-again v w b s (c, e) = elim (Bool-cases (v == w)) [
  | inl q ↦ (b, rw q refl)
  | inr q ↦ (c, rw q e)
]

IsNoted-before :
    (v w : ℕ) (b : Bool) (s : Sinking) → IsNoted w (note_need v b s) → (v ≡ w) ⊎ IsNoted w s
IsNoted-before v w b s (c, e) = elim (Bool-cases (v == w)) [
  | inl q ↦ inl (ground arith)
  | inr q ↦ inr (c, ground arith)
]

AllNoted-keeps :
    (s t : Sinking) (us : List Use)
    → ((w : ℕ) → IsNoted w s → IsNoted w t)
    → AllNoted us s
    → AllNoted us t
AllNoted-keeps s t [] f h = tt
AllNoted-keeps s t (u ∷ us) f (h, hs) = (λ w e. f w (h w e), AllNoted-keeps s t us f hs)

module _ (uses : ℕ → List Use) where
  abbrev pub Closed : (ℕ → Type 0) → Sinking → Type 0
  Closed Open s = (v : ℕ) → IsNoted v s → Open v ⊎ AllNoted (uses v) s

  pub record Notes (Open : ℕ → Type 0) (us : List Use) (s t : Sinking) : Type 0 where
    pub keeps : (w : ℕ) → IsNoted w s → IsNoted w t
    pub notes : AllNoted us t
    pub closed : Closed Open t

  abbrev NotesPure : (ℕ → Type 0) → (ℕ → Sinking → Bool × Sinking) → ℕ → Type 0
  NotesPure Open visit w =
      (s : Sinking) → Closed Open s → IsNoted w (visit w s).1 × Notes Open [] s (visit w s).1

  AllNoted-or :
      {O : Type 0} (s t : Sinking) (v : ℕ)
      → ((w : ℕ) → IsNoted w s → IsNoted w t)
      → O ⊎ AllNoted (uses v) s
      → O ⊎ AllNoted (uses v) t
  AllNoted-or s t v f (inl o) = inl o
  AllNoted-or s t v f (inr a) = inr (AllNoted-keeps s t (uses v) f a)

  Closed-failing : {Open : ℕ → Type 0} (s : Sinking) → Closed Open s → Closed Open (fail_sink s)
  Closed-failing s c v h = AllNoted-or s (fail_sink s) v (λ w e. e) (c v h)

  unfollowed_use :
      {Open : ℕ → Type 0} (u : Use) (s : Sinking)
      → Closed Open s
      → ((w : ℕ) → ¬ IsFollowed w u)
      → Notes Open (u ∷ []) s s
  unfollowed_use u s c stop = record {
    keeps = λ w h. h;
    notes = (λ w f. elim (stop w f) [ ], tt);
    closed = c;
  }

  visit_use-Notes :
      {Open : ℕ → Type 0} (visit : ℕ → Sinking → Bool × Sinking) (sk pe : Bool) (x : User)
      → ((w : ℕ) → x ≡ pure w → NotesPure Open visit w)
      → (s : Sinking) → Closed Open s
      → Notes Open
          (record { skipped = sk; past_exit = pe; user = x } ∷ [])
          s
          (visit_use visit (record { skipped = sk; past_exit = pe; user = x }) s).1
  unfolding visit_use
  visit_use-Notes visit true pe x step s c = unfollowed_use _ s c (λ w (a, b, e). ground arith)
  visit_use-Notes visit false true x step s c = unfollowed_use _ s c (λ w (a, b, e). ground arith)
  visit_use-Notes visit false false merge step s c =
      unfollowed_use _ s c (λ w (a, b, e). ground arith)
  visit_use-Notes visit false false not_instruction step s c = record {
    keeps = λ w h. h;
    notes = (λ w (a, b, e). ground arith, tt);
    closed = Closed-failing s c;
  }
  visit_use-Notes visit false false effect step s c = record {
    keeps = λ w h. h;
    notes = (λ w (a, b, e). ground arith, tt);
    closed = Closed-failing s c;
  }
  visit_use-Notes visit false false (pure v) step s c =
      let (self, o) = step v refl s c in
      record {
        keeps = o.keeps;
        notes = (
          λ w (a, b, e).
              (let q : v ≡ w = ground arith in subst (λ y. IsNoted y (visit v s).1) q self),
          tt,
        );
        closed = o.closed;
      }

  visit_uses-Notes :
      {Open : ℕ → Type 0} {low high : ℕ} (visit : ℕ → Sinking → Bool × Sinking) (us : List Use)
      → Numbers low high us
      → ((w : ℕ) → low ≤ w → w < high → NotesPure Open visit w)
      → (s : Sinking) → Closed Open s
      → Notes Open us s (visit_uses visit us s).1
  unfolding visit_uses
  visit_uses-Notes visit [] ns step s c = record { keeps = λ w h. h; notes = tt; closed = c }
  visit_uses-Notes visit (u ∷ us) (n, ns) step s c =
      let o =
        visit_use-Notes visit u.skipped u.past_exit u.user (λ w e. step w (n w e).0 (n w e).1) s
          c in
      let o' = visit_uses-Notes visit us ns step (visit_use visit u s).1 o.closed in
      record {
        keeps = λ w h. o'.keeps w (o.keeps w h);
        notes = (λ w f. o'.keeps w (o.notes.0 w f), o'.notes);
        closed = o'.closed;
      }

  -- A value on the way is open.
  Closed-open :
      {Open : ℕ → Type 0} (v : ℕ) (s : Sinking)
      → Closed Open s
      → Closed (λ w. Open w ⊎ (v ≡ w)) (note_need v false s)
  Closed-open v s c w h = elim (IsNoted-before v w false s h) [
    | inl q ↦ inl (inr q)
    | inr h' ↦
        (elim (AllNoted-or s (note_need v false s) w (λ x. IsNoted-again v x false s) (c w h')) [
          | inl o ↦ inl (inl o)
          | inr a ↦ inr a
        ])
  ]

  -- When all its uses are noted it is open no more.
  Notes-close :
      {Open : ℕ → Type 0} (v : ℕ) (s : Sinking) (b : Bool) (t : Sinking)
      → Notes (λ w. Open w ⊎ (v ≡ w)) (uses v) (note_need v false s) t
      → IsNoted v (note_need v b t) × Notes Open [] s (note_need v b t)
  Notes-close {Open = Open} v s b t o =
      let again : (w : ℕ) → IsNoted w t → IsNoted w (note_need v b t) =
        λ w. IsNoted-again v w b t in
      let own : (w : ℕ) → v ≡ w → Open w ⊎ AllNoted (uses w) (note_need v b t) = λ w q. inr (
        subst (λ x. AllNoted (uses x) (note_need v b t)) q
          (AllNoted-keeps t (note_need v b t) (uses v) again o.notes)) in
      (
        IsNoted-self v b t,
        record {
          keeps = λ w h. again w (o.keeps w (IsNoted-again v w false s h));
          notes = tt;
          closed = λ w h. elim (IsNoted-before v w b t h) [
            | inl q ↦ own w q
            | inr h' ↦ (elim (o.closed w h') [
              | inl (inl p) ↦ inl p
              | inl (inr q) ↦ own w q
              | inr a ↦ inr (AllNoted-keeps t (note_need v b t) (uses w) again a)
            ])
          ];
        },
      )

  visit_needs-Notes :
      {n : ℕ}
      → ((v : ℕ) → Numbers (suc v) n (uses v))
      → (fuel : ℕ) {Open : ℕ → Type 0} (v : ℕ) → v < n
      → n ≤ v + fuel
      → NotesPure Open (visit_needs uses fuel) v
  unfolding visit_needs
  visit_needs-Notes ord zero v lt en s c = absurd (omega arith)
  visit_needs-Notes {n = n} ord (suc fuel) {Open = Open} v lt en s c =
      elim (Option-cases (lookup_needs v s.needs)) [
        | inl e ↦
            rw (e, visit_needs)
              (Notes-close v s _ _ (
                visit_uses-Notes (visit_needs uses fuel) (uses v) (ord v)
                  (λ w lo hi. visit_needs-Notes ord fuel w hi (omega arith)) (note_need v false s)
                  (Closed-open v s c)))
        | inr (b, e) ↦
            rw (e, visit_needs) ((b, e), record { keeps = λ w h. h; notes = tt; closed = c })
      ]

  -- Where nothing is open, all that is come to by pure instructions is noted.
  IsFollowed-IsNoted :
      (s : Sinking) (w : ℕ) (us : List Use)
      → Closed (λ v. ⊥) s
      → AllNoted us s
      → Reaches uses (IsFollowed w) us
      → IsNoted w s
  IsFollowed-IsNoted s w [] c h r = elim r [ ]
  IsFollowed-IsNoted s w (u ∷ us) c (h, hs) (here p) = h w p
  IsFollowed-IsNoted s w (u ∷ us) c (h, hs) (later r) = IsFollowed-IsNoted s w us c hs r
  IsFollowed-IsNoted s w (u ∷ us) c (h, hs) (through v sk pe e r) = elim (c v (h v (sk, pe, e))) [
    | inl o ↦ elim o [ ]
    | inr a ↦ IsFollowed-IsNoted s w (uses v) c a r
  ]

  -- The visit of the uses of the limit, from nothing noted.
  pub visit_uses-IsNoted :
      (n fuel : ℕ) (root : List Use)
      → ((v : ℕ) → Numbers (suc v) n (uses v))
      → Numbers 0 n root
      → n ≤ fuel
      → (w : ℕ) → Reaches uses (IsFollowed w) root
      → IsNoted w
          (visit_uses (visit_needs uses fuel) root (record { needs = []; failure = false })).1
  visit_uses-IsNoted n fuel root ord first en w r =
      let o =
        visit_uses-Notes {Open = λ v. ⊥} (visit_needs uses fuel) root first
          (λ v lo hi. visit_needs-Notes ord fuel v hi (omega arith))
          (record { needs = []; failure = false }) (λ v (b, e). absurd cc) in
      IsFollowed-IsNoted _ w root o.closed o.notes r
