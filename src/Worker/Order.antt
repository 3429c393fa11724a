-- ===== src/Worker/Order.antt =====
-- The order that promotions keep on the stack of a worker, and that `promote_frames` preserves it.
use spork_llvm.Base.{
  ℕ, Bool, true, false, List, [], ◌∷◌, ◌++◌, ◌≡◌, ◌≢◌, ◌⊎◌, inl, inr, refl, sym, ap, subst, ◌∙◌,
  arith, append_assoc, ◌==◌, sub32, Bool-cases,
}
use spork_llvm.Worker.{JobQueue, Request, share, Env, enqueue}
use spork_llvm.Worker.Stack.{
  Spork, Frame, opening, body, joining, waiting, submit_all, pending_jobs, promote, try_promote,
  promote_frame, promote_frames,
}

abbrev pub is_promoted : Frame → Bool
is_promoted (opening s) = s.promoted
is_promoted (body s) = s.promoted
is_promoted (joining js) = true
is_promoted (waiting js) = true

abbrev pub pending_of : Frame → List ℕ
pending_of (opening s) = s.pending
pending_of (body s) = s.pending
pending_of (joining js) = js
pending_of (waiting js) = js

-- The jobs that the frames still have to join, in the order in which they will.
abbrev pub pendings : List Frame → List ℕ
pendings [] = []
pendings (f ∷ fs) = pending_of f ++ pendings fs

abbrev pub AllPromoted : List Frame → Type 0
AllPromoted [] = Unit {0}
AllPromoted (f ∷ fs) = (is_promoted f ≡ true) × AllPromoted fs

-- A frame is promoted only after all frames around it, and has no jobs before.
abbrev pub Ordered : List Frame → Type 0
Ordered [] = Unit {0}
Ordered (f ∷ fs) =
    (is_promoted f ≡ true → AllPromoted fs)
    × (is_promoted f ≡ false → pending_of f ≡ [])
    × Ordered fs

module _ (S : JobQueue) where
  open S use {Queue, view, view-spawn}

  -- The jobs that a callback enqueues lie on the deque as they lie on the list of pending jobs.
  pub view-submit_all :
      (rs : List Request) (e : Env S) (js rest : List ℕ)
      → js ++ rest ≡ view e.queue
      → pending_jobs rs js ++ rest ≡ view (submit_all S rs e).queue
  unfolding submit_all enqueue
  view-submit_all [] e js rest h = h
  view-submit_all (r ∷ rs) e js rest h =
      view-submit_all rs (enqueue S r.job (share r.part e.tokens) e) (r.job ∷ js) rest
        (ap (◌∷◌ r.job) h ∙ sym (view-spawn r.job e.queue))

  abbrev Fires : (ℕ → List Request) → Spork → Env S → Type 0
  Fires work s e =
      (((try_promote S work (s, e)).0.promoted ≡ true)
        × ((try_promote S work (s, e)).0.pending ++ view e.queue
            ≡ view (try_promote S work (s, e)).1.queue))

  -- The visit of a slot that is not promoted, with and without tokens.
  pub try_promote_cases :
      (work : ℕ → List Request) (s : Spork) (e : Env S)
      → s.promoted ≡ false
      → s.pending ≡ []
      → ((e.tokens ≡ 0) × (try_promote S work (s, e) ≡ (s, e))) ⊎ ((e.tokens ≢ 0) × Fires work s e)
  unfolding try_promote promote
  try_promote_cases work s e p n = elim (Bool-cases (e.tokens == 0)) [
    | inl z ↦ inl (ground arith, rw z)
    | inr z ↦ inr (
      ground arith,
      rw (z, p)
          (
            refl,
            rw n (
                view-submit_all (work s.fn) (record e { tokens = sub32 e.tokens 1 }) []
                  (view e.queue) refl),
          ),
    )
  ]

  pub try_promote_promoted :
      (work : ℕ → List Request) (s : Spork) (e : Env S)
      → s.promoted ≡ true
      → try_promote S work (s, e) ≡ (s, e)
  unfolding try_promote
  try_promote_promoted work s e p = elim (Bool-cases (e.tokens == 0)) [
    | inl z ↦ rw z
    | inr z ↦ rw (z, p)
  ]

  pub promote_frame_promoted :
      (work : ℕ → List Request) (f : Frame) (e : Env S)
      → is_promoted f ≡ true
      → promote_frame S work f e ≡ (f, e)
  unfolding promote_frame
  promote_frame_promoted work (opening s) e p = rw (try_promote_promoted work s e p)
  promote_frame_promoted work (body s) e p = rw (try_promote_promoted work s e p)
  promote_frame_promoted work (joining js) e p = refl
  promote_frame_promoted work (waiting js) e p = refl

  pub promote_frames_all :
      (work : ℕ → List Request) (fs : List Frame) (e : Env S)
      → AllPromoted fs
      → promote_frames S work fs e ≡ (fs, e)
  unfolding promote_frames
  promote_frames_all work [] e a = refl
  promote_frames_all work (f ∷ fs) e a =
      rw (promote_frames_all work fs e a.1, promote_frame_promoted work f e a.0)

  pub record Kept (stolen : List ℕ) (r : List Frame × Env S) : Type 0 where
    pub ordered : Ordered r.0
    pub matches : pendings r.0 ≡ view r.1.queue ++ stolen
    pub used_up : r.1.tokens ≢ 0 → AllPromoted r.0

  -- A frame that is not promoted is `opening` or `body`; `wrap` is that constructor.
  visit-Kept :
      (work : ℕ → List Request) (wrap : Spork → Frame) (s : Spork) (fs : List Frame) (e : Env S)
      (stolen : List ℕ)
      → ((x : Spork) → (is_promoted (wrap x) ≡ x.promoted) × (pending_of (wrap x) ≡ x.pending))
      → s.promoted ≡ false
      → s.pending ≡ []
      → Kept stolen (fs, e)
      → Kept stolen (wrap (try_promote S work (s, e)).0 ∷ fs, (try_promote S work (s, e)).1)
  visit-Kept work wrap s fs e stolen w p n k = elim (try_promote_cases work s e p n) [
    | inl (z, q) ↦ rw q (record {
      ordered = (λ h. absurd (no h), λ h. (w s).1 ∙ n, k.ordered);
      matches = rw ((w s).1, n) k.matches;
      used_up = λ h. absurd (h z);
    })
    | inr (z, q) ↦ record {
      ordered = (λ h. k.used_up z, λ h. absurd (so q.0 h), k.ordered);
      matches = rw ((w after).1, k.matches, ← append_assoc) (ap (λ v. v ++ stolen) q.1);
      used_up = λ h. (is q.0, k.used_up z);
    }
  ]
    where
      after : Spork
      after = (try_promote S work (s, e)).0

      is : after.promoted ≡ true → is_promoted (wrap after) ≡ true
      is q = (w after).0 ∙ q

      so : after.promoted ≡ true → ¬ (is_promoted (wrap after) ≡ false)
      so q h = cc (is q)

      no : ¬ (is_promoted (wrap s) ≡ true)
      no h = cc ((w s).0)

  stays :
      (work : ℕ → List Request) (f : Frame) (fs : List Frame) (e : Env S) (stolen : List ℕ)
      → Ordered (f ∷ fs)
      → pendings (f ∷ fs) ≡ view e.queue ++ stolen
      → is_promoted f ≡ true
      → Kept stolen (promote_frames S work (f ∷ fs) e)
  stays work f fs e stolen o m p =
      subst (Kept stolen) (sym (promote_frames_all work (f ∷ fs) e (p, o.0 p)))
        (record { ordered = o; matches = m; used_up = λ _. (p, o.0 p) })

  pub promote_frames-Kept :
      (work : ℕ → List Request) (fs : List Frame) (e : Env S) (stolen : List ℕ)
      → Ordered fs
      → pendings fs ≡ view e.queue ++ stolen
      → Kept stolen (promote_frames S work fs e)
  unfolding promote_frames promote_frame
  promote_frames-Kept work [] e stolen o m = record { ordered = tt; matches = m; used_up = λ n. tt }
  promote_frames-Kept work (opening s ∷ fs) e stolen o m = elim (Bool-cases s.promoted) [
    | inl p ↦ stays work (opening s) fs e stolen o m p
    | inr p ↦
        visit-Kept work opening s _ _ stolen (λ x. (refl, refl)) p (o.1 p)
          (promote_frames-Kept work fs e stolen o.2 (rw (o.1 p) at m))
  ]
  promote_frames-Kept work (body s ∷ fs) e stolen o m = elim (Bool-cases s.promoted) [
    | inl p ↦ stays work (body s) fs e stolen o m p
    | inr p ↦
        visit-Kept work body s _ _ stolen (λ x. (refl, refl)) p (o.1 p)
          (promote_frames-Kept work fs e stolen o.2 (rw (o.1 p) at m))
  ]
  promote_frames-Kept work (joining js ∷ fs) e stolen o m =
      stays work (joining js) fs e stolen o m refl
  promote_frames-Kept work (waiting js ∷ fs) e stolen o m =
      stays work (waiting js) fs e stolen o m refl
