-- ===== src/Worker/Reach.antt =====
-- What holds in every state that a worker reaches.
use mathlib.Core.List.{mem-cons, mem-cons_self}
use mathlib.Core.Logic.Or
use spork_llvm.Base.{
  ℕ, Bool, true, false, some, List, [], ◌∷◌, ◌++◌, ◌≡◌, ◌≢◌, inl, inr, refl, sym, subst, ap, ◌∙◌,
  arith, append_assoc, Mem, Bool-cases,
}
use spork_llvm.Slots.{refill}
use spork_llvm.Worker.{JobQueue, Request, Env, reclaim, try_dequeue}
use spork_llvm.Worker.Stack.{
  Spork, Frame, opening, body, joining, waiting, Worker, Step, open_slot, eager, beat, steal,
  close_quiet, close_promoted, sync_own, sync_stolen, run_other, wake, joined, Reach, idle, next,
  try_promote, promote_frame, promote_frames, heartbeat, is_opening, CanOpen,
}
use spork_llvm.Worker.Order.{
  pendings, AllPromoted, Ordered, promote_frames-Kept, try_promote_cases, try_promote_promoted,
}

-- Only the frame on top may be in `opening`.
abbrev pub NoOpening : List Frame → Type 0
NoOpening [] = Unit {0}
NoOpening (f ∷ fs) = (is_opening f ≡ false) × NoOpening fs

abbrev pub below : List Frame → List Frame
below [] = []
below (f ∷ fs) = fs

-- The slots that have passed their eager check.
abbrev pub settled : List Frame → List Frame
settled (opening s ∷ fs) = fs
settled fs = fs

single_all : (fs : List Frame) → CanOpen fs → NoOpening (below fs) → NoOpening fs
single_all [] can n = n
single_all (f ∷ fs) can n = (can, n)

settled-CanOpen : (fs : List Frame) → CanOpen fs → settled fs ≡ fs
settled-CanOpen [] can = refl
settled-CanOpen (opening s ∷ fs) can = absurd (ground arith)
settled-CanOpen (body s ∷ fs) can = refl
settled-CanOpen (joining js ∷ fs) can = refl
settled-CanOpen (waiting js ∷ fs) can = refl

NoOpening-below : (fs : List Frame) → NoOpening fs → NoOpening (below fs)
NoOpening-below [] n = n
NoOpening-below (f ∷ fs) n = n.1

AllPromoted-settled : (fs : List Frame) → AllPromoted fs → AllPromoted (settled fs)
AllPromoted-settled [] a = a
AllPromoted-settled (opening s ∷ fs) a = a.1
AllPromoted-settled (body s ∷ fs) a = a
AllPromoted-settled (joining js ∷ fs) a = a
AllPromoted-settled (waiting js ∷ fs) a = a

abbrev pub AllIn : List ℕ → List ℕ → Type 0
AllIn [] ys = Unit {0}
AllIn (x ∷ xs) ys = Mem x ys × AllIn xs ys

AllIn-cons : (y : ℕ) (xs ys : List ℕ) → AllIn xs ys → AllIn xs (y ∷ ys)
AllIn-cons y [] ys a = a
AllIn-cons y (x ∷ xs) ys a = (mem-cons.1 (Or.inr a.0), AllIn-cons y xs ys a.1)

module _ (S : JobQueue) where
  open S use {Queue, view, get_own_job, own_none, own_some}

  pub record Inv (fs : List Frame) (e : Env S) (taken : List ℕ) : Type 0 where
    pub ordered : Ordered fs
    pub single : NoOpening (below fs)
    -- tokens are left only if every settled slot is promoted
    pub used_up : e.tokens ≢ 0 → AllPromoted (settled fs)
    -- of the jobs that are to be joined, the last ones lie on the deque, and the others were stolen
    pub stolen : List ℕ
    pub matches : pendings fs ≡ view e.queue ++ stolen
    pub thefts : AllIn stolen taken

  abbrev pub InvOf : Worker S → Type 0
  InvOf w = Inv w.stack w.env w.taken

  pub dequeued :
      (e : Env S)
      → (try_dequeue S e).0 ≡ true
      → (j : ℕ) × (js : List ℕ) × (view e.queue ≡ j ∷ js)
        × (view (try_dequeue S e).1.queue ≡ js)
        × ((get_own_job e.queue).0 ≡ some j)
  unfolding try_dequeue
  dequeued e h = go (view e.queue) refl
    where
      go :
          (v : List ℕ)
          → view e.queue ≡ v
          → (j : ℕ) × (js : List ℕ) × (view e.queue ≡ j ∷ js)
            × (view (try_dequeue S e).1.queue ≡ js)
            × ((get_own_job e.queue).0 ≡ some j)
      go [] q = absurd (ground (arith, (own_none e.queue q).0))
      go (j ∷ js) q = (j, js, q, (own_some e.queue j js q).1, (own_some e.queue j js q).0)

  pub not_dequeued :
      (e : Env S)
      → (try_dequeue S e).0 ≡ false
      → (view e.queue ≡ []) × (view (try_dequeue S e).1.queue ≡ [])
  unfolding try_dequeue
  not_dequeued e h = go (view e.queue) refl
    where
      go :
          (v : List ℕ)
          → view e.queue ≡ v
          → (view e.queue ≡ []) × (view (try_dequeue S e).1.queue ≡ [])
      go [] q = (q, (own_none e.queue q).1)
      go (j ∷ js) q = absurd (ground (arith, (own_some e.queue j js q).0))

  reclaim-queue : (b : Bool) (j : ℕ) (e : Env S) → (reclaim S b j e).queue ≡ e.queue
  unfolding reclaim
  reclaim-queue true j e = refl
  reclaim-queue false j e = refl

  sync_own-Inv :
      {fs : List Frame} {e : Env S} {taken : List ℕ} (reclaims : Bool) (j : ℕ) (js : List ℕ)
      → (try_dequeue S e).0 ≡ true
      → Inv (joining (j ∷ js) ∷ fs) e taken
      → Inv (joining js ∷ fs) (reclaim S reclaims j (try_dequeue S e).1) taken
  sync_own-Inv {fs} {e} reclaims j js own i =
      let (k, v, q, q', g) = dequeued e own in
      let m : j ∷ (js ++ pendings fs) ≡ k ∷ (v ++ i.stolen) = rw q at i.matches in
      record {
        ordered = (i.ordered.0, λ h. cc, i.ordered.2);
        single = i.single;
        used_up = λ n. (refl, i.ordered.0 refl);
        stolen = i.stolen;
        matches = rw (reclaim-queue reclaims j (try_dequeue S e).1, q') (cc);
        thefts = i.thefts;
      }

  sync_stolen-Inv :
      {fs : List Frame} {e : Env S} {taken : List ℕ} (j : ℕ) (js : List ℕ)
      → (try_dequeue S e).0 ≡ false
      → Inv (joining (j ∷ js) ∷ fs) e taken
      → Inv (waiting js ∷ fs) (try_dequeue S e).1 taken
  sync_stolen-Inv {fs} {e} {taken} j js none_left i = go i.stolen i.thefts (rw q.0 at i.matches)
    where
      q : (view e.queue ≡ []) × (view (try_dequeue S e).1.queue ≡ [])
      q = not_dequeued e none_left

      go :
          (stolen : List ℕ)
          → AllIn stolen taken
          → j ∷ (js ++ pendings fs) ≡ stolen
          → Inv (waiting js ∷ fs) (try_dequeue S e).1 taken
      go [] a m = cc
      go (k ∷ ks) a m = record {
        ordered = (i.ordered.0, λ h. cc, i.ordered.2);
        single = i.single;
        used_up = λ n. (refl, i.ordered.0 refl);
        stolen = ks;
        matches = rw q.1 (cc);
        thefts = a.1;
      }

  NoOpening-promote_frames :
      (work : ℕ → List Request) (fs : List Frame) (e : Env S)
      → NoOpening fs
      → NoOpening (promote_frames S work fs e).0
  unfolding promote_frames promote_frame
  NoOpening-promote_frames work [] e n = n
  NoOpening-promote_frames work (opening s ∷ fs) e n = (n.0, NoOpening-promote_frames work fs e n.1)
  NoOpening-promote_frames work (body s ∷ fs) e n = (n.0, NoOpening-promote_frames work fs e n.1)
  NoOpening-promote_frames work (joining js ∷ fs) e n =
      (n.0, NoOpening-promote_frames work fs e n.1)
  NoOpening-promote_frames work (waiting js ∷ fs) e n =
      (n.0, NoOpening-promote_frames work fs e n.1)

  single-promote_frames :
      (work : ℕ → List Request) (fs : List Frame) (e : Env S)
      → NoOpening (below fs)
      → NoOpening (below (promote_frames S work fs e).0)
  unfolding promote_frames
  single-promote_frames work [] e n = n
  single-promote_frames work (f ∷ fs) e n = NoOpening-promote_frames work fs e n

  eager-Inv :
      {fs : List Frame} {e : Env S} {taken : List ℕ} (work : ℕ → List Request) (s : Spork)
      → Inv (opening s ∷ fs) e taken
      → (r : Spork × Env S) → try_promote S work (s, e) ≡ r
      → Inv (body r.0 ∷ fs) r.1 taken
  eager-Inv {fs} {e} {taken} work s i r q = elim (Bool-cases s.promoted) [
    | inl p ↦
        subst (λ (x : Spork × Env S). Inv (body x.0 ∷ fs) x.1 taken)
          (sym (try_promote_promoted S work s e p) ∙ q)
          (record {
            ordered = i.ordered;
            single = i.single;
            used_up = λ n. (p, i.used_up n);
            stolen = i.stolen;
            matches = i.matches;
            thefts = i.thefts;
          })
    | inr p ↦ elim (try_promote_cases S work s e p (i.ordered.1 p)) [
      | inl (z, t) ↦
          subst (λ (x : Spork × Env S). Inv (body x.0 ∷ fs) x.1 taken) (sym t ∙ q)
            (record {
              ordered = i.ordered;
              single = i.single;
              used_up = λ n. absurd (n z);
              stolen = i.stolen;
              matches = i.matches;
              thefts = i.thefts;
            })
      | inr (z, (pr, vw)) ↦
          subst (λ (x : Spork × Env S). Inv (body x.0 ∷ fs) x.1 taken) q
            (record {
              ordered = (λ _. i.used_up z, λ h. cc, i.ordered.2);
              single = i.single;
              used_up = λ n. (pr, i.used_up z);
              stolen = i.stolen;
              matches =
                  rw (rw (i.ordered.1 p) at i.matches, ← append_assoc) (ap (λ v. v ++ i.stolen) vw);
              thefts = i.thefts;
            })
    ]
  ]

  Step-Inv :
      {fs : List Frame} {e : Env S} {taken : List ℕ} {top : List Frame} {w : Worker S}
      → Step S fs e taken top w
      → Inv (top ++ fs) e taken
      → InvOf w
  unfolding heartbeat
  Step-Inv {fs} (open_slot fn can) i = record {
    ordered = (λ h. cc, λ h. refl, i.ordered);
    single = single_all fs can i.single;
    used_up = λ n. rw (← settled-CanOpen fs can) (i.used_up n);
    stolen = i.stolen;
    matches = i.matches;
    thefts = i.thefts;
  }
  Step-Inv (eager work s) i = eager-Inv work s i _ refl
  Step-Inv {fs} {e} (beat work) i =
      let k =
        promote_frames-Kept S work fs (record e { tokens = refill e.tokens }) i.stolen i.ordered
          i.matches in
      record {
        ordered = k.ordered;
        single = single-promote_frames work fs _ i.single;
        used_up = λ n. AllPromoted-settled _ (k.used_up n);
        stolen = i.stolen;
        matches = k.matches;
        thefts = i.thefts;
      }
  Step-Inv {fs} {e} {taken} (steal q js j vq vq') i = record {
    ordered = i.ordered;
    single = i.single;
    used_up = i.used_up;
    stolen = j ∷ i.stolen;
    matches = rw vq' (rw (vq, append_assoc) at i.matches);
    thefts = (mem-cons_self, AllIn-cons j i.stolen taken i.thefts);
  }
  Step-Inv {fs} (close_quiet s p) i = record {
    ordered = i.ordered.2;
    single = NoOpening-below fs i.single;
    used_up = λ n. AllPromoted-settled fs (i.used_up n).1;
    stolen = i.stolen;
    matches = rw (i.ordered.1 p) at i.matches;
    thefts = i.thefts;
  }
  Step-Inv (close_promoted s p) i = record {
    ordered = (λ h. i.ordered.0 p, λ h. cc, i.ordered.2);
    single = i.single;
    used_up = λ n. (refl, i.ordered.0 p);
    stolen = i.stolen;
    matches = i.matches;
    thefts = i.thefts;
  }
  Step-Inv (sync_own reclaims j js own) i = sync_own-Inv reclaims j js own i
  Step-Inv (sync_stolen j js none_left) i = sync_stolen-Inv j js none_left i
  Step-Inv (run_other js tokens) i = record {
    ordered = i.ordered;
    single = i.single;
    used_up = λ n. (refl, i.ordered.0 refl);
    stolen = i.stolen;
    matches = i.matches;
    thefts = i.thefts;
  }
  Step-Inv (wake js) i = record {
    ordered = i.ordered;
    single = i.single;
    used_up = i.used_up;
    stolen = i.stolen;
    matches = i.matches;
    thefts = i.thefts;
  }
  Step-Inv {fs} joined i = record {
    ordered = i.ordered.2;
    single = NoOpening-below fs i.single;
    used_up = λ n. AllPromoted-settled fs (i.used_up n).1;
    stolen = i.stolen;
    matches = i.matches;
    thefts = i.thefts;
  }

  -- So it holds in every state that an idle worker reaches.
  pub Reach-Inv :
      {start : Env S} {fs : List Frame} {e : Env S} {taken : List ℕ}
      → view start.queue ≡ []
      → Reach S start fs e taken
      → Inv fs e taken
  Reach-Inv {start} empty idle = record {
    ordered = tt;
    single = tt;
    used_up = λ n. tt;
    stolen = [];
    matches = rw empty;
    thefts = tt;
  }
  Reach-Inv empty (next top w r st) = Step-Inv st (Reach-Inv empty r)
