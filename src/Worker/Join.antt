-- ===== src/Worker/Join.antt =====
-- What the joins and the heartbeats of a worker rely on.
use spork_llvm.Base.{ℕ, true, false, some, List, [], ◌∷◌, ◌++◌, ◌≡◌, ◌≢◌, Mem, ap, ◌∙◌}
use spork_llvm.Worker.{JobQueue, Env, try_dequeue}
use spork_llvm.Worker.Stack.{Frame, joining, Reach}
use spork_llvm.Worker.Order.{AllPromoted, Ordered, pendings}
use spork_llvm.Worker.Reach.{Inv, Reach-Inv, AllIn, settled, dequeued, not_dequeued}

module _ (S : JobQueue) {start : Env S} {fs : List Frame} {e : Env S} {taken : List ℕ} where
  open S use {view, get_own_job}

  -- `sync` and `sync_is_stolen` run or give up the job that they are called on, and not the one
  -- that `get_own_job` returned. In every state that an idle worker with an empty deque reaches by
  -- opening, promoting, closing and joining sporks, with heartbeats and thefts in any order, the two
  -- agree: if the deque yields a job it is the one to be joined next, and if it yields none that
  -- job was stolen.
  pub sync-joins_own :
      {j : ℕ} {js : List ℕ}
      → view start.queue ≡ []
      → Reach S start (joining (j ∷ js) ∷ fs) e taken
      → ((try_dequeue S e).0 ≡ true → (get_own_job e.queue).0 ≡ some j)
        × ((try_dequeue S e).0 ≡ false → Mem j taken)
  sync-joins_own {j} {js} empty r = (own (Reach-Inv S empty r), gone (Reach-Inv S empty r))
    where
      is_head :
          (stolen : List ℕ) → AllIn stolen taken → j ∷ (js ++ pendings fs) ≡ stolen → Mem j taken
      is_head [] a m = cc
      is_head (k ∷ ks) a m = let q : j ≡ k = cc in rw q a.0

      own :
          Inv S (joining (j ∷ js) ∷ fs) e taken
          → (try_dequeue S e).0 ≡ true
          → (get_own_job e.queue).0 ≡ some j
      own i h =
          let (k, v, q, q', g) = dequeued S e h in
          let m : j ∷ (js ++ pendings fs) ≡ k ∷ (v ++ i.stolen) = rw q at i.matches in
          g ∙ ap some (cc)

      gone : Inv S (joining (j ∷ js) ∷ fs) e taken → (try_dequeue S e).0 ≡ false → Mem j taken
      gone i h = is_head i.stolen i.thefts (rw (not_dequeued S e h).0 at i.matches)

  -- In every such state promotions are outermost first: a slot is promoted only if all slots around
  -- it are. Tokens are left only if all slots that have passed their eager check are promoted.
  pub promoted_outermost_first :
      view start.queue ≡ []
      → Reach S start fs e taken
      → Ordered fs × (e.tokens ≢ 0 → AllPromoted (settled fs))
  promoted_outermost_first empty r = (i.ordered, i.used_up)
    where
      i : Inv S fs e taken
      i = Reach-Inv S empty r
