-- ===== src/Checks/OnWorker.antt =====
-- A worker that opens one spork with a full set of tokens and joins it.
use spork_llvm.Base.{ℕ, true, false, some, List, [], ◌∷◌, ◌≡◌, ◌≢◌, Mem, refl}
use spork_llvm.Worker.{Env, Request, half_down, try_dequeue, share, enqueue}
use spork_llvm.Worker.Stack.{
  Spork, opening, body, joining, open_slot, eager, close_promoted, Reach, idle, next, try_promote,
  new_spork,
}
use spork_llvm.Worker.Order.{Ordered, AllPromoted}
use spork_llvm.Worker.Reach.{settled}
use spork_llvm.Worker.Join.{sync-joins_own, promoted_outermost_first}
use spork_llvm.Checks.Queues.{list_queue}

abbrev fresh_env : Env list_queue
fresh_env = record { tokens = 30; queue = []; hbt = λ j. 0; done = λ j. false; beating = true }

-- `par`: the spork with callback `fn` enqueues one job, number 7, with half of the tokens.
abbrev par_work : ℕ → List Request
par_work fn = record { job = 7; part = half_down } ∷ []

abbrev after_eager : Spork × Env list_queue
after_eager = try_promote list_queue par_work (new_spork 1, fresh_env)

opened : Reach list_queue fresh_env (body after_eager.0 ∷ []) after_eager.1 []
opened =
    next (opening (new_spork 1) ∷ []) _ (next [] _ idle (open_slot 1 tt))
      (eager par_work (new_spork 1))

closed : Reach list_queue fresh_env (joining after_eager.0.pending ∷ []) after_eager.1 []
unfolding try_promote
closed = next (body after_eager.0 ∷ []) _ opened (close_promoted after_eager.0 refl)

tokens_after_eager : (after_eager.1.tokens ≡ 15) × (after_eager.1.hbt 7 ≡ 14)
unfolding try_promote enqueue share
tokens_after_eager = (refl, refl)

sync-joins_own_example :
    ((try_dequeue list_queue after_eager.1).0 ≡ true
      → (list_queue.get_own_job after_eager.1.queue).0 ≡ some 7)
    × ((try_dequeue list_queue after_eager.1).0 ≡ false → Mem {A = ℕ} 7 [])
unfolding try_promote
sync-joins_own_example = sync-joins_own list_queue {j = 7} {js = []} refl closed

promoted_outermost_first_example :
    Ordered (body after_eager.0 ∷ [])
    × (after_eager.1.tokens ≢ 0 → AllPromoted (settled (body after_eager.0 ∷ [])))
promoted_outermost_first_example = promoted_outermost_first list_queue refl opened
