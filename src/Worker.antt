-- ===== src/Worker.antt =====
-- scheduler.hpp, `WorkStealingJob`: what one worker thread does with its jobs and its heartbeat
-- tokens. Children: the stack of open sporks of a thread with its steps (Stack), and what holds in
-- every state that the steps reach (Order, Reach, Join).
pub mod Stack
pub mod Order
pub mod Reach
pub mod Join
use spork_llvm.Base.{
  ℕ, ◌+◌, ◌/◌, Bool, true, false, Option, none, some, List, [], ◌∷◌, ◌≡◌, if◌then◌else◌, ◌==◌,
  add32, sub32,
}

-- What is used of parlay's scheduler, for the deque of the calling worker. `view` lists its jobs,
-- the one that was spawned last first. `spawn` is told of calls that return: on a full deque it
-- aborts the program.
pub record JobQueue : Type 1 where
  pub Queue : Type 0
  pub view : Queue → List ℕ
  pub spawn : ℕ → Queue → Queue
  pub get_own_job : Queue → Option ℕ × Queue
  pub view-spawn : (j : ℕ) (q : Queue) → view (spawn j q) ≡ j ∷ view q
  pub own_none :
      (q : Queue) → view q ≡ [] → ((get_own_job q).0 ≡ none) × (view (get_own_job q).1 ≡ [])
  pub own_some :
      (q : Queue) (j : ℕ) (js : List ℕ)
      → view q ≡ j ∷ js
      → ((get_own_job q).0 ≡ some j) × (view (get_own_job q).1 ≡ js)

-- The part of `tokens` that a promotion callback gives to a job that it enqueues.
pub data Share : Type 0 where
  half_down : Share  -- heartbeat_tokens >> 1
  half_up : Share  -- (heartbeat_tokens + 1) >> 1
  all : Share  -- heartbeat_tokens

unfoldable pub share : Share → ℕ → ℕ
share half_down t = t / 2
share half_up t = add32 t 1 / 2
share all t = t

pub record Request : Type 0 where
  pub job : ℕ
  pub part : Share

module _ (S : JobQueue) where
  open S use {Queue, spawn, get_own_job}

  -- The tokens of the thread, its deque of jobs, and the tokens that each job was given (`hbt`).
  pub record Env : Type 0 where
    pub tokens : ℕ
    pub queue : Queue
    pub hbt : ℕ → ℕ
    pub done : ℕ → Bool
    pub beating : Bool  -- the timer of the heartbeats runs

  -- `enqueue`
  unfoldable pub enqueue : ℕ → ℕ → Env → Env
  enqueue job with_tokens e = record e {
    hbt = λ j. if j == job then with_tokens else e.hbt j;
    tokens = if with_tokens == 0 then e.tokens else sub32 e.tokens with_tokens;
    queue = spawn job e.queue;
  }

  -- `try_dequeue`
  unfoldable pub try_dequeue : Env → Bool × Env
  try_dequeue e =
      let (own, q) = get_own_job e.queue in
      (elim own [ none ↦ false | some j ↦ true ], record e { queue = q })

  unfoldable pub start_heartbeats : Env → Env
  start_heartbeats e = record e { beating = true }

  unfoldable pub pause_heartbeats : Env → Env
  pause_heartbeats e = record e { beating = false }

  -- The tokens that a job brings back when its parent runs it itself.
  unfoldable pub reclaim : Bool → ℕ → Env → Env
  reclaim reclaim_tokens job e =
      if reclaim_tokens then record e { tokens = add32 e.tokens (e.hbt job) } else e

  -- The virtual `run` of a job, and `wait_until` of the scheduler, which returns when the job is
  -- done.
  module _ (run : ℕ → Env → Env) (wait_until : ℕ → Env → Env) where
    -- `operator()`
    unfoldable pub execute : ℕ → Env → Env
    unfolding start_heartbeats pause_heartbeats
    execute job e =
        let e₁ = pause_heartbeats (run job (start_heartbeats (record e { tokens = e.hbt job }))) in
        record e₁ { done = λ j. if j == job then true else e₁.done j }

    unfoldable pub wait : ℕ → Env → Env
    unfolding start_heartbeats pause_heartbeats
    wait job e = start_heartbeats (wait_until job (pause_heartbeats e))

    unfoldable pub fast_clone : Bool → ℕ → Env → Env
    unfolding reclaim
    fast_clone reclaim_tokens job e = run job (reclaim reclaim_tokens job e)

    unfoldable pub sync : Bool → ℕ → Env → Env
    unfolding try_dequeue fast_clone wait
    sync reclaim_tokens job e =
        let (unstolen, e₁) = try_dequeue e in
        if unstolen
        then fast_clone reclaim_tokens job e₁
        else (if e₁.done job then e₁ else wait job e₁)

    unfoldable pub sync_is_stolen : ℕ → Env → Bool × Env
    unfolding try_dequeue wait
    sync_is_stolen job e =
        let (unstolen, e₁) = try_dequeue e in
        if unstolen then (false, e₁) else (true, if e₁.done job then e₁ else wait job e₁)
