-- ===== src/Worker/Stack.antt =====
-- One worker thread as a stack of open sporks, innermost first, and the steps that change it:
-- `with_prom_handler` (scheduler.hpp) and the joins that follow it in spork.hpp, par.hpp, fib.hpp,
-- parfor.hpp and scan.hpp, a heartbeat between any two of them, and thefts by other workers.
use spork_llvm.Base.{
  ℕ, Bool, true, false, not, ◌&&◌, List, [], ◌∷◌, ◌++◌, ◌≡◌, if◌then◌else◌, ◌==◌, sub32,
}
use spork_llvm.Slots.{refill}
use spork_llvm.Worker.{JobQueue, Request, share, Env, enqueue, reclaim, try_dequeue}

-- A slot of the spork deque, with the jobs that its promotion enqueued, the last one first.
pub record Spork : Type 0 where
  pub fn : ℕ
  pub promoted : Bool
  pub pending : List ℕ

pub data Frame : Type 0 where
  opening : Spork → Frame  -- the slot is in the deque; the eager check is still to come
  body : Spork → Frame
  joining : List ℕ → Frame  -- closed and promoted, with the jobs that are still to be joined
  waiting : List ℕ → Frame  -- in `wait` for a stolen job; others are to be joined after it

abbrev pub pending_jobs : List Request → List ℕ → List ℕ
pending_jobs [] js = js
pending_jobs (r ∷ rs) js = pending_jobs rs (r.job ∷ js)

abbrev pub new_spork : ℕ → Spork
new_spork fn = record { fn = fn; promoted = false; pending = [] }

abbrev pub is_opening : Frame → Bool
is_opening (opening s) = true
is_opening _ = false

-- A new slot is built in the body of another, or while another joins.
abbrev pub CanOpen : List Frame → Type 0
CanOpen [] = Unit {0}
CanOpen (f ∷ fs) = is_opening f ≡ false

module _ (S : JobQueue) where
  open S use {Queue, view, get_own_job}

  pub record Worker : Type 0 where
    pub stack : List Frame
    pub env : Env S
    pub taken : List ℕ  -- every job that was stolen from the deque, the last one first

  abbrev pub submit : Request → Env S → Env S
  submit r e = enqueue S r.job (share r.part e.tokens) e

  -- What a promotion callback does: `enqueue` for each request, in order.
  unfoldable pub submit_all : List Request → Env S → Env S
  submit_all [] e = e
  submit_all (r ∷ rs) e = submit_all rs (submit r e)

  -- `promote`, with the requests that the slot's callback makes now.
  unfoldable pub promote : List Request → Spork × Env S → Spork × Env S
  unfolding submit_all
  promote requests (s, e) = (
    record s { promoted = true; pending = pending_jobs requests s.pending },
    submit_all requests (record e { tokens = sub32 e.tokens 1 }),
  )

  -- `if (heartbeat_tokens && !promoted)` of `eager_promote`, and the loop body of `promote_front`.
  unfoldable pub try_promote : (ℕ → List Request) → Spork × Env S → Spork × Env S
  unfolding promote
  try_promote work (s, e) =
      if not (e.tokens == 0) && not s.promoted then promote (work s.fn) (s, e) else (s, e)

  unfoldable pub promote_frame : (ℕ → List Request) → Frame → Env S → Frame × Env S
  unfolding try_promote
  promote_frame work (opening s) e = let (s', e') = try_promote work (s, e) in (opening s', e')
  promote_frame work (body s) e = let (s', e') = try_promote work (s, e) in (body s', e')
  promote_frame work (joining js) e = (joining js, e)
  promote_frame work (waiting js) e = (waiting js, e)

  -- `promote_front`: the outermost slots first. Once the tokens are used up nothing changes.
  unfoldable pub promote_frames : (ℕ → List Request) → List Frame → Env S → List Frame × Env S
  unfolding promote_frame
  promote_frames work [] e = ([], e)
  promote_frames work (f ∷ fs) e =
      let (fs', e₁) = promote_frames work fs e in
      let (f', e₂) = promote_frame work f e₁ in (f' ∷ fs', e₂)

  unfoldable pub heartbeat : (ℕ → List Request) → List Frame → Env S → List Frame × Env S
  unfolding promote_frames
  heartbeat work fs e = promote_frames work fs (record e { tokens = refill e.tokens })

  -- One step. `fs` are the frames below the one that acts, `e` the thread's own state.
  pub data Step (fs : List Frame) (e : Env S) (taken : List ℕ) : List Frame → Worker → Type 0 where
    -- the constructor of the slot
    open_slot :
        (fn : ℕ)
        → CanOpen fs
        → Step fs e taken []
            (record { stack = opening (new_spork fn) ∷ fs; env = e; taken = taken })
    -- `if (heartbeat_tokens) slot.eager_promote(prom)`
    eager :
        (work : ℕ → List Request) (s : Spork)
        → Step fs e taken (opening s ∷ []) (record {
          stack = body (try_promote work (s, e)).0 ∷ fs;
          env = (try_promote work (s, e)).1;
          taken = taken;
        })
    -- `heartbeat_handler`
    beat :
        (work : ℕ → List Request)
        → Step fs e taken [] (record {
          stack = (heartbeat work fs e).0;
          env = (heartbeat work fs e).1;
          taken = taken;
        })
    -- another worker takes the oldest job of the deque
    steal :
        (q : Queue) (js : List ℕ) (j : ℕ)
        → view e.queue ≡ js ++ j ∷ []
        → view q ≡ js
        → Step fs e taken []
            (record { stack = fs; env = record e { queue = q }; taken = j ∷ taken })
    -- `close` on a slot that was not promoted, and on one that was
    close_quiet :
        (s : Spork)
        → s.promoted ≡ false
        → Step fs e taken (body s ∷ []) (record { stack = fs; env = e; taken = taken })
    close_promoted :
        (s : Spork)
        → s.promoted ≡ true
        → Step fs e taken
            (body s ∷ [])
            (record { stack = joining s.pending ∷ fs; env = e; taken = taken })
    -- `sync(reclaims)` and `sync_is_stolen`, up to where the job runs, here or elsewhere. The
    -- thread takes the job that the deque yields to be the one it joins.
    sync_own :
        (reclaims : Bool) (j : ℕ) (js : List ℕ)
        → (try_dequeue S e).0 ≡ true
        → Step fs e taken (joining (j ∷ js) ∷ []) (record {
          stack = joining js ∷ fs;
          env = reclaim S reclaims j (try_dequeue S e).1;
          taken = taken;
        })
    sync_stolen :
        (j : ℕ) (js : List ℕ)
        → (try_dequeue S e).0 ≡ false
        → Step fs e taken
            (joining (j ∷ js) ∷ [])
            (record { stack = waiting js ∷ fs; env = (try_dequeue S e).1; taken = taken })
    -- a job of another worker is run in `wait_until`, and starts with its own tokens
    run_other :
        (js : List ℕ) (tokens : ℕ)
        → Step fs e taken
            (waiting js ∷ [])
            (record { stack = waiting js ∷ fs; env = record e { tokens = tokens }; taken = taken })
    wake :
        (js : List ℕ)
        → Step fs e taken
            (waiting js ∷ [])
            (record { stack = joining js ∷ fs; env = e; taken = taken })
    joined : Step fs e taken (joining [] ∷ []) (record { stack = fs; env = e; taken = taken })

  -- From an idle worker, by steps at the top of the stack.
  pub data Reach (start : Env S) : List Frame → Env S → List ℕ → Type 0 where
    idle : Reach start [] start []
    next :
        {fs : List Frame} {e : Env S} {taken : List ℕ} (top : List Frame) (w : Worker)
        → Reach start (top ++ fs) e taken
        → Step fs e taken top w
        → Reach start w.stack w.env w.taken
