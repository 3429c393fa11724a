-- ===== src/Checks/Queues.antt =====
-- A deque of jobs as a list, which shows that the laws of `JobQueue` can hold.
use spork_llvm.Base.{ℕ, Option, none, some, List, [], ◌∷◌, ◌≡◌, refl, arith}
use spork_llvm.Worker.{JobQueue}

abbrev pub pop_list : List ℕ → Option ℕ × List ℕ
pop_list [] = (none, [])
pop_list (j ∷ js) = (some j, js)

pub pop_list-nil : (q : List ℕ) → q ≡ [] → ((pop_list q).0 ≡ none) × ((pop_list q).1 ≡ [])
pop_list-nil q e = ground arith

pub pop_list-cons :
    (q : List ℕ) (j : ℕ) (js : List ℕ)
    → q ≡ j ∷ js
    → ((pop_list q).0 ≡ some j) × ((pop_list q).1 ≡ js)
pop_list-cons q j js e = ground arith

abbrev pub list_queue : JobQueue
list_queue = record {
  Queue = List ℕ;
  view = λ q. q;
  spawn = ◌∷◌;
  get_own_job = pop_list;
  view-spawn = λ j q. refl;
  own_none = pop_list-nil;
  own_some = pop_list-cons;
}
