-- ===== src/Checks/OnSlots.antt =====
-- A deque of two slots, at the addresses 10 and 20; the outer one is promoted.
use spork_llvm.Base.{ℕ, true, false, none, some, List, [], ◌∷◌, ◌≡◌, refl, arith, length}
use spork_llvm.Slots.{SporkSlot, Thread, Memory, write, promote_front}
use spork_llvm.Slots.Chain.{Entry, IsDeque}
use spork_llvm.Slots.Walk.{promote_list, Promotes, promote_front-Promotes}
use spork_llvm.Slots.Ops.{
  Pushes, push_slot-Pushes, Closes, close-Closes, Promoted, eager_promote-Promoted, Beats,
  heartbeat_handler-Beats,
}

-- The rest of the thread is the list of callbacks that ran.
abbrev log_call : ℕ → ℕ × List ℕ → ℕ × List ℕ
log_call fn (tokens, ran) = (tokens, fn ∷ ran)

abbrev outer : Entry
outer = record { address = 10; promoted = true; promfn = 1 }

abbrev inner : Entry
inner = record { address = 20; promoted = false; promfn = 2 }

abbrev sentinel : SporkSlot
sentinel = record { promoted = true; promfn = 0; prev = none; next = some 10 }

abbrev outer_slot : SporkSlot
outer_slot = record { promoted = true; promfn = 1; prev = some 0; next = some 20 }

-- Its `next` dangles.
abbrev inner_slot : SporkSlot
inner_slot = record { promoted = false; promfn = 2; prev = some 10; next = some 30 }

abbrev two_slots : Memory
two_slots = write (write (write (λ a. none) 0 sentinel) 10 outer_slot) 20 inner_slot

abbrev thread : Thread (List ℕ)
thread = record {
  tokens = 3;
  disabled = false;
  back = some 20;
  slots = two_slots;
  num_heartbeats = 0;
  missed_heartbeats = 0;
  rest = [];
}

thread-IsDeque : IsDeque thread (outer ∷ inner ∷ [])
unfolding write
thread-IsDeque = record {
  last = 20;
  is_back = refl;
  sentinel = sentinel;
  is_sentinel = refl;
  linked = (
    refl,
    record { next = some 20; is_slot = refl },
    (omega arith, (omega arith, tt)),
    (refl, record { next = some 30; is_slot = refl }, (omega arith, tt), refl),
  );
}

one_token_used : (promote_list log_call (outer ∷ inner ∷ []) (3, [])).1 ≡ (2, 2 ∷ [])
unfolding promote_list
one_token_used = refl

promote_front-Promotes_example :
    Promotes log_call thread
      (outer ∷ inner ∷ [])
      (promote_front log_call (length (outer ∷ inner ∷ [])) thread)
promote_front-Promotes_example =
    promote_front-Promotes log_call (outer ∷ inner ∷ []) thread thread-IsDeque

push_slot-Pushes_example : Pushes thread (outer ∷ inner ∷ []) 30 3
push_slot-Pushes_example =
    push_slot-Pushes thread (outer ∷ inner ∷ []) 30 3 thread-IsDeque (omega arith)
      (omega arith, (omega arith, tt))

close-Closes_example : Closes thread (outer ∷ []) inner
close-Closes_example = close-Closes thread (outer ∷ []) inner thread-IsDeque

eager_promote-Promoted_example : Promoted log_call thread (outer ∷ []) inner 2
eager_promote-Promoted_example =
    eager_promote-Promoted log_call thread (outer ∷ []) inner 2 thread-IsDeque

heartbeat_handler-Beats_example : Beats log_call thread (outer ∷ inner ∷ [])
heartbeat_handler-Beats_example =
    heartbeat_handler-Beats log_call thread (outer ∷ inner ∷ []) thread-IsDeque refl (omega arith)
