-- ===== src/Signing/Pool.antt =====
-- signing/signer-pool.ts: the pool of worker threads, as the blocks that run without interruption. A
-- slot (its worker included) is a number that is never used again, and it is `alive` while it is
-- among the slots. `granted` are the requests whose `acquire` is resolved and which have not
-- continued, and `finishing` are the slots of tasks that are resolved or rejected and whose
-- `finally` has not run. Lists have the latest first, but `waiting` is first come, first served.
-- The keys, the inline mode and what a worker computes are left out.
mod Examples
pub mod Fifo
pub mod Progress
pub mod Runs
pub mod Sound
use credentials_issuer.Prelude.{
  ℕ, zero, suc, ◌+◌, Bool, true, false, Option, none, some, List, [], ◌∷◌, ◌++◌, ◌==◌, any,
  if◌then◌else◌,
}

pub record Pool : Type 0 where
  pub slots : List ℕ
  pub idle : List ℕ
  pub waiting : List ℕ
  pub granted : List (ℕ × ℕ)
  pub pending : List (ℕ × ℕ)
  pub finishing : List ℕ
  pub next_id : ℕ
  pub next_slot : ℕ
  pub shutting_down : Bool

abbrev pub new_pool : Pool
new_pool = record {
  slots = [];
  idle = [];
  waiting = [];
  granted = [];
  pending = [];
  finishing = [];
  next_id = 0;
  next_slot = 0;
  shutting_down = false;
}

-- `splice(indexOf(x), 1)`.
pub remove : ℕ → List ℕ → List ℕ
remove x [] = []
remove x (y ∷ ys) = let rest = remove x ys in if y == x then ys else y ∷ rest

-- `map.get(key)` and `map.delete(key)`.
pub slot_of : ℕ → List (ℕ × ℕ) → Option ℕ
slot_of key [] = none
slot_of key ((k, slot) ∷ es) = let rest = slot_of key es in if k == key then some slot else rest

without : ℕ → List (ℕ × ℕ) → List (ℕ × ℕ)
without key [] = []
without key ((k, slot) ∷ es) =
    let rest = without key es in if k == key then es else (k, slot) ∷ rest

-- The tasks of other slots, and the slots of those of this one.
tasks_of_others : ℕ → List (ℕ × ℕ) → List (ℕ × ℕ)
tasks_of_others slot [] = []
tasks_of_others slot ((k, s) ∷ es) =
    let rest = tasks_of_others slot es in if s == slot then rest else (k, s) ∷ rest

rejected_tasks : ℕ → List (ℕ × ℕ) → List ℕ
rejected_tasks slot [] = []
rejected_tasks slot ((k, s) ∷ es) =
    let rest = rejected_tasks slot es in if s == slot then s ∷ rest else rest

pub alive : ℕ → Pool → Bool
alive slot p = any (λ s. s == slot) p.slots

-- A free slot goes to the request that waits longest, or becomes idle.
release_to : ℕ → List ℕ → Pool → Pool
release_to slot [] p = record p { idle = slot ∷ p.idle }
release_to slot (request ∷ requests) p = record p {
  waiting = requests;
  granted = (request, slot) ∷ p.granted;
}

release : ℕ → Pool → Pool
unfolding release_to
release slot p = release_to slot p.waiting p

spawn : Pool → Pool
spawn p =
    release p.next_slot (record p { slots = p.next_slot ∷ p.slots; next_slot = suc p.next_slot })

pub spawn_all : ℕ → Pool → Pool
spawn_all zero p = p
spawn_all (suc n) p = spawn_all n (spawn p)

pub take_idle : ℕ → List ℕ → Pool → Pool
take_idle request [] p = record p { waiting = p.waiting ++ request ∷ [] }
take_idle request (slot ∷ slots) p = record p {
  idle = slots;
  granted = (request, slot) ∷ p.granted;
}

pub acquire : ℕ → Pool → Pool
unfolding take_idle
acquire request p = take_idle request p.idle p

-- `sign` goes on with its slot: the task is pending and the worker has the message.
pub begin_on : ℕ → Option ℕ → Pool → Pool
begin_on request none p = p
begin_on request (some slot) p = record p {
  granted = without request p.granted;
  pending = (p.next_id, slot) ∷ p.pending;
  next_id = suc p.next_id;
}

pub begin : ℕ → Pool → Pool
unfolding begin_on
begin request p = begin_on request (slot_of request p.granted) p

-- A task is answered: it leaves `pending`, and its `finally` is still to run.
pub close_task : ℕ → Option ℕ → Pool → Pool
close_task id none p = p
close_task id (some slot) p = record p {
  pending = without id p.pending;
  finishing = slot ∷ p.finishing;
}

pub settle : ℕ → Pool → Pool
unfolding close_task
settle id p = close_task id (slot_of id p.pending) p

-- `retire` up to the replacement.
drop_slot : ℕ → Pool → Pool
drop_slot slot p = record p {
  slots = remove slot p.slots;
  idle = remove slot p.idle;
  pending = tasks_of_others slot p.pending;
  finishing = rejected_tasks slot p.pending ++ p.finishing;
}

replace : Bool → Pool → Pool
replace true p = p
replace false p = spawn p

pub retire : ℕ → Pool → Pool
unfolding drop_slot replace
retire slot p = if alive slot p then replace p.shutting_down (drop_slot slot p) else p

pub time_out_on : ℕ → Option ℕ → Pool → Pool
time_out_on id none p = p
time_out_on id (some slot) p = retire slot (close_task id (some slot) p)

pub time_out : ℕ → Pool → Pool
unfolding time_out_on
time_out id p = time_out_on id (slot_of id p.pending) p

-- The `finally` of a task on a slot.
pub finish : ℕ → Pool → Pool
finish slot p =
    let closed : Pool = record p { finishing = remove slot p.finishing } in
    if any (λ s. s == slot) p.finishing
    then (if alive slot p then release slot closed else closed)
    else p

pub shut_down : Pool → Pool
shut_down p = record p { shutting_down = true }
