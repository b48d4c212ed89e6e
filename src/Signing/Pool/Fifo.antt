-- ===== src/Signing/Pool/Fifo.antt =====
-- Requests get their slots in the order in which they came.
use mathlib.Core.List.{append_assoc}
use credentials_issuer.Prelude.{
  ℕ, zero, suc, ◌-◌, ◌≡◌, ◌≤◌, refl, sym, ap, ◌∙◌, true, false, Option, none, some, List, [], ◌∷◌,
  ◌++◌, map, take, length, arith, inl, inr, ◌⊎◌, ◌==◌, any, Bool, Bool-cases,
}
use credentials_issuer.Signing.Pool.{
  Pool, new_pool, remove, alive, release_to, release, spawn, spawn_all, take_idle, acquire,
  begin_on, begin, without, close_task, settle, drop_slot, replace, retire, time_out_on, time_out,
  finish, shut_down,
}
use credentials_issuer.Signing.Pool.Runs.{
  PoolRun, started, acquired, begun, settled, timed_out, lost, finished, stopped, pool-IsStaffed,
}

-- The requests that got a slot in one block.
abbrev pub newly_granted : Pool → Pool → List ℕ
newly_granted before after =
    map (λ g. g.0) (take (length after.granted - length before.granted) after.granted)

-- The requests that came in a run, and those that have got a slot, in their orders.
unfoldable pub arrivals : {workers : ℕ} {p : Pool} → PoolRun workers p → List ℕ
arrivals started = []
arrivals (acquired request run) = arrivals run ++ request ∷ []
arrivals (begun request run) = arrivals run
arrivals (settled id run) = arrivals run
arrivals (timed_out id run) = arrivals run
arrivals (lost slot run) = arrivals run
arrivals (finished slot run) = arrivals run
arrivals (stopped run) = arrivals run

unfoldable pub grants : {workers : ℕ} {p : Pool} → PoolRun workers p → List ℕ
grants started = []
grants (acquired {p = q} request run) = grants run ++ newly_granted q (acquire request q)
grants (begun {p = q} request run) = grants run ++ newly_granted q (begin request q)
grants (settled {p = q} id run) = grants run ++ newly_granted q (settle id q)
grants (timed_out {p = q} id run) = grants run ++ newly_granted q (time_out id q)
grants (lost {p = q} slot run) = grants run ++ newly_granted q (retire slot q)
grants (finished {p = q} slot run) = grants run ++ newly_granted q (finish slot q)
grants (stopped {p = q} run) = grants run ++ newly_granted q (shut_down q)

-- The requests of a queue stay, or the first of them gets a slot.
abbrev Moves : Pool → List ℕ → Pool → Type 0
Moves before queue after =
    ((after.waiting ≡ queue) × (length after.granted ≤ length before.granted))
    ⊎ ((request : ℕ) × (slot : ℕ) × (request ∷ after.waiting ≡ queue)
        × (after.granted ≡ (request, slot) ∷ before.granted))

Moves-newly_granted :
    (before after : Pool) (queue : List ℕ)
    → Moves before queue after
    → queue ≡ newly_granted before after ++ after.waiting
Moves-newly_granted before after queue (inl (same, fewer)) =
    let none_more : length after.granted - length before.granted ≡ 0 = omega (arith, fewer) in
    rw (none_more, same)
Moves-newly_granted before after queue (inr (request, slot, first, granted)) =
    let one_more : length ((request, slot) ∷ before.granted) - length before.granted ≡ 1 =
      omega arith in
    rw (granted, one_more, sym first)

release_to-Moves :
    (slot : ℕ) (requests : List ℕ) (p : Pool)
    → p.waiting ≡ requests
    → Moves p requests (release_to slot requests p)
unfolding release_to
release_to-Moves slot [] p e = inl (e, omega arith)
release_to-Moves slot (r ∷ rs) p e = inr (r, slot, refl, refl)

spawn-Moves : (p : Pool) → Moves p p.waiting (spawn p)
unfolding spawn release
spawn-Moves p =
    release_to-Moves p.next_slot p.waiting
      (record p { slots = p.next_slot ∷ p.slots; next_slot = suc p.next_slot }) refl

replace-Moves : (over : Bool) (p : Pool) → Moves p p.waiting (replace over p)
unfolding replace
replace-Moves true p = inl (refl, omega arith)
replace-Moves false p = spawn-Moves p

retire-Moves : (slot : ℕ) (p : Pool) → Moves p p.waiting (retire slot p)
unfolding retire drop_slot
retire-Moves slot p = elim (Bool-cases (alive slot p)) [
  | inl lives ↦ rw lives (replace-Moves p.shutting_down (drop_slot slot p))
  | inr gone ↦ rw gone (inl (refl, omega arith))
]

finish-Moves : (slot : ℕ) (p : Pool) → Moves p p.waiting (finish slot p)
unfolding finish release
finish-Moves slot p = elim (Bool-cases (any (λ s. s == slot) p.finishing)) [
  | inr over ↦ rw over (inl (refl, omega arith))
  | inl ends ↦ elim (Bool-cases (alive slot p)) [
    | inr gone ↦ rw (ends, gone) (inl (refl, omega arith))
    | inl lives ↦
        rw (ends, lives)
          (release_to-Moves slot p.waiting (record p { finishing = remove slot p.finishing }) refl)
  ]
]

without-few : (key : ℕ) (es : List (ℕ × ℕ)) → length (without key es) ≤ length es
unfolding without
without-few key [] = omega arith
without-few key ((k, slot) ∷ es) = ground (arith, without-few key es)

begin_on-Moves : (request : ℕ) (o : Option ℕ) (p : Pool) → Moves p p.waiting (begin_on request o p)
unfolding begin_on
begin_on-Moves request none p = inl (refl, omega arith)
begin_on-Moves request (some slot) p = inl (refl, without-few request p.granted)

close_task-Moves : (id : ℕ) (o : Option ℕ) (p : Pool) → Moves p p.waiting (close_task id o p)
unfolding close_task
close_task-Moves id none p = inl (refl, omega arith)
close_task-Moves id (some slot) p = inl (refl, omega arith)

time_out_on-Moves : (id : ℕ) (o : Option ℕ) (p : Pool) → Moves p p.waiting (time_out_on id o p)
unfolding time_out_on close_task
time_out_on-Moves id none p = inl (refl, omega arith)
time_out_on-Moves id (some slot) p = retire-Moves slot (close_task id (some slot) p)

take_idle-Moves :
    (request : ℕ) (slots : List ℕ) (p : Pool)
    → p.idle ≡ slots
    → (p.waiting ≡ []) ⊎ (p.idle ≡ [])
    → Moves p (p.waiting ++ request ∷ []) (take_idle request slots p)
unfolding take_idle
take_idle-Moves request [] p e served = inl (refl, omega arith)
take_idle-Moves request (slot ∷ slots) p e (inl none_waits) =
    inr (request, slot, rw none_waits refl, refl)
take_idle-Moves request (slot ∷ slots) p e (inr none_idle) = cc (e, none_idle)

spawn_all-waiting : (n : ℕ) (p : Pool) → p.waiting ≡ [] → (spawn_all n p).waiting ≡ []
unfolding spawn_all spawn release release_to
spawn_all-waiting zero p e = e
spawn_all-waiting (suc n) p e = spawn_all-waiting n (spawn p) (rw (spawn, release, e, release_to))

-- One more block after a run in which the queue was served in order.
in_order :
    (before after : Pool) (came got queue : List ℕ)
    → came ≡ got ++ queue
    → Moves before queue after
    → came ≡ (got ++ newly_granted before after) ++ after.waiting
in_order before after came got queue e moves =
    e
    ∙ ap (λ q. got ++ q) (Moves-newly_granted before after queue moves)
    ∙ sym (append_assoc got (newly_granted before after) after.waiting)

-- Whatever happens in a pool, the requests that have got a slot are the first that came, in their
-- order, and those that wait are the rest of them.
pub pool-in_order :
    (workers : ℕ) (p : Pool) (run : PoolRun workers p) → arrivals run ≡ grants run ++ p.waiting
unfolding arrivals grants acquire begin settle time_out shut_down
pool-in_order n p started = sym (spawn_all-waiting n new_pool refl)
pool-in_order n p (acquired {p = q} request run) =
    let (placed, served, full) = pool-IsStaffed n q run in
    in_order q (acquire request q) (arrivals run ++ request ∷ []) (grants run)
      (q.waiting ++ request ∷ [])
      (ap (λ rs. rs ++ request ∷ []) (pool-in_order n q run)
        ∙ append_assoc (grants run) q.waiting (request ∷ []))
      (take_idle-Moves request q.idle q refl served)
pool-in_order n p (begun {p = q} request run) =
    in_order q p (arrivals run) (grants run) q.waiting (pool-in_order n q run)
      (begin_on-Moves request _ q)
pool-in_order n p (settled {p = q} id run) =
    in_order q p (arrivals run) (grants run) q.waiting (pool-in_order n q run)
      (close_task-Moves id _ q)
pool-in_order n p (timed_out {p = q} id run) =
    in_order q p (arrivals run) (grants run) q.waiting (pool-in_order n q run)
      (time_out_on-Moves id _ q)
pool-in_order n p (lost {p = q} slot run) =
    in_order q p (arrivals run) (grants run) q.waiting (pool-in_order n q run) (retire-Moves slot q)
pool-in_order n p (finished {p = q} slot run) =
    in_order q p (arrivals run) (grants run) q.waiting (pool-in_order n q run) (finish-Moves slot q)
pool-in_order n p (stopped {p = q} run) =
    in_order q p (arrivals run) (grants run) q.waiting (pool-in_order n q run)
      (inl (refl, omega arith))
