-- ===== src/Signing/Pool/Runs.antt =====
-- Every run of the pool, in whatever order requests, answers, time-outs and losses come.
use credentials_issuer.Prelude.{
  ℕ, zero, suc, ◌+◌, ◌≡◌, ◌≤◌, refl, ap, subst, ◌∙◌, Bool, true, false, Option, none, some, List,
  [], ◌∷◌, ◌==◌, any, length, arith, inl, inr, ◌⊎◌, Bool-cases,
}
use credentials_issuer.Signing.Pool.{
  Pool, new_pool, remove, alive, release_to, release, spawn, spawn_all, take_idle, acquire,
  begin_on, begin, close_task, settle, drop_slot, replace, retire, time_out_on, time_out, finish,
  shut_down,
}
use credentials_issuer.Signing.Pool.Sound.{
  uses, count, Placed, no_more, spawn_all-Placed, take_idle-Placed, begin_on-Placed,
  close_task-Placed, retire-Placed, time_out_on-Placed, finish-Placed,
}

-- The size that the pool keeps, and that no request waits while a slot is idle.
pub record IsStaffed (workers : ℕ) (p : Pool) : Type 0 where
  pub full : p.shutting_down ≡ false → length p.slots ≡ workers
  pub served : (p.waiting ≡ []) ⊎ (p.idle ≡ [])

release_to-IsStaffed :
    (workers slot : ℕ) (requests : List ℕ) (p : Pool)
    → p.waiting ≡ requests
    → IsStaffed workers p
    → IsStaffed workers (release_to slot requests p)
unfolding release_to
release_to-IsStaffed workers slot [] p e h = record { full = h.full; served = inl e }
release_to-IsStaffed workers slot (r ∷ rs) p e h = record {
  full = h.full;
  served = inr (served_after p.waiting p.idle r rs e h.served);
}
  where
    served_after :
        (ws is : List ℕ) (r : ℕ) (rs : List ℕ) → ws ≡ r ∷ rs → (ws ≡ []) ⊎ (is ≡ []) → is ≡ []
    served_after ws is r rs e (inl none_waits) = cc
    served_after ws is r rs e (inr none_idle) = none_idle

release-IsStaffed :
    (workers slot : ℕ) (p : Pool) → IsStaffed workers p → IsStaffed workers (release slot p)
unfolding release
release-IsStaffed workers slot p h = release_to-IsStaffed workers slot p.waiting p refl h

spawn-IsStaffed : (workers : ℕ) (p : Pool) → IsStaffed workers p → IsStaffed (suc workers) (spawn p)
unfolding spawn
spawn-IsStaffed workers p h =
    release-IsStaffed (suc workers) p.next_slot _
      (record { full = λ running. ap suc (h.full running); served = h.served })

spawn_all-IsStaffed :
    (n workers : ℕ) (p : Pool) → IsStaffed workers p → IsStaffed (n + workers) (spawn_all n p)
unfolding spawn_all
spawn_all-IsStaffed zero workers p h = subst (λ k. IsStaffed k p) (omega arith) h
spawn_all-IsStaffed (suc n) workers p h =
    subst (λ k. IsStaffed k (spawn_all n (spawn p))) (omega arith)
      (spawn_all-IsStaffed n (suc workers) (spawn p) (spawn-IsStaffed workers p h))

take_idle-IsStaffed :
    (workers request : ℕ) (slots : List ℕ) (p : Pool)
    → p.idle ≡ slots
    → IsStaffed workers p
    → IsStaffed workers (take_idle request slots p)
unfolding take_idle
take_idle-IsStaffed workers request [] p e h = record { full = h.full; served = inr e }
take_idle-IsStaffed workers request (slot ∷ slots) p e h = record {
  full = h.full;
  served = inl (none_waiting h.served);
}
  where
    none_waiting : (p.waiting ≡ []) ⊎ (p.idle ≡ []) → p.waiting ≡ []
    none_waiting (inl none_waits) = none_waits
    none_waiting (inr none_idle) = cc

begin_on-IsStaffed :
    (workers request : ℕ) (slot : Option ℕ) (p : Pool)
    → IsStaffed workers p
    → IsStaffed workers (begin_on request slot p)
unfolding begin_on
begin_on-IsStaffed workers request none p h = h
begin_on-IsStaffed workers request (some slot) p h = record { full = h.full; served = h.served }

close_task-IsStaffed :
    (workers id : ℕ) (slot : Option ℕ) (p : Pool)
    → IsStaffed workers p
    → IsStaffed workers (close_task id slot p)
unfolding close_task
close_task-IsStaffed workers id none p h = h
close_task-IsStaffed workers id (some slot) p h = record { full = h.full; served = h.served }

length-remove :
    (x : ℕ) (xs : List ℕ) → any (λ y. y == x) xs ≡ true → suc (length (remove x xs)) ≡ length xs
unfolding remove
length-remove x [] h = cc
length-remove x (y ∷ ys) h = ground (arith, length-remove x ys)

remove-nil : (x : ℕ) (xs : List ℕ) → xs ≡ [] → remove x xs ≡ []
unfolding remove
remove-nil x [] h = refl
remove-nil x (y ∷ ys) h = cc

alive_in : (slot : ℕ) (p : Pool) → alive slot p ≡ true → any (λ s. s == slot) p.slots ≡ true
unfolding alive
alive_in slot p h = h

dropped_served :
    (slot : ℕ) (p : Pool)
    → (p.waiting ≡ []) ⊎ (p.idle ≡ [])
    → (p.waiting ≡ []) ⊎ (remove slot p.idle ≡ [])
dropped_served slot p (inl none_waits) = inl none_waits
dropped_served slot p (inr none_idle) = inr (remove-nil slot p.idle none_idle)

-- A lost slot is replaced, but when the pool shuts down.
replaced-IsStaffed :
    (workers slot : ℕ) (p : Pool) (stopping : Bool)
    → p.shutting_down ≡ stopping
    → alive slot p ≡ true
    → IsStaffed workers p
    → IsStaffed workers (replace stopping (drop_slot slot p))
unfolding replace drop_slot
replaced-IsStaffed workers slot p true e lives h = record {
  full = λ running. cc (running, e);
  served = dropped_served slot p h.served;
}
replaced-IsStaffed workers slot p false e lives h =
    subst (λ k. IsStaffed k (spawn (drop_slot slot p)))
      (length-remove slot p.slots (alive_in slot p lives) ∙ h.full e)
      (spawn-IsStaffed (length (remove slot p.slots)) (drop_slot slot p)
        (record { full = λ running. refl; served = dropped_served slot p h.served }))

retire-IsStaffed :
    (workers slot : ℕ) (p : Pool) → IsStaffed workers p → IsStaffed workers (retire slot p)
unfolding retire
retire-IsStaffed workers slot p h = elim (Bool-cases (alive slot p)) [
  | inl lives ↦ rw lives (replaced-IsStaffed workers slot p p.shutting_down refl lives h)
  | inr dead ↦ rw dead h
]

time_out_on-IsStaffed :
    (workers id : ℕ) (slot : Option ℕ) (p : Pool)
    → IsStaffed workers p
    → IsStaffed workers (time_out_on id slot p)
unfolding time_out_on
time_out_on-IsStaffed workers id none p h = h
time_out_on-IsStaffed workers id (some slot) p h =
    retire-IsStaffed workers slot (close_task id (some slot) p)
      (close_task-IsStaffed workers id (some slot) p h)

finish-IsStaffed :
    (workers slot : ℕ) (p : Pool) → IsStaffed workers p → IsStaffed workers (finish slot p)
unfolding finish
finish-IsStaffed workers slot p h =
    let closed : IsStaffed workers (record p { finishing = remove slot p.finishing }) = record {
      full = h.full;
      served = h.served;
    } in
    elim (Bool-cases (any (λ s. s == slot) p.finishing)) [
      | inr other ↦ rw other h
      | inl finishing ↦ elim (Bool-cases (alive slot p)) [
        | inl lives ↦ rw (finishing, lives) (release-IsStaffed workers slot _ closed)
        | inr dead ↦ rw (finishing, dead) closed
      ]
    ]

-- A pool of so many workers, after the first request has started it and any blocks have run.
pub data PoolRun (workers : ℕ) : Pool → Type 0 where
  started : PoolRun workers (spawn_all workers new_pool)
  acquired : {p : Pool} (request : ℕ) → PoolRun workers p → PoolRun workers (acquire request p)
  begun : {p : Pool} (request : ℕ) → PoolRun workers p → PoolRun workers (begin request p)
  settled : {p : Pool} (id : ℕ) → PoolRun workers p → PoolRun workers (settle id p)
  timed_out : {p : Pool} (id : ℕ) → PoolRun workers p → PoolRun workers (time_out id p)
  lost : {p : Pool} (slot : ℕ) → PoolRun workers p → PoolRun workers (retire slot p)
  finished : {p : Pool} (slot : ℕ) → PoolRun workers p → PoolRun workers (finish slot p)
  stopped : {p : Pool} → PoolRun workers p → PoolRun workers (shut_down p)

new_pool-Placed : Placed no_more new_pool
unfolding uses
new_pool-Placed x = ground arith

run-Placed : (workers : ℕ) (p : Pool) → PoolRun workers p → Placed no_more p
unfolding acquire begin settle time_out shut_down uses
run-Placed n p started = spawn_all-Placed n new_pool new_pool-Placed
run-Placed n p (acquired {p = q} request run) =
    take_idle-Placed request q.idle q refl (run-Placed n q run)
run-Placed n p (begun {p = q} request run) = begin_on-Placed request _ q refl (run-Placed n q run)
run-Placed n p (settled {p = q} id run) = close_task-Placed id _ q refl (run-Placed n q run)
run-Placed n p (timed_out {p = q} id run) = time_out_on-Placed id _ q refl (run-Placed n q run)
run-Placed n p (lost {p = q} slot run) = retire-Placed slot q (run-Placed n q run)
run-Placed n p (finished {p = q} slot run) = finish-Placed slot q (run-Placed n q run)
run-Placed n p (stopped {p = q} run) = λ x. run-Placed n q run x

run-IsStaffed : (workers : ℕ) (p : Pool) → PoolRun workers p → IsStaffed workers p
unfolding acquire begin settle time_out shut_down
run-IsStaffed n p started =
    subst (λ k. IsStaffed k (spawn_all n new_pool)) (omega arith)
      (spawn_all-IsStaffed n 0 new_pool (record { full = λ running. refl; served = inl refl }))
run-IsStaffed n p (acquired {p = q} request run) =
    take_idle-IsStaffed n request q.idle q refl (run-IsStaffed n q run)
run-IsStaffed n p (begun {p = q} request run) =
    begin_on-IsStaffed n request _ q (run-IsStaffed n q run)
run-IsStaffed n p (settled {p = q} id run) = close_task-IsStaffed n id _ q (run-IsStaffed n q run)
run-IsStaffed n p (timed_out {p = q} id run) =
    time_out_on-IsStaffed n id _ q (run-IsStaffed n q run)
run-IsStaffed n p (lost {p = q} slot run) = retire-IsStaffed n slot q (run-IsStaffed n q run)
run-IsStaffed n p (finished {p = q} slot run) = finish-IsStaffed n slot q (run-IsStaffed n q run)
run-IsStaffed n p (stopped {p = q} run) = record {
  full = λ running. cc running;
  served = (run-IsStaffed n q run).served;
}

-- Whatever requests, answers, time-outs and losses a pool has seen, in any order: a slot is idle, or
-- in the hands of one request, and never both or of two; every slot that is alive is one of these;
-- no request waits while a slot is idle; and until it shuts down the pool has all of its workers.
pub pool-IsStaffed :
    (workers : ℕ) (p : Pool)
    → PoolRun workers p
    → ((slot : ℕ) → (uses slot p ≤ 1) × (count slot p.slots ≤ uses slot p))
      × ((p.waiting ≡ []) ⊎ (p.idle ≡ []))
      × (p.shutting_down ≡ false → length p.slots ≡ workers)
pool-IsStaffed workers p run =
    let staffed = run-IsStaffed workers p run in
    (λ slot. ground (arith, run-Placed workers p run slot), staffed.served, staffed.full)
