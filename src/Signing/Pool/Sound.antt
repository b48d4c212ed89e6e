-- ===== src/Signing/Pool/Sound.antt =====
-- Where the slots of the pool are.
use credentials_issuer.Prelude.{
  ℕ, zero, suc, ◌+◌, ◌≡◌, ◌≤◌, refl, ap, subst, Bool, true, false, Option, none, some, List, [],
  ◌∷◌, ◌++◌, ◌==◌, ==_iff, any, count_where, arith, inl, inr, Bool-cases, if◌then◌else◌,
}
use credentials_issuer.Signing.Pool.{
  Pool, remove, slot_of, without, tasks_of_others, rejected_tasks, alive, release_to, release,
  spawn, spawn_all, take_idle, begin_on, close_task, drop_slot, replace, retire, time_out_on,
  finish,
}

abbrev pub count : ℕ → List ℕ → ℕ
count x ys = count_where (λ y. y == x) ys

abbrev pub count_tasks : ℕ → List (ℕ × ℕ) → ℕ
count_tasks x es = count_where (λ (e : ℕ × ℕ). e.1 == x) es

-- How often a slot is idle, granted, at work on a task, or about to be released.
unfoldable pub uses : ℕ → Pool → ℕ
uses x p = count x p.idle + count_tasks x p.granted + count_tasks x p.pending + count x p.finishing

-- A slot is in one place at most, one that is alive is in one place, an idle one is alive, and what
-- is still to be spawned is nowhere. `extra` is one more use of a slot.
abbrev pub Placed : (ℕ → ℕ) → Pool → Type 0
Placed extra p =
    (x : ℕ)
    → (uses x p + extra x ≤ 1)
      × (count x p.slots ≤ uses x p + extra x)
      × (count x p.idle ≤ count x p.slots)
      × (p.next_slot ≤ x → uses x p + extra x ≡ 0)

abbrev pub no_more : ℕ → ℕ
no_more x = 0

abbrev one_more : ℕ → ℕ → ℕ
one_more slot x = if slot == x then 1 else 0

count-append : (x : ℕ) (xs ys : List ℕ) → count x (xs ++ ys) ≡ count x xs + count x ys
count-append x [] ys = omega arith
count-append x (z ∷ zs) ys = ground (arith, count-append x zs ys)

count-remove_other :
    (x y : ℕ) (ys : List ℕ)
    → count x (remove y ys) + (if y == x then (if any (λ z. z == y) ys then 1 else 0) else 0)
      ≡ count x ys
unfolding remove
count-remove_other x y [] = ground arith
count-remove_other x y (z ∷ zs) = ground (arith, count-remove_other x y zs)

any_iff_count :
    (y : ℕ) (ys : List ℕ) → any (λ z. z == y) ys ≡ (if count y ys == 0 then false else true)
any_iff_count y [] = refl
any_iff_count y (z ∷ zs) = ground (arith, any_iff_count y zs)

count_tasks-without :
    (x key slot : ℕ) (es : List (ℕ × ℕ))
    → slot_of key es ≡ some slot
    → count_tasks x (without key es) + one_more slot x ≡ count_tasks x es
unfolding slot_of without
count_tasks-without x key slot [] h = cc
count_tasks-without x key slot ((k, s) ∷ es) h = ground (arith, count_tasks-without x key slot es)

count_tasks-split :
    (x slot : ℕ) (es : List (ℕ × ℕ))
    → count_tasks x (tasks_of_others slot es) + count x (rejected_tasks slot es) ≡ count_tasks x es
unfolding tasks_of_others rejected_tasks
count_tasks-split x slot [] = omega arith
count_tasks-split x slot ((k, s) ∷ es) = ground (arith, count_tasks-split x slot es)

alive_once : (slot : ℕ) (p : Pool) → alive slot p ≡ true → Placed no_more p → count slot p.slots ≡ 1
unfolding alive
alive_once slot p lives placed = ground (arith, placed slot, any_iff_count slot p.slots)

-- What a slot's number says of another.
at_slot : (slot x : ℕ) (xs : List ℕ) → count slot xs ≡ 1 → (slot == x) ≡ true → count x xs ≡ 1
at_slot slot x xs h same = subst (λ y. count y xs ≡ 1) ((==_iff slot x).0 same) h

release_to-Placed :
    (slot : ℕ) (requests : List ℕ) (p : Pool)
    → count slot p.slots ≡ 1
    → Placed (one_more slot) p
    → Placed no_more (release_to slot requests p)
unfolding release_to uses
release_to-Placed slot [] p h placed x = ground (arith, placed x, at_slot slot x p.slots h)
release_to-Placed slot (r ∷ rs) p h placed x = ground (arith, placed x, at_slot slot x p.slots h)

release-Placed :
    (slot : ℕ) (p : Pool)
    → count slot p.slots ≡ 1
    → Placed (one_more slot) p
    → Placed no_more (release slot p)
unfolding release
release-Placed slot p h placed = release_to-Placed slot p.waiting p h placed

spawned-Placed :
    (p : Pool)
    → Placed no_more p
    → Placed
        (one_more p.next_slot)
        (record p { slots = p.next_slot ∷ p.slots; next_slot = suc p.next_slot })
unfolding uses
spawned-Placed p placed x = ground (arith, placed x, ==_iff p.next_slot x)

next_slot-fresh : (p : Pool) → Placed no_more p → count p.next_slot p.slots ≡ 0
next_slot-fresh p placed = ground (arith, placed p.next_slot)

spawn-Placed : (p : Pool) → Placed no_more p → Placed no_more (spawn p)
unfolding spawn
spawn-Placed p placed =
    release-Placed p.next_slot _
      (ground (arith, next_slot-fresh p placed, ==_iff p.next_slot p.next_slot))
      (spawned-Placed p placed)

pub spawn_all-Placed : (n : ℕ) (p : Pool) → Placed no_more p → Placed no_more (spawn_all n p)
unfolding spawn_all
spawn_all-Placed zero p placed = placed
spawn_all-Placed (suc n) p placed = spawn_all-Placed n (spawn p) (spawn-Placed p placed)

pub take_idle-Placed :
    (request : ℕ) (slots : List ℕ) (p : Pool)
    → p.idle ≡ slots
    → Placed no_more p
    → Placed no_more (take_idle request slots p)
unfolding take_idle uses
take_idle-Placed request [] p e placed x = ground (arith, placed x)
take_idle-Placed request (slot ∷ slots) p e placed x = ground (arith, placed x, ap (count x) e)

pub begin_on-Placed :
    (request : ℕ) (slot : Option ℕ) (p : Pool)
    → slot_of request p.granted ≡ slot
    → Placed no_more p
    → Placed no_more (begin_on request slot p)
unfolding begin_on uses
begin_on-Placed request none p e placed x = placed x
begin_on-Placed request (some slot) p e placed x =
    ground (arith, placed x, count_tasks-without x request slot p.granted e)

pub close_task-Placed :
    (id : ℕ) (slot : Option ℕ) (p : Pool)
    → slot_of id p.pending ≡ slot
    → Placed no_more p
    → Placed no_more (close_task id slot p)
unfolding close_task uses
close_task-Placed id none p e placed x = placed x
close_task-Placed id (some slot) p e placed x =
    ground (arith, placed x, count_tasks-without x id slot p.pending e)

drop_slot-Placed : (slot : ℕ) (p : Pool) → Placed no_more p → Placed no_more (drop_slot slot p)
unfolding drop_slot uses
drop_slot-Placed slot p placed x = ground (
  arith,
  placed x,
  count-remove_other x slot p.slots,
  count-remove_other x slot p.idle,
  any_iff_count slot p.slots,
  any_iff_count slot p.idle,
  count_tasks-split x slot p.pending,
  count-append x (rejected_tasks slot p.pending) p.finishing,
  ==_iff slot x,
)

replace-Placed : (b : Bool) (p : Pool) → Placed no_more p → Placed no_more (replace b p)
unfolding replace
replace-Placed true p placed = placed
replace-Placed false p placed = spawn-Placed p placed

pub retire-Placed : (slot : ℕ) (p : Pool) → Placed no_more p → Placed no_more (retire slot p)
unfolding retire
retire-Placed slot p placed = elim (Bool-cases (alive slot p)) [
  | inl lives ↦
      rw lives (replace-Placed p.shutting_down (drop_slot slot p) (drop_slot-Placed slot p placed))
  | inr dead ↦ rw dead placed
]

pub time_out_on-Placed :
    (id : ℕ) (slot : Option ℕ) (p : Pool)
    → slot_of id p.pending ≡ slot
    → Placed no_more p
    → Placed no_more (time_out_on id slot p)
unfolding time_out_on
time_out_on-Placed id none p e placed = placed
time_out_on-Placed id (some slot) p e placed =
    retire-Placed slot (close_task id (some slot) p) (close_task-Placed id (some slot) p e placed)

-- A slot that leaves `finishing` is one use less.
closed-Placed :
    (slot : ℕ) (p : Pool)
    → any (λ s. s == slot) p.finishing ≡ true
    → Placed no_more p
    → Placed (one_more slot) (record p { finishing = remove slot p.finishing })
unfolding uses
closed-Placed slot p finishing placed x =
    ground (arith, placed x, count-remove_other x slot p.finishing)

-- A lost slot is just forgotten.
lost-Placed :
    (slot : ℕ) (p : Pool)
    → alive slot p ≡ false
    → any (λ s. s == slot) p.finishing ≡ true
    → Placed no_more p
    → Placed no_more (record p { finishing = remove slot p.finishing })
unfolding uses alive
lost-Placed slot p dead finishing placed x =
    let nowhere : count slot p.slots ≡ 0 = ground (arith, any_iff_count slot p.slots) in
    let here : (slot == x) ≡ true → count x p.slots ≡ 0 =
      λ same. subst (λ y. count y p.slots ≡ 0) ((==_iff slot x).0 same) nowhere in
    ground (arith, placed x, count-remove_other x slot p.finishing, here)

pub finish-Placed : (slot : ℕ) (p : Pool) → Placed no_more p → Placed no_more (finish slot p)
unfolding finish
finish-Placed slot p placed = elim (Bool-cases (any (λ s. s == slot) p.finishing)) [
  | inr other ↦ rw other placed
  | inl finishing ↦ elim (Bool-cases (alive slot p)) [
    | inl lives ↦
        rw (finishing, lives)
          (release-Placed slot _ (alive_once slot p lives placed)
            (closed-Placed slot p finishing placed))
    | inr dead ↦ rw (finishing, dead) (lost-Placed slot p dead finishing placed)
  ]
]
