-- ===== src/Signing/Pool/Progress.antt =====
-- A request that waits is served by the next slot whose task ends.
use credentials_issuer.Prelude.{ℕ, ◌+◌, ◌≡◌, ◌<◌, true, some, List, ◌∷◌, ◌==◌, any}
use credentials_issuer.Signing.Pool.{Pool, alive, settle, slot_of, time_out, finish}
use credentials_issuer.Signing.Pool.Sound.{count, count_tasks}

-- The first request of the queue has got the slot.
abbrev pub Served : ℕ → List ℕ → ℕ → Pool → Pool → Type 0
Served request requests slot before after =
    (after.waiting ≡ requests) × (after.granted ≡ (request, slot) ∷ before.granted)

-- Some slot that is alive is on its way, and whichever task of a live slot ends, the request is
-- served.
abbrev pub IsProgressing : ℕ → List ℕ → Pool → Type 0
IsProgressing request requests p =
    ((slot : ℕ) × (alive slot p ≡ true)
      × (0 < count_tasks slot p.granted + count_tasks slot p.pending + count slot p.finishing))
    × ((slot : ℕ)
        → alive slot p ≡ true
        → (any (λ s. s == slot) p.finishing ≡ true → Served request requests slot p (finish slot p))
          × ((id : ℕ)
              → slot_of id p.pending ≡ some slot
              → Served request requests slot p (finish slot (settle id p))
                × Served request requests p.next_slot p (time_out id p)))
