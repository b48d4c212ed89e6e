-- ===== src/Signing/Pool/Examples.antt =====
-- A test of the pool: two workers, a request on each, a third one that waits, and a time-out.
use credentials_issuer.Prelude.{ℕ, ◌≡◌, ◌≤◌, ◌⊎◌, refl, false, [], ◌∷◌, length}
use credentials_issuer.Signing.Pool.{Pool, new_pool, spawn_all, acquire, begin, time_out}
use credentials_issuer.Signing.Pool.Sound.{uses, count}
use credentials_issuer.Signing.Pool.Runs.{
  PoolRun, started, acquired, begun, timed_out, pool-IsStaffed,
}

abbrev busy : Pool
busy = time_out 0 (acquire 9 (acquire 8 (begin 7 (acquire 7 (spawn_all 2 new_pool)))))

-- The third request got the replacement of the worker that was lost.
busy_test : busy.granted ≡ (9, 2) ∷ (8, 0) ∷ []
unfolding time_out credentials_issuer.Signing.Pool.slot_of acquire begin spawn_all
    credentials_issuer.Signing.Pool.spawn credentials_issuer.Signing.Pool.release
    credentials_issuer.Signing.Pool.retire credentials_issuer.Signing.Pool.alive
    credentials_issuer.Signing.Pool.close_task credentials_issuer.Signing.Pool.without
busy_test = refl

a_run : PoolRun 2 busy
a_run = timed_out 0 (acquired 9 (acquired 8 (begun 7 (acquired 7 started))))

pool-IsStaffed_example :
    ((slot : ℕ) → (uses slot busy ≤ 1) × (count slot busy.slots ≤ uses slot busy))
    × ((busy.waiting ≡ []) ⊎ (busy.idle ≡ []))
    × (busy.shutting_down ≡ false → length busy.slots ≡ 2)
pool-IsStaffed_example = pool-IsStaffed 2 busy a_run

-- One worker, at work, and two requests that wait.
abbrev loaded_pool : Pool
loaded_pool = acquire 9 (acquire 8 (begin 7 (acquire 7 (spawn_all 1 new_pool))))

abbrev loading : PoolRun 1 loaded_pool
loading = acquired 9 (acquired 8 (begun 7 (acquired 7 started)))
