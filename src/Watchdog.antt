-- ===== src/Watchdog.antt =====
-- `WatchdogSupervisor` of platform/linux/watchdog/watchdog_supervisor.cpp: the supervisor's side of
-- `run`. What the operating system does in each round of the outer loop is an argument.
pub mod Restarts
use degoonification.Common.{
  ℕ, zero, suc, ◌+◌, ◌^◌, Bool, not, ◌||◌, ltb, leb, ◌==◌, if◌then◌else◌, Option, none, some, List,
  [], ◌∷◌,
}

-- How the inner loop ends: the worker exited, was ended by a signal, or still runs when the stop is
-- requested.
pub data Ending : Type 0 where
  exited : ℕ → Ending
  signaled : ℕ → Ending
  still_running : Ending

-- A round: whether the stop is requested before it, whether `fork` succeeds, how the worker ends,
-- and whether the stop is requested behind the inner loop.
pub record Round : Type 0 where
  pub stop_before : Bool
  pub forked : Bool
  pub ending : Ending
  pub stop_after : Bool

-- What `run` returns, and how many workers were spawned.
pub record Ended : Type 0 where
  pub code : ℕ
  pub workers : ℕ

-- `max_restarts_ <= 0` on the bit pattern of an `int`.
unfoldable pub is_unlimited : ℕ → Bool
is_unlimited max_restarts = max_restarts == 0 || leb (2 ^ 31) max_restarts

-- The loop's condition on the restarts.
unfoldable pub may_run : ℕ → ℕ → Bool
may_run max_restarts restart_count = is_unlimited max_restarts || ltb restart_count max_restarts

-- Behind the inner loop: the result, or the next round.
unfoldable pub after_worker : ℕ → Ending → Bool → Option Ended → Option Ended
after_worker workers (exited zero) stop again = some (record { code = 0; workers = workers })
after_worker workers (exited (suc code)) stop again =
    if stop then some (record { code = 0; workers = workers }) else again
after_worker workers (signaled sig) stop again =
    if stop then some (record { code = 0; workers = workers }) else again
after_worker workers still_running stop again = some (record { code = 0; workers = workers })

-- The outer loop from `restart_count` on; `none` when it has not ended after the given rounds.
unfoldable pub run_rounds : ℕ → ℕ → List Round → Option Ended
run_rounds max_restarts restart_count [] =
    if may_run max_restarts restart_count
    then none
    else some (record { code = 0; workers = restart_count })
run_rounds max_restarts restart_count (r ∷ rounds) =
    let again = run_rounds max_restarts (restart_count + 1) rounds in
    if r.stop_before || not (may_run max_restarts restart_count)
    then some (record { code = 0; workers = restart_count })
    else if r.forked
    then after_worker (restart_count + 1) r.ending r.stop_after again
    else some (record { code = 1; workers = restart_count })

unfoldable pub run : ℕ → List Round → Option Ended
unfolding run_rounds
run max_restarts rounds = run_rounds max_restarts 0 rounds
