-- ===== src/Tests/Restarts.antt =====
-- Restarts: examples for the theorems on the watchdog.
use degoonification.Common.{◌≡◌, refl, true, false, some, [], ◌∷◌, ◌++◌, arith}
use degoonification.Watchdog.{Round, exited, signaled, run}
use degoonification.Watchdog.Restarts.{IsCrash, IsBounded, run-IsBounded, clean_exit, run-restarts}

abbrev killed : Round
killed = record { stop_before = false; forked = true; ending = signaled 9; stop_after = false }

abbrev failing : Round
failing = record { stop_before = false; forked = true; ending = exited 1; stop_after = false }

killed-IsCrash : IsCrash killed
killed-IsCrash = record { not_before = refl; spawned = refl; failed = refl; not_after = refl }

failing-IsCrash : IsCrash failing
failing-IsCrash = record { not_before = refl; spawned = refl; failed = refl; not_after = refl }

run-IsBounded_example : IsBounded 2 (run 2 (killed ∷ failing ∷ []))
run-IsBounded_example =
    run-IsBounded 2 (killed ∷ failing ∷ []) (omega arith) (omega arith) (omega arith)

run-restarts_example :
    run 100 ((killed ∷ failing ∷ []) ++ clean_exit ∷ []) ≡ some (record { code = 0; workers = 3 })
run-restarts_example =
    run-restarts 100 (killed ∷ failing ∷ []) [] (omega arith) (omega arith) (omega arith)
      (killed-IsCrash, (failing-IsCrash, tt))
