-- ===== src/Watchdog/Restarts.antt =====
-- How often the supervisor restarts its worker.
use degoonification.Common.{
  ℕ, zero, suc, ◌+◌, ◌^◌, ◌≤◌, ◌<◌, ◌≡◌, refl, ap, ◌∙◌, Bool, true, false, ◌||◌, ltb, if◌then◌else◌,
  Option, some, List, [], ◌∷◌, ◌++◌, length, All, arith, Bool-cases, inl, inr, lt→ltb, ge→ltb,
  ltb→lt,
}
use degoonification.Watchdog.{
  Ending, exited, signaled, still_running, Round, Ended, is_unlimited, may_run, after_worker,
  run_rounds, run,
}

-- The worker of the round crashed, and no stop was requested.
abbrev pub crashed : Ending → Bool
crashed (exited zero) = false
crashed (exited (suc code)) = true
crashed (signaled sig) = true
crashed still_running = false

pub record IsCrash (r : Round) : Type 0 where
  pub not_before : r.stop_before ≡ false
  pub spawned : r.forked ≡ true
  pub failed : crashed r.ending ≡ true
  pub not_after : r.stop_after ≡ false

-- An ended run: it returns 0 or 1, and spawned at most so many workers.
abbrev pub IsBounded : ℕ → Option Ended → Type 0
IsBounded most o = (e : Ended) × (o ≡ some e) × (e.code ≤ 1) × (e.workers ≤ most)

after_worker-IsBounded :
    (most workers : ℕ) (ending : Ending) (stop : Bool) (again : Option Ended)
    → workers ≤ most
    → IsBounded most again
    → IsBounded most (after_worker workers ending stop again)
unfolding after_worker
after_worker-IsBounded most workers (exited zero) stop again h k = (_, refl, omega arith, h)
after_worker-IsBounded most workers (exited (suc code)) true again h k = (_, refl, omega arith, h)
after_worker-IsBounded most workers (exited (suc code)) false again h k = k
after_worker-IsBounded most workers (signaled sig) true again h k = (_, refl, omega arith, h)
after_worker-IsBounded most workers (signaled sig) false again h k = k
after_worker-IsBounded most workers still_running stop again h k = (_, refl, omega arith, h)

limited : (most count : ℕ) → 0 < most → most < 2 ^ 31 → may_run most count ≡ ltb count most
unfolding may_run is_unlimited
limited most count h k = ground arith

run_rounds-IsBounded :
    (most count : ℕ) (rounds : List Round)
    → 0 < most
    → most < 2 ^ 31
    → count ≤ most
    → most ≤ count + length rounds
    → IsBounded most (run_rounds most count rounds)
unfolding run_rounds
run_rounds-IsBounded most count [] h k c enough =
    rw (limited most count h k) (rw (ge→ltb count most (omega arith)) (_, refl, omega arith, c))
run_rounds-IsBounded most count (r ∷ rounds) h k c enough = elim (Bool-cases (ltb count most)) [
  | inr e ↦ rw (limited most count h k) (rw e (stopped r.stop_before))
  | inl e ↦
      let below = ltb→lt count most e in
      let rest = run_rounds-IsBounded most (count + 1) rounds h k (omega arith) (omega arith) in
      rw (limited most count h k) (rw e (spawn r.stop_before r.forked rest below))
]
  where
    stopped :
        (b : Bool)
        → IsBounded most (
            if b || true
            then some (record { code = 0; workers = count })
            else if r.forked
            then after_worker (count + 1) r.ending r.stop_after (run_rounds most (count + 1) rounds)
            else some (record { code = 1; workers = count }))
    stopped true = (_, refl, omega arith, c)
    stopped false = (_, refl, omega arith, c)

    spawn :
        (b forked : Bool)
        → IsBounded most (run_rounds most (count + 1) rounds)
        → count < most
        → IsBounded most (
            if b || false
            then some (record { code = 0; workers = count })
            else if forked
            then after_worker (count + 1) r.ending r.stop_after (run_rounds most (count + 1) rounds)
            else some (record { code = 1; workers = count }))
    spawn true forked rest below = (_, refl, omega arith, c)
    spawn false true rest below =
        after_worker-IsBounded most (count + 1) r.ending r.stop_after _ (omega arith) rest
    spawn false false rest below = (_, refl, omega arith, c)

-- With a positive limit the supervisor returns after at most so many rounds, whatever happens in
-- them: it spawns no more workers than the limit, and returns 0 or 1.
pub run-IsBounded :
    (max_restarts : ℕ) (rounds : List Round)
    → 0 < max_restarts
    → max_restarts < 2 ^ 31
    → max_restarts ≤ length rounds
    → IsBounded max_restarts (run max_restarts rounds)
unfolding run
run-IsBounded max_restarts rounds h k enough =
    run_rounds-IsBounded max_restarts 0 rounds h k (omega arith) (omega arith)

after_crash :
    (workers : ℕ) (ending : Ending) (again : Option Ended)
    → crashed ending ≡ true
    → after_worker workers ending false again ≡ again
unfolding after_worker
after_crash workers (exited zero) again h = cc
after_crash workers (exited (suc code)) again h = refl
after_crash workers (signaled sig) again h = refl
after_crash workers still_running again h = cc

crash_step :
    (most count : ℕ) (r : Round) (rounds : List Round)
    → may_run most count ≡ true
    → IsCrash r
    → run_rounds most count (r ∷ rounds) ≡ run_rounds most (count + 1) rounds
unfolding run_rounds
crash_step most count r rounds m c =
    rw (m, c.not_before, c.spawned, c.not_after) (after_crash (count + 1) r.ending _ c.failed)

crash_steps :
    (most count : ℕ) (crashes rest : List Round)
    → 0 < most
    → most < 2 ^ 31
    → count + length crashes ≤ most
    → All IsCrash crashes
    → run_rounds most count (crashes ++ rest) ≡ run_rounds most (count + length crashes) rest
crash_steps most count [] rest h k room c =
    let e : count ≡ count + 0 = omega arith in ap (λ n. run_rounds most n rest) e
crash_steps most count (r ∷ crashes) rest h k room (c, cs) =
    let runs : may_run most count ≡ true =
      limited most count h k ∙ lt→ltb count most (omega arith) in
    let e : count + 1 + length crashes ≡ count + suc (length crashes) = omega arith in
    crash_step most count r (crashes ++ rest) runs c
    ∙ crash_steps most (count + 1) crashes rest h k (omega arith) cs
    ∙ ap (λ n. run_rounds most n rest) e

-- The worker exited with 0.
abbrev pub clean_exit : Round
clean_exit = record { stop_before = false; forked = true; ending = exited 0; stop_after = false }

clean_step :
    (most count : ℕ) (rest : List Round)
    → may_run most count ≡ true
    → run_rounds most count (clean_exit ∷ rest) ≡ some (record { code = 0; workers = count + 1 })
unfolding run_rounds after_worker
clean_step most count rest m = rw m refl

-- Every crash of a worker that could be forked is answered by a new worker, as long as no stop is
-- requested and there are fewer crashes than the limit: a run whose workers crash, and the last of
-- them exits with 0, returns 0 after one worker more than there were crashes, whatever would come
-- behind. The limit is positive and below 2 ^ 31.
pub run-restarts :
    (max_restarts : ℕ) (crashes : List Round) (rest : List Round)
    → 0 < max_restarts
    → max_restarts < 2 ^ 31
    → length crashes < max_restarts
    → All IsCrash crashes
    → run max_restarts (crashes ++ clean_exit ∷ rest)
      ≡ some (record { code = 0; workers = length crashes + 1 })
unfolding run
run-restarts max_restarts crashes rest h k room c =
    let runs : may_run max_restarts (length crashes) ≡ true =
      limited max_restarts (length crashes) h k ∙ lt→ltb (length crashes) max_restarts room in
    let e : 0 + length crashes ≡ length crashes = omega arith in
    crash_steps max_restarts 0 crashes (clean_exit ∷ rest) h k (omega arith) c
    ∙ ap (λ n. run_rounds max_restarts n (clean_exit ∷ rest)) e
    ∙ clean_step max_restarts (length crashes) rest runs
