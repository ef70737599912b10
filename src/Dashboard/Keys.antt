-- ===== src/Dashboard/Keys.antt =====
-- What the dashboard asks for, and what it prints.
use degoonification.Common.{
  ℕ, ◌-◌, ◌≡◌, refl, ap, Bool, true, false, if◌then◌else◌, Option, none, some, List, [], ◌∷◌, ◌++◌,
  length, length-append, length-replicate, replicate, arith,
}
use degoonification.Common.Int.{clamp_ℤ, clamp_ℤ_bounds}
use degoonification.Float.{Float}
use degoonification.Ipc.{DaemonStatus}
use degoonification.Dashboard.{
  is_quit, Cell, Request, progress_bar, handle_key, cons_request, key_in, run,
}

module _ {F : Type 0} ⦃f : Float F⦄ where
  -- The progress bar has 24 cells, whatever the progress is.
  pub progress_bar-length : (progress : F) → length (progress_bar progress) ≡ 24
  unfolding progress_bar
  progress_bar-length progress =
      let z = f.to_int (f.mul progress (f.decimal 24 0)) in
      let filled = clamp_ℤ z 0 24 in
      let (low, high) = clamp_ℤ_bounds z 0 24 (omega arith) in
      omega (
        arith,
        high,
        length-append (replicate filled Cell.full) (replicate (24 - filled) Cell.empty),
        length-replicate filled Cell.full,
        length-replicate (24 - filled) Cell.empty,
      )

  key_in-quit :
      (status : Option (DaemonStatus F)) (c : ℕ)
      → is_quit c ≡ true
      → key_in status (some c) ≡ (false, none)
  unfolding handle_key
  key_in-quit status c h = rw h refl

  chosen-ends :
      (b : Bool) {done : Bool} (xs ys : List (Request F))
      → done ≡ true
      → (if◌then◌else◌ {A = Bool × List (Request F)} b (done, xs) (true, ys)).0 ≡ true
  chosen-ends true _ _ h = h
  chosen-ends false _ _ _ = refl

  -- Once the key q, Q or ESC is read, the loop ends: the later rounds change no request, whatever the rounds
  -- before it were.
  pub run-quits :
      (before after : List (Option (DaemonStatus F) × Option ℕ)) (status : Option (DaemonStatus F))
      (c : ℕ)
      → is_quit c ≡ true
      → ((run (before ++ (status, some c) ∷ after)).0 ≡ true)
        × (run (before ++ (status, some c) ∷ after) ≡ run (before ++ (status, some c) ∷ []))
  unfolding run
  run-quits [] after status c h = rw h (refl, refl)
  run-quits ((st, key) ∷ before) after status c h =
      let (ends, same) = run-quits before after status c h in
      (
        chosen-ends (key_in st key).0 _ _ ends,
        ap
            (λ rest.
              let r = key_in st key in
              if r.0 then (rest.0, cons_request r.1 rest.1) else (true, cons_request r.1 []))
            same,
      )
