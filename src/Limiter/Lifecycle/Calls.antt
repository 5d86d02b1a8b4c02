-- ===== src/Limiter/Lifecycle/Calls.antt =====
-- finish, Close and Shutdown of limiter/lifecycle.go as calls of one goroutine. What other goroutines
-- do while the call waits is an argument; a wait that this does not end gives `none`.
use pace.Prelude.{◌==◌, Bool, true, false, not, ◌||◌, Option, none, some, if◌then◌else◌}
use pace.Prelude.Int.{ℤ}
use pace.Registry.{BucketApi}
use pace.Limiter.Lifecycle.{Lifecycle, Closing, shut, cancel, wind_up}

module _ (api : BucketApi) where
  abbrev pub Others : Type 0
  Others = Lifecycle api → Lifecycle api

  -- activeWg.Wait()
  abbrev pub drained : Lifecycle api → Bool
  drained l = l.active == 0

  -- What other goroutines do during gcWg.Wait() and during activeWg.Wait().
  pub record Meanwhile : Type 0 where
    pub gc_wait : Others
    pub wait : Others

  -- The function of closeOnce.
  unfoldable pub tear_down : Closing api → Meanwhile → Lifecycle api → Option (Lifecycle api)
  tear_down c o l =
      let waiting = o.gc_wait (cancel api l) in
      let idle = o.wait waiting in
      if waiting.gc_running || not (drained idle) then none else some (wind_up api c idle)

  -- closeOnce.Do, and what `finish` returns after it: the first call runs the function, and another
  -- waits for that.
  unfoldable pub finish :
      Bool → Closing api → Meanwhile → Lifecycle api → Option (Lifecycle api × Option ℤ)
  finish true c o l =
      if l.finished
      then some (l, l.close_error)
      else elim (tear_down c o l) [ none ↦ none | some m ↦ some (m, m.close_error) ]
  finish false c o l = let m = o.wait l in if m.finished then some (m, m.close_error) else none

  unfoldable pub close :
      Bool → Closing api → Meanwhile → Lifecycle api → Option (Lifecycle api × Option ℤ)
  close first c o l = finish first c o (shut api l)

  abbrev pub either_error : Option ℤ → Option ℤ → Option ℤ
  either_error (some e) f = some e
  either_error none f = f

  abbrev pub report :
      Option ℤ → Option (Lifecycle api × Option ℤ) → Option (Lifecycle api × Option ℤ)
  report e none = none
  report e (some r) = some (r.0, either_error e r.1)

  -- Shutdown. `expired` is ctx.Err() where ctx ends before the requests do; `patience` is what others
  -- do until the select goes on, and `rest` until waitDone is closed after a cancellation.
  unfoldable pub shutdown :
      Bool
      → Closing api
      → Meanwhile
      → Option ℤ
      → Others
      → Others
      → Lifecycle api
      → Option (Lifecycle api × Option ℤ)
  shutdown first c o none patience rest l =
      let m = patience (shut api l) in if drained m then finish first c o m else none
  shutdown first c o (some e) patience rest l =
      let m = rest (cancel api (patience (shut api l))) in
      if drained m then report (some e) (finish first c o m) else none
