-- ===== src/Limiter/Observer/Runs.antt =====
-- Runs of calls on one limiter, whose requests limiter/stats.go counts.
pub mod Balance
use pace.Prelude.{
  ℕ, ◌+◌, ◌%◌, ◌^◌, ◌≡◌, refl, ap, Bool, true, false, not, ◌&&◌, Option, none, some, List, [], ◌∷◌,
  arith, length, All, if◌then◌else◌,
}
use pace.Prelude.Int.{ℤ}
use pace.Prelude.Bytes.{Bytes}
use pace.Prelude.Word.{add_int64}
use pace.Float.{Float64}
use pace.Observe.{Stats}
use pace.Bucket
use pace.Bucket.{RateLib, Bucket}
use pace.Bucket.Api.{bucket_api}
use pace.Gate.{Gate}
use pace.Registry.{keys}
use pace.Registry.Population.{IsValid, key_total, keys-key_total}
use pace.Registry.Reload.{write-IsValid}
use pace.Registry.Run
use pace.Registry.Run.{Op, step-IsValid}
use pace.Limiter.Admission.{Limiter, Around, allow, write}
use pace.Limiter.Reserve.{Reservation, reserve, cancel, give_back}
use pace.Limiter.Acquire.{Meets, acquire}
use pace.Limiter.Engine
use pace.Limiter.Observer.{count_failure, stats, with_gate}
use pace.Limiter.Observer.Spends
use pace.Limiter.Observer.Spends.{Adds, Spends, IsTame, allow-Spends, reserve-Spends, wait-Spends}

module _ {fl : Float64} (rl : RateLib fl) where
  open rl use {Held}

  -- A call of the limiter's own, the Acquire of a request that Enter let in, the end of a request with whether it failed, a critical section of
  -- the registry, or the start of a shutdown.
  pub data Call : Type 0 where
    allows reserves : Bytes → Around rl → Call
    waits : Bytes → Meets rl → Call
    acquires : Bytes → Meets rl → Call
    cancels : Reservation rl → ℤ → Call
    finishes : Bool → Call
    works : Op (bucket_api rl) → Call
    shuts : Call

  -- The limiter with what has been asked of it while it was open, what it has reported as throttled
  -- and how many requests have failed.
  pub record Tally : Type 0 where
    pub limiter : Limiter rl
    pub asked : ℕ
    pub told : ℕ
    pub failed : ℕ

  unfoldable pub perform : Tally → Call → Tally
  unfolding count_failure
  perform t (allows key a) =
      let x = allow rl t.limiter key a in
      record {
        limiter = x.limiter;
        asked = t.asked + Spends.asked t.limiter.shutting_down;
        told = t.told + length x.infos;
        failed = t.failed;
      }
  perform t (reserves key a) =
      let x = reserve rl t.limiter key a in
      record {
        limiter = x.limiter;
        asked = t.asked + Spends.asked t.limiter.shutting_down;
        told = t.told + length x.infos;
        failed = t.failed;
      }
  perform t (waits key m) =
      let x = Engine.wait rl t.limiter key m in
      record {
        limiter = x.limiter;
        asked = t.asked + Spends.asked t.limiter.shutting_down;
        told = t.told + length x.delays;
        failed = t.failed;
      }
  perform t (acquires key m) =
      let x = acquire rl t.limiter key m in
      record {
        limiter = x.limiter;
        asked = t.asked + 1;
        told = t.told + length x.delays;
        failed = t.failed;
      }
  perform t (cancels res now) = record t { limiter = (cancel rl t.limiter res now).0 }
  perform t (finishes failed) = record t {
    limiter = record t.limiter { stats = count_failure t.limiter.stats failed };
    failed = t.failed + (if failed then 1 else 0);
  }
  perform t (works o) = record t {
    limiter = record t.limiter { registry = Run.step (bucket_api rl) t.limiter.registry o };
  }
  perform t shuts = record t { limiter = record t.limiter { shutting_down = true } }

  unfoldable pub perform_all : Tally → List Call → Tally
  perform_all t [] = t
  perform_all t (c ∷ cs) = perform_all (perform t c) cs

  -- What others do in the middle of the call keeps the registry well-formed.
  abbrev pub Tame : Call → Type 0
  Tame (allows key a) = IsTame rl a.owner
  Tame (reserves key a) = IsTame rl a.owner
  Tame (waits key m) = IsTame rl m.owner
  Tame (acquires key m) = IsTame rl m.owner
  Tame _ = Unit
