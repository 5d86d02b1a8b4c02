-- ===== src/Limiter/Observer/Runs/Balance.antt =====
-- The counters of limiter/stats.go over any run of calls on one limiter.
use pace.Prelude.{
  ℕ, ◌+◌, ◌%◌, ◌^◌, ◌≡◌, refl, ap, Bool, true, false, not, ◌&&◌, Option, none, some, List, [], ◌∷◌,
  arith, All,
}
use pace.Prelude.Int.{ℤ}
use pace.Prelude.Word.{add_int64}
use pace.Float.{Float64}
use pace.Observe.{Stats}
use pace.Bucket
use pace.Bucket.{RateLib, Bucket}
use pace.Bucket.Api.{bucket_api}
use pace.Gate.{Gate}
use pace.Registry.{keys}
use pace.Registry.Population.{IsValid, key_total, keys-key_total}
use pace.Registry.Reload.{write-IsValid}
use pace.Registry.Run.{step-IsValid}
use pace.Limiter.Admission.{Limiter, write}
use pace.Limiter.Reserve.{Reservation, cancel, give_back}
use pace.Limiter.Engine
use pace.Limiter.Observer.{count_failure, stats, with_gate}
use pace.Limiter.Observer.Spends.{Spends, allow-Spends, reserve-Spends, wait-Spends, acquire-Spends}
use pace.Limiter.Observer.Runs.{
  Call, allows, reserves, waits, acquires, cancels, finishes, works, shuts, Tally, perform,
  perform_all, Tame,
}

module _ {fl : Float64} (rl : RateLib fl) where
  open rl use {Held}

  pub record IsBalanced (t : Tally rl) : Type 0 where
    pub valid : IsValid t.limiter.registry
    pub requests : t.limiter.stats.requests % 2 ^ 64 ≡ t.asked % 2 ^ 64
    pub throttled : t.limiter.stats.throttled % 2 ^ 64 ≡ t.told % 2 ^ 64
    pub errors : t.limiter.stats.errors % 2 ^ 64 ≡ t.failed % 2 ^ 64

  called :
      (t : Tally rl) (n k : ℕ) (l : Limiter rl)
      → IsBalanced t
      → Spends rl n k 0 t.limiter l
      → IsBalanced
          (record { limiter = l; asked = t.asked + n; told = t.told + k; failed = t.failed })
  called t n k l b s = record {
    valid = s.valid;
    requests = omega (arith, b.requests, s.requests);
    throttled = omega (arith, b.throttled, s.throttled);
    errors = omega (arith, b.errors, s.errors);
  }

  give_back-IsValid :
      (l : Limiter rl) (res : Reservation rl) (now : ℤ) (h : Option Held) (go : Bool)
      → IsValid l.registry
      → IsValid (give_back rl l res now h go).0.registry
        × ((give_back rl l res now h go).0.stats ≡ l.stats)
  unfolding write
  give_back-IsValid l res now (some held) true v = (
    write-IsValid l.registry res.key res.id
        (λ x. record x { bucket = Bucket.cancel_at rl x.bucket held now }) v,
    refl,
  )
  give_back-IsValid l res now (some held) false v = (v, refl)
  give_back-IsValid l res now none go v = (v, refl)

  finish-IsBalanced :
      (t : Tally rl) (failed : Bool) → IsBalanced t → IsBalanced (perform rl t (finishes failed))
  unfolding perform count_failure add_int64
  finish-IsBalanced t true b = record {
    valid = b.valid;
    requests = b.requests;
    throttled = b.throttled;
    errors = omega (arith, b.errors);
  }
  finish-IsBalanced t false b = record {
    valid = b.valid;
    requests = b.requests;
    throttled = b.throttled;
    errors = omega (arith, b.errors);
  }

  cancel-IsBalanced :
      (t : Tally rl) (res : Reservation rl) (now : ℤ)
      → IsBalanced t
      → IsBalanced (perform rl t (cancels res now))
  unfolding perform cancel
  cancel-IsBalanced t res now b =
      let (valid, same) =
        give_back-IsValid t.limiter res now res.held (res.ok && not res.done) b.valid in
      record {
        valid = valid;
        requests = omega (arith, b.requests, ap (λ s. s.requests) same);
        throttled = omega (arith, b.throttled, ap (λ s. s.throttled) same);
        errors = omega (arith, b.errors, ap (λ s. s.errors) same);
      }

  perform-IsBalanced :
      (t : Tally rl) (c : Call rl) → Tame rl c → IsBalanced t → IsBalanced (perform rl t c)
  unfolding perform
  perform-IsBalanced t (allows key a) h b =
      called t _ _ _ b (allow-Spends rl t.limiter b.valid key a h)
  perform-IsBalanced t (reserves key a) h b =
      called t _ _ _ b (reserve-Spends rl t.limiter b.valid key a h)
  perform-IsBalanced t (waits key m) h b =
      called t _ _ _ b (wait-Spends rl t.limiter b.valid key m h)
  perform-IsBalanced t (acquires key m) h b =
      called t _ _ _ b (acquire-Spends rl t.limiter b.valid key m h)
  perform-IsBalanced t (cancels res now) h b = cancel-IsBalanced t res now b
  perform-IsBalanced t (finishes failed) h b = finish-IsBalanced t failed b
  perform-IsBalanced t (works o) h b = record {
    valid = step-IsValid (bucket_api rl) t.limiter.registry o b.valid;
    requests = b.requests;
    throttled = b.throttled;
    errors = b.errors;
  }
  perform-IsBalanced t shuts h b = record {
    valid = b.valid;
    requests = b.requests;
    throttled = b.throttled;
    errors = b.errors;
  }

  perform_all-IsBalanced :
      (t : Tally rl) (cs : List (Call rl))
      → All (Tame rl) cs
      → IsBalanced t
      → IsBalanced (perform_all rl t cs)
  unfolding perform_all
  perform_all-IsBalanced t [] h b = b
  perform_all-IsBalanced t (c ∷ cs) h b =
      perform_all-IsBalanced (perform rl t c) cs h.1 (perform-IsBalanced t c h.0 b)

  -- What a snapshot says of a limiter: the keys in its maps, and what was asked, reported and failed
  -- since it had no counts, each as an int64 wraps.
  pub record Agrees (t : Tally rl) (s : Stats) : Type 0 where
    pub keys : s.keys ≡ key_total t.limiter.registry.shards % 2 ^ 64
    pub requests : s.requests % 2 ^ 64 ≡ t.asked % 2 ^ 64
    pub throttled : s.throttled % 2 ^ 64 ≡ t.told % 2 ^ 64
    pub errors : s.errors % 2 ^ 64 ≡ t.failed % 2 ^ 64

  stats-Agrees : (t : Tally rl) → IsBalanced t → Agrees t (stats rl t.limiter)
  unfolding stats
  stats-Agrees t b = by_gate t.limiter.gate
    where
      by_gate :
          (g : Option Gate)
          → Agrees t (
              with_gate rl g (record {
                keys = keys t.limiter.registry;
                requests = t.limiter.stats.requests;
                throttled = t.limiter.stats.throttled;
                wait_total = t.limiter.stats.wait_nanos;
                errors = t.limiter.stats.errors;
                evictions = t.limiter.registry.evictions;
                quota_takes = 0;
                quota_refused = 0;
                quota_errors = 0;
              }))
      by_gate none = record {
        keys = keys-key_total t.limiter.registry b.valid;
        requests = b.requests;
        throttled = b.throttled;
        errors = b.errors;
      }
      by_gate (some g) = record {
        keys = keys-key_total t.limiter.registry b.valid;
        requests = b.requests;
        throttled = b.throttled;
        errors = b.errors;
      }

  -- Whatever calls of Allow, Reserve, Wait, Acquire and Cancel, ends of requests and critical sections
  -- of the registry follow one another on a limiter without counts, also after a shutdown has begun:
  -- its registry stays well-formed, and Stats reports the keys that are in memory, one request for
  -- every Acquire and for every Allow, Reserve and Wait that came before the shutdown, one throttle for
  -- every report that the observer was given, and one error for every finished request that failed,
  -- each modulo 2 ^ 64. What others do in the middle of a call keeps the registry well-formed.
  pub stats-perform_all :
      (l : Limiter rl) (cs : List (Call rl))
      → IsValid l.registry
      → l.stats ≡ Engine.zeroes
      → All (Tame rl) cs
      → let t = perform_all rl (record { limiter = l; asked = 0; told = 0; failed = 0 }) cs in
        IsValid t.limiter.registry × Agrees t (stats rl t.limiter)
  stats-perform_all l cs v z h =
      let b =
        perform_all-IsBalanced (record { limiter = l; asked = 0; told = 0; failed = 0 }) cs h
          (record {
            valid = v;
            requests = omega (arith, ap (λ s. s.requests) z);
            throttled = omega (arith, ap (λ s. s.throttled) z);
            errors = omega (arith, ap (λ s. s.errors) z);
          }) in
      (b.valid, stats-Agrees _ b)
