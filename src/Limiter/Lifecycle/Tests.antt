-- ===== src/Limiter/Lifecycle/Tests.antt =====
-- Closing and shutting down with one request inside, which leaves during the wait.
use pace.Prelude.{
  ℕ, zero, suc, ◌+◌, ◌≡◌, refl, ap, subst, Bool, true, false, none, some, [], ◌∷◌, arith,
}
use pace.Prelude.Int.{pos}
use pace.Bucket.Api.{bucket_api}
use pace.Registry.{BucketApi, empty_shard}
use pace.Limiter.Lifecycle.{Lifecycle, Closing, leave, shut, cancel, stop_gc}
use pace.Limiter.Lifecycle.Barrier.{Steps, none_left, then_, leaves, gc_stops, cancels}
use pace.Limiter.Lifecycle.Calls.{Meanwhile, Others, shutdown}
use pace.Limiter.Lifecycle.Progress.{Ends, shut-Ends}
use pace.Limiter.Lifecycle.Runs.{IsFair, Returned, shutdown_runs}
use pace.Samples.{rates}

abbrev api : BucketApi
api = bucket_api rates

abbrev inside : Lifecycle api
inside = record {
  shutting_down = false;
  active = 1;
  cancelled = false;
  gc_running = true;
  finished = false;
  close_error = none;
  registry = record { shards = empty_shard ∷ []; next_id = 0; evictions = 0 };
  acts = [];
}

abbrev closing : Closing api
closing = record {
  now = pos 9;
  persists = true;
  observes = true;
  is_closer = true;
  error = some (pos 4);
}

abbrev leave_all : Others api
leave_all k = record k { active = 0 }

abbrev stop : Bool → Others api
stop true k = stop_gc api k
stop false k = k

abbrev meanwhile : Meanwhile api
meanwhile = record { gc_wait = λ k. stop k.cancelled k; wait = leave_all }

all_leave : (n : ℕ) (k : Lifecycle api) → k.active ≡ n → Steps api k (leave_all k)
unfolding leave
all_leave zero k h = subst (Steps api k) (ap (λ n. record k { active = n }) h) (none_left k)
all_leave (suc n) k h =
    then_ k (leave api k) (leave_all k) (leaves k (omega (arith, h)))
      (all_leave n (leave api k) (omega (arith, h)))

stops : (b : Bool) (k : Lifecycle api) → k.cancelled ≡ b → Steps api k (stop b k)
stops true k h = then_ k (stop_gc api k) (stop_gc api k) (gc_stops k h) (none_left (stop_gc api k))
stops false k h = none_left k

stop_ends : (b : Bool) (k : Lifecycle api) → b ≡ true → (stop b k).gc_running ≡ false
unfolding stop_gc
stop_ends true k h = refl
stop_ends false k h = ground arith

stop_keeps : (b : Bool) (k : Lifecycle api) → (stop b k).finished ≡ k.finished
unfolding stop_gc
stop_keeps true k = refl
stop_keeps false k = refl

meanwhile-IsFair : IsFair api meanwhile
meanwhile-IsFair = record {
  gc_moves = λ k. stops k.cancelled k refl;
  gc_ends = λ k h. stop_ends k.cancelled k h;
  gc_leaves = λ k. stop_keeps k.cancelled k;
  moves = λ k. all_leave k.active k refl;
  drains = λ k h. refl;
  waits = λ k. refl;
}

shutdown_runs_example :
    Returned api inside
      (some (pos 7))
      (shutdown api true closing meanwhile (some (pos 7)) (λ k. k) leave_all inside)
shutdown_runs_example =
    shutdown_runs api closing meanwhile (some (pos 7)) (λ k. k) leave_all inside meanwhile-IsFair
      (λ k. none_left k) (λ k. all_leave k.active k refl) (λ k h e. ground arith) (λ k h. refl)

shut-Ends_example : Ends api ((shut api inside).active + 3) (cancel api (shut api inside))
unfolding shut
shut-Ends_example =
    shut-Ends api closing (shut api inside) (cancel api (shut api inside))
      (then_ _ _ _ (cancels (shut api inside) refl) (none_left _)) refl
