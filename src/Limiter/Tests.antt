-- ===== src/Limiter/Tests.antt =====
-- Settings, quotas, flushes and lifecycles of limiter/ at fixed inputs.
use pace.Prelude.{arith, ℕ, ◌≡◌, refl, true, false, none, [], ◌∷◌, map}
use pace.Prelude.Int.{pos}
use pace.Prelude.Bytes.{Bytes, text}
use pace.Bucket.{Quota}
use pace.Bucket.Api.{bucket_api}
use pace.Config.{Config, Standard}
use pace.Config.Rounding.{IsRounded, round_up-IsRounded}
use pace.Config.{round_up_power_of_two}
use pace.Limiter.Persist.{Persistence, persists, flush, key_state}
use pace.Limiter.Persist.Chunks.{load-flush}
use pace.Limiter.Lifecycle.{Lifecycle, Closing, start, enter, shut, cancel, stop_gc, wind_up}
use pace.Limiter.Lifecycle.Barrier.{
  Steps, none_left, then_, shuts, cancels, gc_stops, winds_up, enters, IsFinished, IsOver,
  finished_forever,
}
use pace.Registry.{BucketApi, Snapshot, empty_shard}
use pace.Shared.{deny}
use pace.Store
use pace.Store.{State, memory, save_batch, save}
use pace.Store.Laws.{last_of}
use pace.Samples.{Num, whole, minus_inf, rates}

abbrev hook : Bytes → Quota Num → Quota Num
hook key q = record { rate = minus_inf; burst = pos 0 }

abbrev config : Config Num
config = record {
  base_url = text "http://a";
  idle_expiry = pos 0;
  gc_interval = pos 0;
  transport = none;
  cookie_jar = none;
  max_response_bytes = pos 0;
  request_timeout = pos 0;
  clock = none;
  logger = none;
  store = none;
  store_timeout = pos 0;
  quota = record { rate = whole (pos 2); burst = pos 0 };
  shared = record { backend = none; namespace = []; timeout = pos 0; on_error = deny };
  shards = pos 5;
  observer = none;
}

abbrev standard : Standard
standard = record { clock = 1; logger = 2; transport = 3 }

round_up-IsRounded_example : IsRounded 5 (round_up_power_of_two (pos 5))
round_up-IsRounded_example = round_up-IsRounded 5 (omega arith) (omega arith)

abbrev snap : Bytes → ℕ → Snapshot Num
snap k t = record { key = k; tokens = whole (pos t); last_used = pos 7 }

abbrev two : Persistence
two = record { has_store = true; shadowed = false }

kept : persists two ≡ true
unfolding persists
kept = refl

load-flush_example :
    (Store.load (flush memory two [] (snap (text "a") 1 ∷ snap (text "b") 2 ∷ [])).0 none (text "a")
      ≡ last_of
          (text "a")
          (Store.load [] none (text "a"))
          (map (λ s. key_state s) (snap (text "a") 1 ∷ snap (text "b") 2 ∷ [])))
    × ((flush memory two [] (snap (text "a") 1 ∷ snap (text "b") 2 ∷ [])).1 ≡ [])
load-flush_example = load-flush two [] (snap (text "a") 1 ∷ snap (text "b") 2 ∷ []) (text "a") kept

abbrev api : BucketApi
api = bucket_api rates

abbrev new_one : Lifecycle api
new_one = record {
  shutting_down = false;
  active = 0;
  cancelled = false;
  gc_running = true;
  finished = false;
  close_error = none;
  registry = record { shards = empty_shard ∷ []; next_id = 0; evictions = 0 };
  acts = [];
}

abbrev quiet : Lifecycle api
quiet = record new_one { shutting_down = true; cancelled = true; gc_running = false }

abbrev closing : Closing api
closing = record { now = pos 9; persists = true; observes = true; is_closer = true; error = none }

wound_up : (wind_up api closing quiet).finished ≡ true
unfolding wind_up
wound_up = refl

abbrev over : Lifecycle api
unfolding wind_up
over = wind_up api closing quiet

to_over : Steps api (start api new_one.registry) over
unfolding start shut cancel stop_gc over
to_over = then_ new_one (shut api new_one) over (shuts new_one) (
    then_ (shut api new_one) (cancel api (shut api new_one)) over (cancels (shut api new_one) refl)
      (then_ (cancel api (shut api new_one)) quiet over
        (gc_stops (cancel api (shut api new_one)) refl)
        (then_ quiet over over (winds_up quiet closing refl refl refl refl refl) (none_left over))))

late : Steps api over (enter api over).0
late = then_ over (enter api over).0 (enter api over).0 (enters over) (none_left (enter api over).0)

finished_forever_example :
    IsFinished api over
    × IsOver api over (enter api over).0
    × IsFinished api (enter api over).0
    × (enter api (enter api over).0 ≡ ((enter api over).0, false))
unfolding over
finished_forever_example =
    finished_forever api new_one.registry over (enter api over).0 to_over wound_up late
