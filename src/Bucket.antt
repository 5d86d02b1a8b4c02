-- ===== src/Bucket.antt =====
-- bucket/rate.go and bucket/bucket.go: rates, quotas, and a bucket around a limiter of
-- golang.org/x/time/rate, which is a parameter.
pub mod Api
pub mod Coherence
pub mod Parse
pub mod Tests
use pace.Prelude.{◌-◌, ◌^◌, Bool, ◌||◌, if◌then◌else◌}
use pace.Prelude.Int.{ℤ, pos, negsuc, ◌+ℤ◌, ◌-ℤ◌, leb_ℤ}
use pace.Float.{Float64, zero_f, one_f, second_f, is_inf}

-- math.MinInt64 and math.MaxInt64
abbrev pub min_int64 : ℤ
min_int64 = negsuc (2 ^ 63 - 1)

abbrev pub max_int64 : ℤ
max_int64 = pos (2 ^ 63 - 1)

-- A duration as time.Duration(f) or a difference of instants, its sign turned round.
abbrev pub neg_ℤ : ℤ → ℤ
neg_ℤ d = pos 0 -ℤ d

-- t.Sub(u), which saturates.
unfoldable pub time_sub : ℤ → ℤ → ℤ
unfolding ◌-ℤ◌
time_sub t u =
    let d = t -ℤ u in
    if leb_ℤ max_int64 d then max_int64 else if leb_ℤ d min_int64 then min_int64 else d

pub record Quota (F : Type 0) : Type 0 where
  pub rate : F
  pub burst : ℤ

-- What the program uses of *rate.Limiter and *rate.Reservation. A call that changes the limiter
-- returns the new one.
pub record RateLib (fl : Float64) : Type 1 where
  pub Limiter : Type 0
  pub Held : Type 0
  pub new_limiter : fl.F → ℤ → Limiter
  pub limit : Limiter → fl.F
  pub tokens_at : Limiter → ℤ → fl.F
  pub allow_n : Limiter → ℤ → ℤ → Limiter × Bool
  pub reserve_n : Limiter → ℤ → ℤ → Limiter × Held
  pub held_ok : Held → Bool
  pub held_delay : Held → ℤ → ℤ
  pub cancel : Limiter → Held → ℤ → Limiter
  pub set_limit_at : Limiter → ℤ → fl.F → Limiter
  pub set_burst_at : Limiter → ℤ → ℤ → Limiter

pub record Bucket {fl : Float64} (rl : RateLib fl) : Type 0 where
  pub limiter : rl.Limiter
  pub quota : Quota fl.F

module _ (fl : Float64) where
  open fl use {
    F, of_int, max_float, is_nan, is_pos_inf, is_neg_inf, le, lt, sub, div, mul, add, fmin, fmax,
    to_int64, seconds,
  }

  unfoldable pub per_second : F → F
  per_second n = n

  unfoldable pub per_minute : F → F
  per_minute n = div n (of_int (pos 60))

  unfoldable pub per_hour : F → F
  per_hour n = div n (of_int (pos 3600))

  -- bucket.Inf
  abbrev pub inf : F
  inf = max_float

  unfoldable pub every : ℤ → F
  every interval = if leb_ℤ interval (pos 0) then inf else div (one_f fl) (seconds interval)

  unfoldable pub finite : F → F
  finite r = if is_inf fl r then inf else r

  unfoldable pub usable_rate : F → F
  usable_rate r =
      if is_nan r
      then zero_f fl
      else if is_pos_inf r
      then max_float
      else if is_neg_inf r
      then zero_f fl
      else r

  abbrev pub max_duration_seconds : F
  max_duration_seconds = div (of_int max_int64) (second_f fl)

  unfoldable pub drain_instant : ℤ → F → F → ℤ
  unfolding ◌+ℤ◌ ◌-ℤ◌
  drain_instant now tokens per_sec =
      if le per_sec (zero_f fl) || le tokens (zero_f fl)
      then now
      else (let secs = div tokens per_sec in
          if le max_duration_seconds secs
          then now +ℤ min_int64
          else now +ℤ neg_ℤ (to_int64 (mul secs (second_f fl))))

module _ {fl : Float64} (rl : RateLib fl) where
  open fl use {F, of_int, is_nan, le, sub, div, mul, add, fmin, fmax, to_int64, seconds}
  open rl use {
    new_limiter, reserve_n, set_limit_at, set_burst_at, allow_n, Held, held_ok, held_delay, cancel,
    limit,
  }

  unfoldable pub new_bucket : Quota F → Bucket rl
  new_bucket q = record {
    limiter = new_limiter (usable_rate fl q.rate) q.burst;
    quota = record q { rate = usable_rate fl q.rate };
  }

  -- The token count that a restored bucket is to hold at `now`.
  unfoldable pub restored_tokens : F → ℤ → F → ℤ → ℤ → F
  restored_tokens per_sec burst saved saved_at now =
      let credit = if is_nan saved || is_inf fl saved then zero_f fl else saved in
      let elapsed = fmax (zero_f fl) (seconds (time_sub now saved_at)) in
      fmax (zero_f fl) (fmin (of_int burst) (add credit (mul elapsed per_sec)))

  unfoldable pub restore_bucket : Quota F → F → ℤ → ℤ → Bucket rl
  restore_bucket q saved saved_at now =
      let per_sec = usable_rate fl q.rate in
      let tokens = restored_tokens per_sec q.burst saved saved_at now in
      record {
        limiter =
            (reserve_n (new_limiter per_sec q.burst) (drain_instant fl now tokens per_sec)
              q.burst).0;
        quota = record q { rate = per_sec };
      }

  unfoldable pub tokens_at : Bucket rl → ℤ → F
  tokens_at b t = rl.tokens_at b.limiter t

  unfoldable pub set_quota_at : Bucket rl → ℤ → Quota F → Bucket rl
  set_quota_at b t q =
      let q' = record q { rate = usable_rate fl q.rate } in
      record { limiter = set_burst_at (set_limit_at b.limiter t q'.rate) t q'.burst; quota = q' }

  unfoldable pub allow_at : Bucket rl → ℤ → Bucket rl × Bool
  allow_at b t =
      let (l, granted) = allow_n b.limiter t (pos 1) in (record b { limiter = l }, granted)

  unfoldable pub reserve_at : Bucket rl → ℤ → Bucket rl × Held
  reserve_at b t = let (l, held) = reserve_n b.limiter t (pos 1) in (record b { limiter = l }, held)

  unfoldable pub cancel_at : Bucket rl → Held → ℤ → Bucket rl
  cancel_at b held t = record b { limiter = cancel b.limiter held t }

  unfoldable pub delay_at : Bucket rl → ℤ → ℤ
  delay_at b t =
      let tokens = rl.tokens_at b.limiter t in
      let per_sec = limit b.limiter in
      if le (one_f fl) tokens
      then pos 0
      else if le per_sec (zero_f fl)
      then pos 0
      else to_int64 (mul (div (sub (one_f fl) tokens) per_sec) (second_f fl))
