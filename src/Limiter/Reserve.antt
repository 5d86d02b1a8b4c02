-- ===== src/Limiter/Reserve.antt =====
-- limiter/reserve.go: a token taken now for later, and handed back at most once.
pub mod Outcomes
use pace.Prelude.{
  ℕ, Bool, true, false, not, ◌&&◌, ◌||◌, Option, none, some, List, [], ◌∷◌, if◌then◌else◌,
}
use pace.Prelude.Int.{ℤ, pos, ltb_ℤ, eq_ℤ}
use pace.Prelude.Bytes.{Bytes}
use pace.Float.{Float64}
use pace.Bucket
use pace.Bucket.{Quota, RateLib, Bucket}
use pace.Bucket.Api.{bucket_api}
use pace.Gate.{Gate, Taken, take, retry_delay}
use pace.Gate.Rounds.{is_none}
use pace.Registry.{Registry, Entry, get_or_create}
use pace.Limiter.Admission.{
  Info, Limiter, Around, count_request, count_throttled, throttle_info, shared_enabled, spent,
  write,
}

module _ {fl : Float64} (rl : RateLib fl) where
  open fl use {F}
  open rl use {Held, held_ok, held_delay}

  -- `id` is the entry whose bucket holds the token; `held` is nil when the limiter was closed.
  pub record Reservation : Type 0 where
    pub key : Bytes
    pub id : ℕ
    pub held : Option Held
    pub delay : ℤ
    pub ok : Bool
    pub done : Bool

  pub record Reserved : Type 0 where
    pub limiter : Limiter rl
    pub reservation : Reservation
    pub infos : List (Info F)

  module _ (l : Limiter rl) (key : Bytes) (now : ℤ) (r : Registry (Bucket rl))
      (e : Entry (Bucket rl)) where
    abbrev pub held_by : Held → ℤ → Bool → Reservation
    held_by held delay ok = record {
      key = key;
      id = e.id;
      held = some held;
      delay = delay;
      ok = ok;
      done = false;
    }

    -- Without a report.
    abbrev pub quiet : Bucket rl → Option Gate → Reservation → Reserved
    quiet b g res = record {
      limiter = spent rl l r key e now b g (count_request l.stats);
      reservation = res;
      infos = [];
    }

    abbrev pub loud : Bucket rl → Option Gate → Reservation → Reserved
    loud b g res = record {
      limiter = spent rl l r key e now b g (count_throttled (count_request l.stats) res.delay);
      reservation = res;
      infos = throttle_info rl key b res.delay now none ∷ [];
    }

    -- The backend's word on a token that the bucket has at once.
    abbrev pub after_take :
        Bucket rl → Held → Quota F → (Bucket rl → Bucket rl) → Gate × Taken F → Reserved
    after_take b held q meanwhile (g, t) =
        if t.proceed && is_none t.error
        then quiet (meanwhile b) (some g) (held_by held (pos 0) true)
        else loud (Bucket.cancel_at rl (meanwhile b) held now) (some g)
            (held_by held (retry_delay fl t.grant q.rate) false)

    -- A token to wait for, or one that the backend is not asked about.
    abbrev pub kept : Bucket rl → Held → Bool → Reserved
    kept b held true = loud b l.gate (held_by held (held_delay held now) true)
    kept b held false = quiet b l.gate (held_by held (held_delay held now) true)

    abbrev pub ask_backend : Around rl → Option Gate → Bool → Bucket rl → Held → Reserved
    ask_backend a (some g) true b held =
        let q = e.bucket.quota in
        after_take b held q a.meanwhile (take l.spec g key q.rate q.burst a.outside)
    ask_backend a _ _ b held = kept b held (ltb_ℤ (pos 0) (held_delay held now))

    abbrev pub after_reserve : Around rl → Bool → Bucket rl × Held → Reserved
    after_reserve a false (b, held) = quiet b l.gate (held_by held (pos 0) false)
    after_reserve a true (b, held) =
        ask_backend a l.gate
          (shared_enabled rl l.gate e.bucket.quota && eq_ℤ (held_delay held now) (pos 0)) b held

  abbrev pub reserve_entry :
      Limiter rl → Bytes → Around rl → Registry (Bucket rl) × Entry (Bucket rl) → Reserved
  reserve_entry l key a (r, e) =
      let taken = Bucket.reserve_at rl e.bucket a.now in
      after_reserve l key a.now r e a (held_ok taken.1) taken

  abbrev pub reserve_if : Limiter rl → Bytes → Around rl → Bool → Reserved
  reserve_if l key a true = record {
    limiter = l;
    reservation = record {
      key = key;
      id = 0;
      held = none;
      delay = pos 0;
      ok = false;
      done = false;
    };
    infos = [];
  }
  reserve_if l key a false =
      reserve_entry l key a (get_or_create (bucket_api rl) l.registry key a.owner)

  unfoldable pub reserve : Limiter rl → Bytes → Around rl → Reserved
  unfolding shared_enabled get_or_create
  reserve l key a = reserve_if l key a l.shutting_down

  abbrev pub give_back :
      Limiter rl → Reservation → ℤ → Option Held → Bool → Limiter rl × Reservation
  give_back l res now (some held) true = (
    record l {
      registry =
          write rl l.registry res.key res.id
            (λ x. record x { bucket = Bucket.cancel_at rl x.bucket held now });
    },
    record res { done = true },
  )
  give_back l res now _ _ = (l, res)

  unfoldable pub cancel : Limiter rl → Reservation → ℤ → Limiter rl × Reservation
  cancel l res now = give_back l res now res.held (res.ok && not res.done)
