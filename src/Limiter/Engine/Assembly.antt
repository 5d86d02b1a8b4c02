-- ===== src/Limiter/Engine/Assembly.antt =====
-- What `New` of limiter/limiter.go makes of settings that Resolve of config/config.go accepted.
use Prim.Native.Nat.{bit_and}
use pace.Prelude.{
  ℕ, zero, suc, ◌-◌, ◌==◌, ◌<◌, ◌≡◌, refl, ap, subst, replicate, length, All, false, not, ◌||◌, inr,
  Option, none, some, arith,
}
use pace.Prelude.Int.{pos, leb_ℤ, pos_part}
use pace.Prelude.Word.{add_int64}
use pace.Float.{Float64, FloatLaws}
use pace.Bucket.{RateLib, Bucket}
use pace.Config.{
  Config, Error, Standard, with_defaults, resolve, checked, round_up_power_of_two, positive_or,
}
use pace.Gate.{Gate}
use pace.Breaker.{fresh}
use pace.Registry.{Registry, new_registry, empty_shard, keys, live_total}
use pace.Registry.Population.{IsShard, IsValid, empty_shard-IsShard}
use pace.Limiter.{is_nil, validate}
use pace.Limiter.Admission.{Limiter}
use pace.Limiter.Engine.{new, new_gate, gate_spec, zeroes}
use pace.Limiter.Quotas.{resolve_ready}
use pace.Urlx.{UrlLib}

module _ (Bkt : Type 0) where
  replicate_shards : (n : ℕ) → All IsShard (replicate n (empty_shard {Bkt = Bkt}))
  replicate_shards zero = tt
  replicate_shards (suc n) = (empty_shard-IsShard, replicate_shards n)

  length-replicate : (n : ℕ) → length (replicate n (empty_shard {Bkt = Bkt})) ≡ n
  length-replicate zero = refl
  length-replicate (suc n) = ap suc (length-replicate n)

  replicate_total : (n : ℕ) → live_total (replicate n (empty_shard {Bkt = Bkt})) ≡ 0
  unfolding add_int64
  replicate_total zero = refl
  replicate_total (suc n) = omega (arith, replicate_total n)

  abbrev Fresh : ℕ → Type 0
  Fresh n = (s : Registry Bkt) × (new_registry {Bkt = Bkt} n ≡ some s) × IsValid s × (keys s ≡ 0)

  -- The registry panics on the same counts, whatever its buckets are.
  new_registry-Fresh :
      {Any : Type 0} (n : ℕ) (r : Registry Any) → new_registry {Bkt = Any} n ≡ some r → Fresh n
  unfolding new_registry keys
  new_registry-Fresh n r h =
      let fine : ((n == 0) || not (bit_and n (n - 1) == 0)) ≡ false = ground arith in
      let positive : 0 < n = ground (arith, fine) in
      (
        record { shards = replicate n empty_shard; next_id = 0; evictions = 0 },
        rw fine refl,
        record {
          sharded = omega (arith, positive, length-replicate n);
          shards_valid = replicate_shards n;
        },
        replicate_total n,
      )

-- A gate that has not been used stands where a backend is set.
abbrev pub Matches : Option ℕ → Option Gate → Type 0
Matches none g = g ≡ none
Matches (some b) none = ⊥
Matches (some b) (some g) = (g.takes ≡ 0) × (g.refused ≡ 0) × (g.failures ≡ 0)

module _ (fl : Float64) (ul : UrlLib) (std : Standard) where
  open fl use {F}

  resolved : (c d : Config F) → resolve fl ul std c ≡ inr d → with_defaults fl std c ≡ d
  unfolding resolve
  resolved c d h = by_check (package.pace.Config.validate fl ul c) h
    where
      by_check : (o : Option Error) → checked fl std c o ≡ inr d → with_defaults fl std c ≡ d
      by_check (some e) q = cc
      by_check none q = cc

  set_timeout :
      (c d : Config F) → resolve fl ul std c ≡ inr d → leb_ℤ d.shared.timeout (pos 0) ≡ false
  unfolding with_defaults
  set_timeout c d h =
      subst (λ x. leb_ℤ x.shared.timeout (pos 0) ≡ false) (resolved c d h) (ground arith)

  clock_set :
      (d : Config F) → validate fl d ≡ none → (is_nil d.clock ≡ false) × (is_nil d.logger ≡ false)
  unfolding validate
  clock_set d h = ground arith

  wired_gate :
      (d : Config F)
      → is_nil d.shared.backend ≡ false
      → is_nil d.clock ≡ false
      → is_nil d.logger ≡ false
      → leb_ℤ d.shared.timeout (pos 0) ≡ false
      → new_gate d ≡ some (some (record { breaker = fresh; takes = 0; refused = 0; failures = 0 }))
  unfolding new_gate package.pace.Gate.new_gate
  wired_gate d b k l t = rw (b, k, l, t) refl

  gated :
      (d : Config F) (b : Option ℕ)
      → d.shared.backend ≡ b
      → validate fl d ≡ none
      → leb_ℤ d.shared.timeout (pos 0) ≡ false
      → (g : Option Gate) × (new_gate d ≡ some g) × Matches b g
  unfolding new_gate
  gated d none e h t = (none, rw e refl, refl)
  gated d (some b) e h t =
      let (k, l) = clock_set d h in
      (
        some (record { breaker = fresh; takes = 0; refused = 0; failures = 0 }),
        wired_gate d (ap is_nil e) k l t,
        (refl, refl, refl),
      )

  abbrev built_of :
      (rl : RateLib fl) (d : Config F) → Registry (Bucket rl) → Option Gate → Limiter rl
  built_of rl d s g = record {
    shutting_down = false;
    registry = s;
    gate = g;
    spec = gate_spec d;
    stats = zeroes;
  }

  new_built :
      (rl : RateLib fl) (d : Config F) (s : Registry (Bucket rl)) (g : Option Gate)
      → validate fl d ≡ none
      → new_registry (pos_part d.shards) ≡ some s
      → new_gate d ≡ some g
      → new rl d ≡ some (built_of rl d s g)
  unfolding new
  new_built rl d s g v r h = ground arith

  -- Settings that Resolve accepts are settings that New builds a limiter from: it does not panic, not
  -- in the registry and not in the gate either. The limiter is open, its registry is well-formed and
  -- has no keys, its counters are zero, and it has a gate exactly where a shared backend is set.
  pub new_assembled :
      (laws : FloatLaws fl) (rl : RateLib fl) (c d : Config F)
      → resolve fl ul std c ≡ inr d
      → (l : Limiter rl) × (new rl d ≡ some l)
        × (l.shutting_down ≡ false)
        × IsValid l.registry
        × (keys l.registry ≡ 0)
        × (l.stats ≡ zeroes)
        × Matches d.shared.backend l.gate
  new_assembled laws rl c d h =
      let (valid, built) = resolve_ready laws ul std c d h in
      let (s, e, v, k) = new_registry-Fresh (Bucket rl) (pos_part d.shards) built.0 built.1 in
      let (g, f, m) = gated d d.shared.backend refl valid (set_timeout c d h) in
      (built_of rl d s g, new_built rl d s g valid e f, refl, v, k, refl, m)
