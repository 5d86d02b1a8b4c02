-- ===== src/Client/Pools/Opening.antt =====
-- What `New` of client/pool.go returns, and what a key's handle sees after a reload.
use pace.Prelude.{◌⊎◌, inl, inr, Option, none, some, ◌≡◌, refl, sym, subst, false}
use pace.Float.{Float64, FloatLaws}
use pace.Bucket.{RateLib}
use pace.Config.{Config, Error, Standard, resolve}
use pace.Registry.{keys}
use pace.Registry.Population.{IsValid}
use pace.Limiter.Engine
use pace.Limiter.Engine.{zeroes}
use pace.Limiter.Engine.Assembly.{Matches, new_assembled}
use pace.Config.Options.{Options}
use pace.Client.Pools.{Pool, opened, new}
use pace.Urlx.{UrlLib}

module _ {fl : Float64} (rl : RateLib fl) where
  -- A pool with the settings `d`, ready for use.
  pub record IsOpen (d : Config fl.F) (p : Pool rl) : Type 0 where
    pub open_ : p.lim.shutting_down ≡ false
    pub valid : IsValid p.lim.registry
    pub empty : keys p.lim.registry ≡ 0
    pub uncounted : p.lim.stats ≡ zeroes
    pub gated : Matches d.shared.backend p.lim.gate
    pub configured : p.config ≡ d
    pub based : p.base_url ≡ d.base_url

  -- What New is to return for what Resolve returns.
  abbrev pub Opens : Error ⊎ Config fl.F → Error ⊎ Option (Pool rl) → Type 0
  Opens (inl e) (inl f) = f ≡ e
  Opens (inl e) (inr p) = ⊥
  Opens (inr d) (inl f) = ⊥
  Opens (inr d) (inr none) = ⊥
  Opens (inr d) (inr (some p)) = IsOpen d p

  -- New of a pool never panics: it returns the error of Resolve, and else a pool whose limiter is
  -- open and has a well-formed registry without keys, counters of zero and a gate exactly where a
  -- shared backend is set.
  pub new-Opens :
      (ul : UrlLib) (std : Standard) (laws : FloatLaws fl) (c : Config fl.F) (o : Options fl.F)
      → Opens (resolve fl ul std c) (new rl ul std c o)
  unfolding new
  new-Opens ul std laws c o = by_resolve (resolve fl ul std c) refl
    where
      by_resolve :
          (x : Error ⊎ Config fl.F)
          → resolve fl ul std c ≡ x
          → Opens x (elim x [ inl e ↦ inl e | inr d ↦ inr (opened rl d o (Engine.new rl d)) ])
      by_resolve (inl e) h = refl
      by_resolve (inr d) h =
          let (l, made, open_, valid, empty, zero, gate) = new_assembled fl ul std laws rl c d h in
          subst (λ y. Opens (inr d) (inr (opened rl d o y))) (sym made)
            (record {
              open_ = open_;
              valid = valid;
              empty = empty;
              uncounted = zero;
              gated = gate;
              configured = refl;
              based = refl;
            })
