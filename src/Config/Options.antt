-- ===== src/Config/Options.antt =====
-- config/options.go, and DefaultConfig of config/config.go: the options of a New, and the settings
-- to start from.
mod Outcomes
mod Tests
use pace.Prelude.{ℕ, Option, none, some, List, [], ◌∷◌}
use pace.Prelude.Int.{pos}
use pace.Prelude.Bytes.{Bytes, text}
use pace.Float.{Float64}
use pace.Bucket.{Quota}
use pace.Bucket.Parse.{TextLib, new_quota}
use pace.Config.{Config}
use pace.Shared.{fallback_local}

-- What a caller passes besides the settings.
pub record Options (F : Type 0) : Type 0 where
  pub quota_for : Option (Bytes → Quota F → Quota F)
  pub jar_for : Option (Bytes → Option ℕ → Option ℕ)

module _ {F : Type 0} where
  abbrev pub no_options : Options F
  no_options = record { quota_for = none; jar_for = none }

  unfoldable pub with_quota_for : Option (Bytes → Quota F → Quota F) → Options F → Options F
  with_quota_for fn o = record o { quota_for = fn }

  unfoldable pub with_cookie_jar_for : Option (Bytes → Option ℕ → Option ℕ) → Options F → Options F
  with_cookie_jar_for fn o = record o { jar_for = fn }

  abbrev pub apply_to : Options F → List (Option (Options F → Options F)) → Options F
  apply_to o [] = o
  apply_to o (none ∷ fns) = apply_to o fns
  apply_to o (some fn ∷ fns) = apply_to (fn o) fns

  -- `none` is an option that is nil.
  unfoldable pub apply : List (Option (Options F → Options F)) → Options F
  apply fns = apply_to no_options fns

-- The default settings for a base URL; `none` is a panic of NewQuota.
module _ {fl : Float64} (tl : TextLib fl) (order : List Bytes) where
  abbrev pub started : Bytes → Quota fl.F → Config fl.F
  started base q = record {
    base_url = base;
    idle_expiry = pos 0;
    gc_interval = pos 0;
    transport = none;
    cookie_jar = none;
    max_response_bytes = pos 0;
    request_timeout = pos 0;
    clock = none;
    logger = none;
    store = none;
    store_timeout = pos 0;
    quota = q;
    shared = record { backend = none; namespace = []; timeout = pos 0; on_error = fallback_local };
    shards = pos 0;
    observer = none;
  }

  unfoldable pub default_config : Bytes → Option (Config fl.F)
  default_config base = elim (new_quota tl order (text "100/m") (pos 10)) [
    | none ↦ none
    | some q ↦ some (started base q)
  ]
