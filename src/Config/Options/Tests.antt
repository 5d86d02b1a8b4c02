-- ===== src/Config/Options/Tests.antt =====
-- Options in a list, at fixed settings.
use pace.Prelude.{ℕ, none, some, [], ◌∷◌, ◌≡◌, refl}
use pace.Config.Options.{apply, with_quota_for, with_cookie_jar_for}

later_wins :
    apply {F = ℕ} (
      some (with_cookie_jar_for (some (λ k d. some 1)))
      ∷ none
      ∷ some (with_quota_for (some (λ k q. q)))
      ∷ some (with_cookie_jar_for none)
      ∷ [])
    ≡ record { quota_for = some (λ k q. q); jar_for = none }
unfolding apply with_quota_for with_cookie_jar_for
later_wins = refl
