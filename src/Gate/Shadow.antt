-- ===== src/Gate/Shadow.antt =====
-- `Allow` of gate/admit.go: what a refusal costs the local shadow bucket.
use pace.Prelude.{◌≡◌, ◌⊎◌, true, false, arith}
use pace.Prelude.Int.{ℤ, pos, ◌≤ℤ◌}
use pace.Prelude.Bytes.{Bytes}
use pace.Float.{Float64}
use pace.Bucket.{RateLib, Bucket, reserve_at, cancel_at, tokens_at}
use pace.Gate.{Gate, Spec, Outside}
use pace.Gate.Rounds.{allow}

-- rate.Reservation.CancelAt at the instant of the reservation reverses it.
pub record CancelLaws {fl : Float64} (rl : RateLib fl) : Type 0 where
  pub undo :
      (l : rl.Limiter) (t : ℤ)
      → rl.tokens_at (rl.cancel (rl.reserve_n l t (pos 1)).0 (rl.reserve_n l t (pos 1)).1 t) t
        ≡ rl.tokens_at l t

module _ {fl : Float64} (rl : RateLib fl) (laws : CancelLaws rl) (s : Spec) (g : Gate) (key : Bytes)
    (b : Bucket rl) (now : ℤ) (o : Outside fl.F) where
  -- A refused call leaves the shadow with the tokens and the quota that it had, if nobody else used
  -- it meanwhile; and where the shadow itself refuses, the backend is not asked.
  pub allow_refused :
      (allow rl s g key b now o (λ b'. b')).ok ≡ false
      → (tokens_at rl (allow rl s g key b now o (λ b'. b')).bucket now ≡ tokens_at rl b now)
        × ((allow rl s g key b now o (λ b'. b')).bucket.quota ≡ b.quota)
        × (((allow rl s g key b now o (λ b'. b')).gate ≡ g)
            ⊎ ((rl.held_ok (rl.reserve_n b.limiter now (pos 1)).1 ≡ true)
                × (rl.held_delay (rl.reserve_n b.limiter now (pos 1)).1 now ≤ℤ pos 0)))
  unfolding allow tokens_at cancel_at reserve_at
  allow_refused h = ground (arith, laws.undo b.limiter now)
