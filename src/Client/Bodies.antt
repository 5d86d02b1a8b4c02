-- ===== src/Client/Bodies.antt =====
-- The cap on a response body in client/stream.go, and Retry-After in client/response.go.
use pace.Prelude.{
  ℕ, zero, suc, ◌+◌, ◌^◌, ◌<◌, ◌≤◌, ◌≡◌, refl, ap, ◌∙◌, Bool, true, false, ltb, ◌⊎◌, inl, inr,
  Option, none, some, [], ◌∷◌, arith, length, take, if◌then◌else◌,
}
use pace.Prelude.Int.{ℤ, pos, ◌+ℤ◌, ◌≤ℤ◌, leb_ℤ}
use pace.Prelude.Bytes.{Bytes}
use pace.Prelude.Word.{wrap64, wrap64-pos}
use pace.Bucket.{max_int64, time_sub}
use pace.Client.{
  Reader, Error, read_to_end, read_all, read_limited, sized, body_too_large, read_body, Headers,
  retry_after,
}

taken : (n : ℕ) (b : Bytes) → n ≤ length b → length (take n b) ≡ n
taken zero b h = refl
taken (suc n) [] h = omega (arith, h)
taken (suc n) (x ∷ xs) h = omega (arith, taken n xs)

limited :
    (r : Reader) (n : ℕ)
    → sized (pos n) (read_limited r (pos (n + 1)))
      ≡ (if ltb n (length r.content) then inl (body_too_large (pos n)) else read_all r)
limited r n = go (ltb (length r.content) (n + 1)) refl r.failure
  where
    reference : Option ℤ → Error ⊎ Bytes
    reference f =
        if ltb n (length r.content) then inl (body_too_large (pos n)) else read_to_end r.content f

    go :
        (b : Bool)
        → ltb (length r.content) (n + 1) ≡ b
        → (f : Option ℤ)
        → sized (pos n) (if b then read_to_end r.content f else inr (take (n + 1) r.content))
          ≡ reference f
    go true e none = ground arith
    go true e (some x) = ground arith
    go false e f = ground (arith, taken (n + 1) r.content)

plus_one : (n : ℕ) → pos n +ℤ pos 1 ≡ pos (n + 1)
unfolding ◌+ℤ◌
plus_one n = ground arith

-- A limit from 1 to two below 2 ^ 63 never cuts a body short: the response is what reading the whole
-- body gives, or the error when the body is longer than the limit.
pub read_body_capped :
    (r : Reader) (n : ℕ)
    → 0 < n
    → n + 1 < 2 ^ 63
    → read_body r (pos n)
      ≡ (if ltb n (length r.content) then inl (body_too_large (pos n)) else read_all r)
unfolding read_body
read_body_capped r n h k =
    let positive : leb_ℤ (pos n) (pos 0) ≡ false = ground arith in
    let next : wrap64 (pos n +ℤ pos 1) ≡ pos (n + 1) =
      ap wrap64 (plus_one n) ∙ wrap64-pos (n + 1) k in
    rw (positive, next) (limited r n)

-- At the greatest limit there is, the sum wraps: nothing is read, and every body is returned as empty,
-- without an error.
pub read_body_overflow : (r : Reader) → read_body r max_int64 ≡ inr []
unfolding read_body wrap64 ◌+ℤ◌
read_body_overflow r = refl

-- A delay that a response asks for is never negative and fits in a Duration.
pub retry_after_bounds :
    (h : Headers) (now : ℤ) (v : Bytes) (d : ℤ)
    → retry_after h now v ≡ some d
    → (pos 0 ≤ℤ d) × (d ≤ℤ max_int64)
unfolding retry_after time_sub wrap64
retry_after_bounds h now v d e = ground arith
