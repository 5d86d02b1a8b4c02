-- ===== src/Urlx/Seam.antt =====
-- The seam between the base and the path in urlx/urlx.go.
use pace.Prelude.{
  ◌≡◌, refl, ap, Bool, true, false, not, ◌&&◌, ◌==◌, ==_iff, arith, inr, [], ◌∷◌, ◌++◌,
  if◌then◌else◌,
}
use pace.Prelude.Bytes.{Bytes}
use pace.Urlx.{UrlLib, build, join, has_suffix, has_prefix, tail, slash}

-- A base without one slash at its end, and a path without one at its start.
abbrev pub without_suffix : Bytes → Bytes
without_suffix [] = []
without_suffix (b ∷ []) = if b == slash then [] else b ∷ []
without_suffix (b ∷ c ∷ bs) = b ∷ without_suffix (c ∷ bs)

abbrev pub without_prefix : Bytes → Bytes
without_prefix [] = []
without_prefix (b ∷ bs) = if b == slash then bs else b ∷ bs

suffixed :
    (base rest : Bytes)
    → has_suffix base ≡ true
    → base ++ rest ≡ without_suffix base ++ slash ∷ rest
suffixed [] rest h = ground arith
suffixed (b ∷ []) rest h = ground (arith, ==_iff b slash)
suffixed (b ∷ c ∷ bs) rest h = ap (λ xs. b ∷ xs) (suffixed (c ∷ bs) rest h)

unsuffixed : (base : Bytes) → has_suffix base ≡ false → without_suffix base ≡ base
unsuffixed [] h = refl
unsuffixed (b ∷ []) h = ground arith
unsuffixed (b ∷ c ∷ bs) h = ap (λ xs. b ∷ xs) (unsuffixed (c ∷ bs) h)

tail-prefixed : (path : Bytes) → has_prefix path ≡ true → tail path ≡ without_prefix path
tail-prefixed [] h = refl
tail-prefixed (b ∷ bs) h = ground arith

prefixed : (path : Bytes) → has_prefix path ≡ true → path ≡ slash ∷ without_prefix path
prefixed [] h = ground arith
prefixed (b ∷ bs) h = ground (arith, ==_iff b slash)

unprefixed : (path : Bytes) → has_prefix path ≡ false → without_prefix path ≡ path
unprefixed [] h = refl
unprefixed (b ∷ bs) h = ground arith

join_seam :
    (base path : Bytes) → join base path ≡ without_suffix base ++ slash ∷ without_prefix path
unfolding join
join_seam base path = go (has_suffix base) (has_prefix path) refl refl
  where
    go :
        (s p : Bool)
        → has_suffix base ≡ s
        → has_prefix path ≡ p
        → (if s && p
            then base ++ tail path
            else if not s && not p
            then base ++ slash ∷ path
            else base ++ path)
          ≡ without_suffix base ++ slash ∷ without_prefix path
    go true true h k = rw (tail-prefixed path k) (suffixed base (without_prefix path) h)
    go true false h k = rw (unprefixed path k) (suffixed base path h)
    go false true h k = rw (unsuffixed base h) (ap (λ x. base ++ x) (prefixed path k))
    go false false h k = rw (unsuffixed base h, unprefixed path k)

-- Without query values of its own a request goes to the base and the path with exactly one slash
-- between them, whichever of the two brings one, so a path never continues the base's host name.
pub build_seam :
    (ul : UrlLib) (base path : Bytes)
    → build ul base path [] ≡ inr (without_suffix base ++ slash ∷ without_prefix path)
unfolding build
build_seam ul base path = ap (λ x. inr x) (join_seam base path)
