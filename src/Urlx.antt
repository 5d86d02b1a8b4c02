-- ===== src/Urlx.antt =====
-- urlx/urlx.go: the check of a base URL, and the URL of a request. net/url is a parameter.
pub mod Seam
pub mod Tests
use pace.Prelude.{
  ℕ, Bool, true, false, not, ◌&&◌, ◌||◌, ◌==◌, ◌⊎◌, inl, inr, Option, none, some, List, [], ◌∷◌,
  ◌++◌, if◌then◌else◌,
}
use pace.Prelude.Int.{ℤ}
use pace.Prelude.Bytes.{Bytes, text, bytes_eq}

-- What the code uses of net/url; an error is a number.
pub record UrlLib : Type 1 where
  pub Url : Type 0
  pub Query : Type 0
  pub parse : Bytes → ℤ ⊎ Url
  pub is_abs : Url → Bool
  pub scheme : Url → Bytes
  pub hostname : Url → Bytes
  pub query : Url → Query
  pub add : Query → Bytes → Bytes → Query
  pub with_query : Url → Query → Url
  pub string : Url → Bytes

pub data UrlError : Type 0 where
  unparsable : ℤ → UrlError
  relative : UrlError
  unsupported : Bytes → UrlError
  no_host : UrlError

abbrev pub slash : ℕ
slash = 47

abbrev pub is_empty : Bytes → Bool
is_empty [] = true
is_empty (b ∷ bs) = false

-- strings.HasPrefix(s, "/") and strings.HasSuffix(s, "/")
abbrev pub has_prefix : Bytes → Bool
has_prefix [] = false
has_prefix (b ∷ bs) = b == slash

abbrev pub has_suffix : Bytes → Bool
has_suffix [] = false
has_suffix (b ∷ []) = b == slash
has_suffix (b ∷ c ∷ bs) = has_suffix (c ∷ bs)

-- path[1:] of a path that is not empty
abbrev pub tail : Bytes → Bytes
tail [] = []
tail (b ∷ bs) = bs

unfoldable pub join : Bytes → Bytes → Bytes
join base path =
    if has_suffix base && has_prefix path
    then base ++ tail path
    else if not (has_suffix base) && not (has_prefix path)
    then base ++ slash ∷ path
    else base ++ path

module _ (ul : UrlLib) where
  open ul use {Url, Query, parse, is_abs, scheme, hostname, query, add, with_query, string}

  unfoldable pub check_url : Url → Option UrlError
  check_url u =
      if not (is_abs u)
      then some relative
      else if not (bytes_eq (scheme u) (text "http") || bytes_eq (scheme u) (text "https"))
      then some (unsupported (scheme u))
      else if is_empty (hostname u)
      then some no_host
      else none

  unfoldable pub validate : Bytes → Option UrlError
  unfolding check_url
  validate raw = elim (parse raw) [ inl e ↦ some (unparsable e) | inr u ↦ check_url u ]

  abbrev add_each : Query → Bytes → List Bytes → Query
  add_each q k [] = q
  add_each q k (v ∷ vs) = add_each (add q k v) k vs

  abbrev add_all : Query → List (Bytes × List Bytes) → Query
  add_all q [] = q
  add_all q ((k, vs) ∷ kvs) = add_all (add_each q k vs) kvs

  unfoldable pub build : Bytes → Bytes → List (Bytes × List Bytes) → ℤ ⊎ Bytes
  unfolding join
  build base path [] = inr (join base path)
  build base path (x ∷ xs) = elim (parse (join base path)) [
    | inl e ↦ inl e
    | inr u ↦ inr (string (with_query u (add_all (query u) (x ∷ xs))))
  ]
