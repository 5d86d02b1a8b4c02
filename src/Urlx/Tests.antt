-- ===== src/Urlx/Tests.antt =====
-- URLs of urlx/urlx.go at fixed inputs.
use pace.Prelude.{inr, true, [], ◌++◌}
use pace.Prelude.Bytes.{Bytes, text}
use pace.Urlx.{UrlLib}

-- A URL that is its text, all of it the host.
abbrev pub urls : UrlLib
urls = record {
  Url = Bytes;
  Query = Bytes;
  parse = λ s. inr s;
  is_abs = λ u. true;
  scheme = λ u. text "http";
  hostname = λ u. u;
  query = λ u. [];
  add = λ q k v. q ++ k ++ v;
  with_query = λ u q. u ++ q;
  string = λ u. u;
}
