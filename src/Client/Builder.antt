-- ===== src/Client/Builder.antt =====
-- The calls of client/request.go that put a request together before it is sent. The canonical form
-- of a header's name, and json.Marshal, are parameters of net/http and encoding/json.
pub mod Calls
use pace.Prelude.{
  ℕ, Bool, true, false, ◌⊎◌, inl, inr, Option, none, some, List, [], ◌∷◌, ◌++◌, ◌≡◌, refl,
  if◌then◌else◌, arith, Option-cases,
}
use pace.Prelude.Int.{ℤ}
use pace.Prelude.Bytes.{Bytes, text, bytes_eq}
use pace.Prelude.Assoc
use pace.Prelude.Assoc.{Assoc, insert, lookup-insert}
use pace.Urlx.{UrlLib}
use pace.Client.{Error, deferred, Event, Response, World, Request, do_request}

-- http.Header and url.Values: each name with its values in order.
abbrev pub Values : Type 0
Values = Assoc (List Bytes)

-- Set of either type.
unfoldable pub set_value : Bytes → Bytes → Values → Values
set_value k v m = insert k (v ∷ []) m

abbrev or_nil : Option (List Bytes) → List Bytes
or_nil none = []
or_nil (some vs) = vs

-- h[k], which is nil without the name.
unfoldable pub values : Bytes → Values → List Bytes
values k m = or_nil (Assoc.lookup k m)

-- Add of either type.
unfoldable pub add_value : Bytes → Bytes → Values → Values
add_value k v m = insert k (values k m ++ v ∷ []) m

-- A Request that is being built. `body` is none for nil.
pub record Draft : Type 0 where
  pub key : Bytes
  pub headers : Values
  pub body : Option Bytes
  pub query : Option Values
  pub error : Option ℤ

unfoldable pub new_request : Bytes → Draft
new_request key = record { key = key; headers = []; body = none; query = none; error = none }

abbrev pub first_error : Option ℤ → ℤ → Option ℤ
first_error none e = some e
first_error (some x) e = some x

unfoldable pub set_err : Draft → ℤ → Draft
set_err r e = record r { error = first_error r.error e }

abbrev pub or_empty : Option Values → Values
or_empty none = []
or_empty (some q) = q

unfoldable pub set_query : Draft → Bytes → Bytes → Draft
set_query r k v = record r { query = some (set_value k v (or_empty r.query)) }

unfoldable pub add_query : Draft → Bytes → Bytes → Draft
add_query r k v = record r { query = some (add_value k v (or_empty r.query)) }

unfoldable pub set_query_values : Draft → Option Values → Draft
set_query_values r q = record r { query = q }

unfoldable pub set_body : Draft → Option Bytes → Draft
set_body r b = record r { body = b }

module _ (canonical : Bytes → Bytes) where
  unfoldable pub set_header : Draft → Bytes → Bytes → Draft
  set_header r k v = record r { headers = set_value (canonical k) v r.headers }

  unfoldable pub add_header : Draft → Bytes → Bytes → Draft
  add_header r k v = record r { headers = add_value (canonical k) v r.headers }

  -- `encoded` is what json.Marshal makes of the value, or its error.
  unfoldable pub set_json : Draft → ℤ ⊎ Bytes → Draft
  unfolding set_err
  set_json r (inl e) = set_err r e
  set_json r (inr b) = record r {
    body = some b;
    headers = set_value (canonical (text "Content-Type")) (text "application/json") r.headers;
  }

  pub data Call : Type 0 where
    sets_header adds_header sets_query adds_query : Bytes → Bytes → Call
    sets_query_values : Option Values → Call
    sets_body : Option Bytes → Call
    sets_json : ℤ ⊎ Bytes → Call

  unfoldable pub call : Draft → Call → Draft
  call r (sets_header k v) = set_header r k v
  call r (adds_header k v) = add_header r k v
  call r (sets_query k v) = set_query r k v
  call r (adds_query k v) = add_query r k v
  call r (sets_query_values q) = set_query_values r q
  call r (sets_body b) = set_body r b
  call r (sets_json x) = set_json r x

  unfoldable pub calls : Draft → List Call → Draft
  calls r [] = r
  calls r (c ∷ cs) = calls (call r c) cs

-- The request that Do takes, with what the pool adds.
unfoldable pub request_of : Bytes → ℤ → Draft → Request
request_of base max r = record {
  base_url = base;
  query = or_empty r.query;
  error = r.error;
  max_response_bytes = max;
}
