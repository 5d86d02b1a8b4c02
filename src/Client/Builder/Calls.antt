-- ===== src/Client/Builder/Calls.antt =====
-- What chained calls of client/request.go leave behind.
use pace.Prelude.{
  ◌⊎◌, inl, inr, Option, none, some, List, [], ◌∷◌, ◌++◌, ◌≡◌, refl, ap, ◌∙◌, if◌then◌else◌, arith,
}
use pace.Prelude.Int.{ℤ}
use pace.Prelude.Bytes.{Bytes, bytes_eq}
use pace.Prelude.Assoc.{lookup-insert}
use pace.Urlx.{UrlLib}
use pace.Client.{Error, deferred, Event, Response, World, do_if, do_request}
use pace.Client.Builder.{
  Values, values, set_value, add_value, Draft, new_request, set_err, set_json, set_query, add_query,
  set_header, add_header, set_query_values, set_body, Call, sets_header, adds_header, sets_query,
  adds_query, sets_query_values, sets_body, sets_json, call, calls, request_of,
}

-- Set leaves a name with exactly one value, Add puts one behind those it has; other names keep theirs.
pub values-changed :
    (k j v : Bytes) (m : Values)
    → (values j (set_value k v m) ≡ (if bytes_eq k j then v ∷ [] else values j m))
      × (values j (add_value k v m) ≡ (if bytes_eq k j then values k m ++ v ∷ [] else values j m))
unfolding values set_value add_value
values-changed k j v m = (
  ground (arith, lookup-insert k j (v ∷ []) m),
  ground (arith, lookup-insert k j (values k m ++ v ∷ []) m),
)

module _ (canonical : Bytes → Bytes) where
  -- The error of a call that comes first, if a draft has none yet.
  abbrev failure : Call canonical → Option ℤ
  failure (sets_json (inl e)) = some e
  failure _ = none

  abbrev first : Option ℤ → Option ℤ → Option ℤ
  first (some e) f = some e
  first none f = f

  abbrev first_failure : List (Call canonical) → Option ℤ
  first_failure [] = none
  first_failure (c ∷ cs) = first (failure c) (first_failure cs)

  first-none : (x : Option ℤ) → x ≡ first x none
  first-none none = refl
  first-none (some x) = refl

  first_assoc : (x y z : Option ℤ) → first (first x y) z ≡ first x (first y z)
  first_assoc none y z = refl
  first_assoc (some x) y z = refl

  call_error :
      (r : Draft) (c : Call canonical) → (call canonical r c).error ≡ first r.error (failure c)
  unfolding call set_json set_err set_query add_query set_header add_header set_query_values
      set_body
  call_error r (sets_header k v) = first-none r.error
  call_error r (adds_header k v) = first-none r.error
  call_error r (sets_query k v) = first-none r.error
  call_error r (adds_query k v) = first-none r.error
  call_error r (sets_query_values q) = first-none r.error
  call_error r (sets_body b) = first-none r.error
  call_error r (sets_json (inl e)) = ground arith
  call_error r (sets_json (inr b)) = first-none r.error

  calls_error :
      (r : Draft) (cs : List (Call canonical))
      → (calls canonical r cs).error ≡ first r.error (first_failure cs)
  unfolding calls
  calls_error r [] = first-none r.error
  calls_error r (c ∷ cs) =
      calls_error (call canonical r c) cs
      ∙ ap (λ x. first x (first_failure cs)) (call_error r c)
      ∙ first_assoc r.error (failure c) (first_failure cs)

  started :
      (key : Bytes) (cs : List (Call canonical))
      → (calls canonical (new_request key) cs).error ≡ first_failure cs
  unfolding new_request
  started key cs = calls_error (new_request key) cs

  do_failed :
      (ul : UrlLib) (w : World) (base path : Bytes) (max : ℤ) (r : Draft) (e : ℤ)
      → r.error ≡ some e
      → do_request ul (request_of base max r) w path ≡ (inl (deferred e), [])
  unfolding do_request request_of
  do_failed ul w base path max r e h =
      ap (λ x. do_if ul (record (request_of base max r) { error = x }) w path x) h

  -- What Do is to make of the first failure of a chain.
  abbrev pub Reports : Option ℤ → Option ℤ → (Error ⊎ Response) × List Event → Type 0
  Reports none error out = error ≡ none
  Reports (some e) error out = (error ≡ some e) × (out ≡ (inl (deferred e), []))

  -- A request that is built by any chain of calls carries the error of the first SetJSON that failed,
  -- whatever is called after it. Do then returns that error and does nothing else: it does not enter
  -- the limiter, spends no token and sends nothing. Without such a call there is no error to return.
  pub do_request-calls :
      (ul : UrlLib) (w : World) (base path key : Bytes) (max : ℤ) (cs : List (Call canonical))
      → let r = calls canonical (new_request key) cs in
        Reports (first_failure cs) r.error (do_request ul (request_of base max r) w path)
  do_request-calls ul w base path key max cs = by_failure (first_failure cs) (started key cs)
    where
      by_failure :
          (f : Option ℤ)
          → (calls canonical (new_request key) cs).error ≡ f
          → Reports f
              (calls canonical (new_request key) cs).error
              (do_request ul (request_of base max (calls canonical (new_request key) cs)) w path)
      by_failure none h = h
      by_failure (some e) h =
          (h, do_failed ul w base path max (calls canonical (new_request key) cs) e h)
