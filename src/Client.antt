-- ===== src/Client.antt =====
-- client/request.go, client/stream.go and client/response.go: one request, from the limiter's door to
-- its response. The limiter's answers and the transport's are arguments; what a call does to the two
-- is returned as events, in order.
pub mod Bodies
pub mod Requests
pub mod Builder
pub mod Streams
pub mod Pools
mod Tests
use pace.Prelude.{
  ℕ, ◌+◌, ◌*◌, ◌^◌, Bool, true, false, ltb, ◌⊎◌, inl, inr, Option, none, some, List, [], ◌∷◌, ◌++◌,
  length, take, if◌then◌else◌,
}
use pace.Prelude.Int.{ℤ, pos, negsuc, ltb_ℤ, leb_ℤ, ◌+ℤ◌, pos_part, max_ℤ}
use pace.Prelude.Bytes.{Bytes}
use pace.Prelude.Word.{wrap64}
use pace.Bucket.{max_int64, time_sub}
use pace.Urlx
use pace.Urlx.{UrlLib, is_empty}

-- A body that ends with EOF, or with an error after its content.
pub record Reader : Type 0 where
  pub content : Bytes
  pub failure : Option ℤ

pub data Error : Type 0 where
  read_failed : ℤ → Error
  body_too_large : ℤ → Error
  closed : Error
  bad_url : ℤ → Error
  not_acquired : ℤ → Error
  transport : ℤ → Error
  deferred : ℤ → Error

abbrev pub read_to_end : Bytes → Option ℤ → Error ⊎ Bytes
read_to_end b none = inr b
read_to_end b (some e) = inl (read_failed e)

-- io.ReadAll
abbrev pub read_all : Reader → Error ⊎ Bytes
read_all r = read_to_end r.content r.failure

-- io.ReadAll(io.LimitReader(r, n)): end of file after n bytes, at once when n is not positive.
abbrev pub read_limited : Reader → ℤ → Error ⊎ Bytes
read_limited r (negsuc n) = inr []
read_limited r (pos n) =
    if ltb (length r.content) n then read_to_end r.content r.failure else inr (take n r.content)

abbrev pub sized : ℤ → Error ⊎ Bytes → Error ⊎ Bytes
sized max (inl e) = inl e
sized max (inr b) = if ltb_ℤ max (pos (length b)) then inl (body_too_large max) else inr b

-- maxBytes+1 is an int64.
unfoldable pub read_body : Reader → ℤ → Error ⊎ Bytes
unfolding wrap64 ◌+ℤ◌
read_body r max =
    if leb_ℤ max (pos 0) then read_all r else sized max (read_limited r (wrap64 (max +ℤ pos 1)))

-- What strconv.Atoi and http.ParseTime make of a header.
pub record Headers : Type 0 where
  pub atoi : Bytes → Option ℤ
  pub parse_time : Bytes → Option ℤ

abbrev pub max_retry_after_seconds : ℤ
max_retry_after_seconds = pos 9_223_372_036

abbrev retry_at : ℤ → Option ℤ → Option ℤ
retry_at now none = none
retry_at now (some when) = some (max_ℤ (pos 0) (time_sub when now))

-- time.Duration(secs) * time.Second
abbrev pub retry_in : ℤ → Option ℤ
retry_in (negsuc n) = none
retry_in (pos n) =
    if ltb_ℤ max_retry_after_seconds (pos n)
    then some max_int64
    else some (wrap64 (pos (n * 1_000_000_000)))

-- `none` is (0, false).
unfoldable pub retry_after : Headers → ℤ → Bytes → Option ℤ
unfolding wrap64 time_sub
retry_after h now v =
    if is_empty v
    then none
    else elim (h.atoi v) [ some secs ↦ retry_in secs | none ↦ retry_at now (h.parse_time v) ]

-- `finishes` is FinishRequest with a status, 0 without a response, and whether there was an error.
pub data Event : Type 0 where
  enters acquires sends leaves : Event
  finishes : ℕ → Bool → Event

pub record Response : Type 0 where
  pub status : ℕ
  pub body : Bytes

-- The world around one request: Limiter.Enter, http.NewRequestWithContext's error for a URL,
-- Limiter.Acquire, and the transport.
pub record World : Type 0 where
  pub open_ : Bool
  pub refused : Bytes → Option ℤ
  pub acquire : Option ℤ
  pub reply : ℤ ⊎ (ℕ × Reader)

pub record Request : Type 0 where
  pub base_url : Bytes
  pub query : List (Bytes × List Bytes)
  pub error : Option ℤ
  pub max_response_bytes : ℤ

abbrev received : ℕ → Error ⊎ Bytes → Error ⊎ Response
received status (inl e) = inl e
received status (inr b) = inr (record { status = status; body = b })

-- The request on the wire, its response read whole.
unfoldable pub round_trip : Request → ℤ ⊎ (ℕ × Reader) → Error ⊎ Response
unfolding read_body
round_trip r (inl e) = inl (transport e)
round_trip r (inr (status, body)) = received status (read_body body r.max_response_bytes)

-- statusOf(resp) and whether err is nil
abbrev pub finish_of : Error ⊎ Response → Event
finish_of (inl e) = finishes 0 true
finish_of (inr resp) = finishes resp.status false

abbrev pub after_acquire : Request → World → Option ℤ → (Error ⊎ Response) × List Event
after_acquire r w (some e) = (inl (not_acquired e), acquires ∷ [])
after_acquire r w none =
    let out = round_trip r w.reply in (out, acquires ∷ sends ∷ finish_of out ∷ [])

abbrev pub after_build : Request → World → ℤ ⊎ Bytes → (Error ⊎ Response) × List Event
after_build r w (inl e) = (inl (bad_url e), [])
after_build r w (inr url) = elim (w.refused url) [
  | some e ↦ (inl (bad_url e), [])
  | none ↦ after_acquire r w w.acquire
]

unfoldable pub send : UrlLib → Request → World → Bytes → (Error ⊎ Response) × List Event
unfolding round_trip
send ul r w path = after_build r w (Urlx.build ul r.base_url path r.query)

abbrev pub after_enter : (Error ⊎ Response) × List Event → (Error ⊎ Response) × List Event
after_enter (out, events) = (out, enters ∷ events ++ leaves ∷ [])

abbrev pub do_if : UrlLib → Request → World → Bytes → Option ℤ → (Error ⊎ Response) × List Event
do_if ul r w path (some e) = (inl (deferred e), [])
do_if ul r w path none = if w.open_ then after_enter (send ul r w path) else (inl closed, [])

unfoldable pub do_request : UrlLib → Request → World → Bytes → (Error ⊎ Response) × List Event
unfolding send
do_request ul r w path = do_if ul r w path r.error
