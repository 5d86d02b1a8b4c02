-- ===== src/Client/Streams.antt =====
-- Stream of client/stream.go: a response whose body the caller reads, and closes when it is done. The
-- registration with the limiter goes with the body.
pub mod Release
use pace.Prelude.{
  ℕ, zero, suc, Bool, true, false, ◌⊎◌, inl, inr, Option, none, some, List, [], ◌∷◌, ◌++◌,
  if◌then◌else◌,
}
use pace.Prelude.Int.{ℤ}
use pace.Prelude.Bytes.{Bytes}
use pace.Urlx
use pace.Urlx.{UrlLib}
use pace.Client.{
  Error, bad_url, not_acquired, transport, deferred, closed, Event, enters, acquires, sends, leaves,
  finishes, Request, World, Reader,
}

-- The response that Stream returns; `released` is releasingBody's once.
pub record Streamed : Type 0 where
  pub status : ℕ
  pub body : Reader
  pub released : Bool

-- httpStatusOf(resp) and whether err is nil
abbrev pub http_finish : ℤ ⊎ (ℕ × Reader) → Event
http_finish (inl e) = finishes 0 true
http_finish (inr (status, body)) = finishes status false

abbrev pub wrapped : ℤ ⊎ (ℕ × Reader) → (Error ⊎ Streamed) × List Event
wrapped (inl e) = (inl (transport e), leaves ∷ [])
wrapped (inr (status, body)) = (inr (record { status = status; body = body; released = false }), [])

-- What follows an event.
abbrev pub before : List Event → (Error ⊎ Streamed) × List Event → (Error ⊎ Streamed) × List Event
before es (out, rest) = (out, es ++ rest)

abbrev pub stream_acquire : World → Option ℤ → (Error ⊎ Streamed) × List Event
stream_acquire w (some e) = (inl (not_acquired e), acquires ∷ leaves ∷ [])
stream_acquire w none = before (acquires ∷ sends ∷ http_finish w.reply ∷ []) (wrapped w.reply)

abbrev pub stream_build : World → ℤ ⊎ Bytes → (Error ⊎ Streamed) × List Event
stream_build w (inl e) = (inl (bad_url e), leaves ∷ [])
stream_build w (inr url) = elim (w.refused url) [
  | some e ↦ (inl (bad_url e), leaves ∷ [])
  | none ↦ stream_acquire w w.acquire
]

abbrev pub stream_if : UrlLib → Request → World → Bytes → Option ℤ → (Error ⊎ Streamed) × List Event
stream_if ul r w path (some e) = (inl (deferred e), [])
stream_if ul r w path none =
    if w.open_
    then before (enters ∷ []) (stream_build w (Urlx.build ul r.base_url path r.query))
    else (inl closed, [])

unfoldable pub stream : UrlLib → Request → World → Bytes → (Error ⊎ Streamed) × List Event
stream ul r w path = stream_if ul r w path r.error

-- releasingBody.Close; the error of the body's own Close is left out.
unfoldable pub close : Streamed → Streamed × List Event
close s = if s.released then (s, []) else (record s { released = true }, leaves ∷ [])

-- The caller closes the body so many times.
unfoldable pub close_all : ℕ → Streamed → List Event
unfolding close
close_all zero s = []
close_all (suc n) s = let (t, es) = close s in es ++ close_all n t

abbrev pub closed_by : ℕ → Error ⊎ Streamed → List Event
closed_by n (inl e) = []
closed_by n (inr s) = close_all n s

-- Stream, and what the caller does with its body.
unfoldable pub session : UrlLib → Request → World → Bytes → ℕ → List Event
session ul r w path n = let (out, es) = stream ul r w path in es ++ closed_by n out
