-- ===== src/Client/Requests.antt =====
-- What `Do` of client/request.go does to the limiter and the transport, on every path.
use pace.Prelude.{
  ℕ, ◌+◌, ◌≤◌, ◌≡◌, refl, Bool, true, false, ◌⊎◌, inl, inr, Option, none, some, List, [], ◌∷◌,
  arith, ◌&&◌, if◌then◌else◌,
}
use pace.Prelude.Int.{ℤ}
use pace.Prelude.Bytes.{Bytes}
use pace.Urlx
use pace.Urlx.{UrlLib}
use pace.Client.{
  Error, bad_url, deferred, closed, Event, enters, acquires, sends, leaves, finishes, finish_of,
  Response, World, Request, round_trip, after_acquire, after_build, after_enter, send, do_request,
}

-- Calls of one request: the limiter's Enter and the release that belongs to it, Acquire, the
-- transport, and FinishRequest.
pub record Tally : Type 0 where
  pub entered : ℕ
  pub left : ℕ
  pub acquired : ℕ
  pub sent : ℕ
  pub finished : ℕ

abbrev pub tally : List Event → Tally
tally [] = record { entered = 0; left = 0; acquired = 0; sent = 0; finished = 0 }
tally (enters ∷ es) = let t = tally es in record t { entered = t.entered + 1 }
tally (leaves ∷ es) = let t = tally es in record t { left = t.left + 1 }
tally (acquires ∷ es) = let t = tally es in record t { acquired = t.acquired + 1 }
tally (sends ∷ es) = let t = tally es in record t { sent = t.sent + 1 }
tally (finishes s e ∷ es) = let t = tally es in record t { finished = t.finished + 1 }

abbrev pub is_nil : Option ℤ → Bool
is_nil none = true
is_nil (some e) = false

-- What is to hold of a request's events and its result.
pub record IsOrderly (w : World) (out : (Error ⊎ Response) × List Event) : Type 0 where
  pub released : (tally out.1).left ≡ (tally out.1).entered
  pub once : (tally out.1).entered ≤ 1
  pub through_door : (tally out.1).acquired ≤ (tally out.1).entered
  pub paid : (tally out.1).sent ≤ (tally out.1).acquired
  pub reported : (tally out.1).finished ≡ (tally out.1).sent
  pub admitted : (tally out.1).sent ≤ (if w.open_ && is_nil w.acquire then 1 else 0)

by_acquire :
    (r : Request) (w : World) (a : Option ℤ)
    → w.open_ ≡ true
    → w.acquire ≡ a
    → IsOrderly w (after_enter (after_acquire r w a))
by_acquire r w (some e) h k = record {
  released = refl;
  once = omega arith;
  through_door = omega arith;
  paid = omega arith;
  reported = refl;
  admitted = ground arith;
}
by_acquire r w none h k = go (round_trip r w.reply)
  where
    go :
        (out : Error ⊎ Response)
        → IsOrderly w (after_enter (out, acquires ∷ sends ∷ finish_of out ∷ []))
    go (inl e) = record {
      released = refl;
      once = omega arith;
      through_door = omega arith;
      paid = omega arith;
      reported = refl;
      admitted = ground arith;
    }
    go (inr resp) = record {
      released = refl;
      once = omega arith;
      through_door = omega arith;
      paid = omega arith;
      reported = refl;
      admitted = ground arith;
    }

turned_away : (w : World) (e : Error) → IsOrderly w (inl e, enters ∷ leaves ∷ [])
turned_away w e = record {
  released = refl;
  once = omega arith;
  through_door = omega arith;
  paid = omega arith;
  reported = refl;
  admitted = ground arith;
}

nothing_done : (w : World) (e : Error) → IsOrderly w (inl e, [])
nothing_done w e = record {
  released = refl;
  once = omega arith;
  through_door = omega arith;
  paid = omega arith;
  reported = refl;
  admitted = ground arith;
}

by_build :
    (r : Request) (w : World) (url : ℤ ⊎ Bytes)
    → w.open_ ≡ true
    → IsOrderly w (after_enter (after_build r w url))
by_build r w (inl e) h = turned_away w (bad_url e)
by_build r w (inr url) h = go (w.refused url)
  where
    go :
        (o : Option ℤ)
        → IsOrderly w (
            after_enter
              (elim o [ some e ↦ (inl (bad_url e), []) | none ↦ after_acquire r w w.acquire ]))
    go (some e) = turned_away w (bad_url e)
    go none = by_acquire r w w.acquire h refl

-- On every path of a request, errors included: a limiter that was entered is left, once, a request is
-- sent at most once, and only with a token acquired by a request that was let in, and FinishRequest is
-- told of every request that was sent and of no other.
pub do_request-IsOrderly :
    (ul : UrlLib) (r : Request) (w : World) (path : Bytes) → IsOrderly w (do_request ul r w path)
unfolding do_request send
do_request-IsOrderly ul r w path = by_error r.error (w.open_) refl
  where
    by_error :
        (e : Option ℤ) (b : Bool)
        → w.open_ ≡ b
        → IsOrderly w (elim e [
          | some x ↦ (inl (deferred x), [])
          | none ↦
              if b
              then after_enter (after_build r w (Urlx.build ul r.base_url path r.query))
              else (inl closed, [])
        ])
    by_error (some x) b h = nothing_done w (deferred x)
    by_error none true h = by_build r w (Urlx.build ul r.base_url path r.query) h
    by_error none false h = nothing_done w closed
