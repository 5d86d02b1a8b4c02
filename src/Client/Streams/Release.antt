-- ===== src/Client/Streams/Release.antt =====
-- When a stream of client/stream.go releases the limiter.
use pace.Prelude.{
  ℕ, zero, suc, ◌+◌, ◌≤◌, ◌≡◌, refl, sym, subst, Bool, true, false, ◌&&◌, ◌⊎◌, inl, inr, Option,
  none, some, List, [], ◌∷◌, ◌++◌, arith, if◌then◌else◌,
}
use pace.Prelude.Int.{ℤ}
use pace.Prelude.Bytes.{Bytes}
use pace.Urlx
use pace.Urlx.{UrlLib}
use pace.Client.{
  Error, bad_url, not_acquired, transport, deferred, closed, Event, enters, acquires, sends, leaves,
  finishes, Request, World, Reader,
}
use pace.Client.Requests.{tally, is_nil}
use pace.Client.Streams.{
  Streamed, http_finish, wrapped, before, stream_acquire, stream_build, stream, close_all,
  closed_by, session,
}

close_again : (n : ℕ) (s : Streamed) → s.released ≡ true → close_all n s ≡ []
unfolding close_all
close_again zero s h = refl
close_again (suc n) s h = ground (arith, close_again n s)

-- How many are inside the limiter after a stream that ended so, with its body closed `n` times.
abbrev pub inside : Error ⊎ Streamed → ℕ → ℕ
inside (inl e) n = 0
inside (inr s) zero = 1
inside (inr s) (suc n) = 0

-- What is to hold of the events of a stream whose body is closed `n` times.
pub record IsReleased (w : World) (out : Error ⊎ Streamed) (n : ℕ) (es : List Event) : Type 0 where
  pub entered : (tally es).entered ≤ 1
  pub balance : (tally es).entered ≡ (tally es).left + inside out n
  pub paid : (tally es).sent ≤ (tally es).acquired
  pub reported : (tally es).finished ≡ (tally es).sent
  pub admitted : (tally es).sent ≤ (if w.open_ && is_nil w.acquire then 1 else 0)

close_all_first : (n : ℕ) (s : Streamed) → s.released ≡ false → close_all (suc n) s ≡ leaves ∷ []
unfolding close_all
close_all_first n s h = ground (arith, close_again n (record s { released = true }))

nothing_done : (w : World) (e : Error) (n : ℕ) → IsReleased w (inl e) n []
nothing_done w e n = record {
  entered = omega arith;
  balance = refl;
  paid = omega arith;
  reported = refl;
  admitted = ground arith;
}

turned_away : (w : World) (e : Error) (n : ℕ) → IsReleased w (inl e) n (enters ∷ leaves ∷ [])
turned_away w e n = record {
  entered = omega arith;
  balance = refl;
  paid = omega arith;
  reported = refl;
  admitted = ground arith;
}

refused : (w : World) (e : Error) (n : ℕ) → IsReleased w (inl e) n (enters ∷ acquires ∷ leaves ∷ [])
refused w e n = record {
  entered = omega arith;
  balance = refl;
  paid = omega arith;
  reported = refl;
  admitted = ground arith;
}

module _ (w : World) (h : w.open_ ≡ true) (k : w.acquire ≡ none) where
  sent :
      (e : Error) (n : ℕ)
      → IsReleased w (inl e) n (enters ∷ acquires ∷ sends ∷ finishes 0 true ∷ leaves ∷ [])
  sent e n = record {
    entered = omega arith;
    balance = refl;
    paid = omega arith;
    reported = refl;
    admitted = ground arith;
  }

  streaming :
      (s : Streamed) (n status : ℕ)
      → s.released ≡ false
      → IsReleased w (inr s) n (enters ∷ acquires ∷ sends ∷ finishes status false ∷ close_all n s)
  unfolding close_all
  streaming s zero status f = record {
    entered = omega arith;
    balance = refl;
    paid = omega arith;
    reported = refl;
    admitted = ground arith;
  }
  streaming s (suc n) status f =
      subst
        (λ es.
          IsReleased w (inr s) (suc n) (enters ∷ acquires ∷ sends ∷ finishes status false ∷ es))
        (sym (close_all_first n s f))
        (record {
          entered = omega arith;
          balance = refl;
          paid = omega arith;
          reported = refl;
          admitted = ground arith;
        })

  by_reply :
      (n : ℕ) (reply : ℤ ⊎ (ℕ × Reader))
      → let out = wrapped reply in
        IsReleased w out.0 n
          (enters ∷ acquires ∷ sends ∷ http_finish reply ∷ (out.1 ++ closed_by n out.0))
  by_reply n (inl e) = sent (transport e) n
  by_reply n (inr (status, body)) =
      streaming (record { status = status; body = body; released = false }) n status refl

abbrev Released : World → ℕ → (Error ⊎ Streamed) × List Event → Type 0
Released w n (out, es) = IsReleased w out n (es ++ closed_by n out)

by_acquire :
    (w : World) (n : ℕ) (a : Option ℤ)
    → w.open_ ≡ true
    → w.acquire ≡ a
    → Released w n (before (enters ∷ []) (stream_acquire w a))
by_acquire w n (some e) h k = refused w (not_acquired e) n
by_acquire w n none h k = by_reply w h k n w.reply

by_build :
    (w : World) (n : ℕ) (url : ℤ ⊎ Bytes)
    → w.open_ ≡ true
    → Released w n (before (enters ∷ []) (stream_build w url))
by_build w n (inl e) h = turned_away w (bad_url e) n
by_build w n (inr url) h = go (w.refused url)
  where
    go :
        (o : Option ℤ)
        → Released w n (
            before (enters ∷ []) (elim o [
              | some e ↦ (inl (bad_url e), leaves ∷ [])
              | none ↦ stream_acquire w w.acquire
            ]))
    go (some e) = turned_away w (bad_url e) n
    go none = by_acquire w n w.acquire h refl

-- Whatever happens to a stream, and however often its body is closed: the limiter is entered at most
-- once, and it has been left again exactly if Stream returned an error or the body has been closed at
-- least once; closing it again releases nothing more. A request is sent only with a token that a
-- request which was let in acquired, and FinishRequest is told of every request that was sent and of
-- no other.
pub session-IsReleased :
    (ul : UrlLib) (r : Request) (w : World) (path : Bytes) (n : ℕ)
    → IsReleased w (stream ul r w path).0 n (session ul r w path n)
unfolding session stream
session-IsReleased ul r w path n = by_error r.error w.open_ refl
  where
    by_error :
        (e : Option ℤ) (b : Bool)
        → w.open_ ≡ b
        → Released w n (elim e [
          | some x ↦ (inl (deferred x), [])
          | none ↦
              if b
              then before (enters ∷ []) (stream_build w (Urlx.build ul r.base_url path r.query))
              else (inl closed, [])
        ])
    by_error (some x) b h = nothing_done w (deferred x) n
    by_error none true h = by_build w n (Urlx.build ul r.base_url path r.query) h
    by_error none false h = nothing_done w closed n
