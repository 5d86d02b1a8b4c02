-- ===== src/Client/Tests.antt =====
-- Requests and responses of client/ at fixed inputs.
use pace.Prelude.{
  ◌≡◌, refl, ltb, length, inl, inr, true, none, some, List, [], ◌∷◌, arith, if◌then◌else◌,
}
use pace.Prelude.Int.{pos}
use pace.Prelude.Bytes.{Bytes, text}
use pace.Bucket.{max_int64}
use pace.Urlx.Tests.{urls}
use pace.Client.{
  Reader, read_body, read_all, body_too_large, Headers, retry_after, World, Request, do_request,
}
use pace.Client.Builder.{Call, sets_query, sets_json, adds_header, calls, new_request, request_of}
use pace.Client.Builder.Calls.{Reports, do_request-calls}
use pace.Client.Streams.{stream, session}
use pace.Client.Streams.Release.{IsReleased, session-IsReleased}
use pace.Client.Bodies.{read_body_capped, read_body_overflow}
use pace.Client.Requests.{IsOrderly, do_request-IsOrderly}

abbrev five : Reader
five = record { content = text "12345"; failure = none }

read_body_capped_example :
    read_body five (pos 4)
    ≡ (if ltb 4 (length five.content) then inl (body_too_large (pos 4)) else read_all five)
read_body_capped_example = read_body_capped five 4 (omega arith) (omega arith)

read_body_overflow_example : read_body five max_int64 ≡ inr []
read_body_overflow_example = read_body_overflow five

-- Two seconds, whatever the text.
abbrev headers : Headers
headers = record { atoi = λ v. some (pos 2); parse_time = λ v. none }

two_seconds : retry_after headers (pos 5) (text "2") ≡ some (pos 2_000_000_000)
unfolding retry_after
two_seconds = refl

abbrev world : World
world = record { open_ = true; refused = λ u. none; acquire = none; reply = inr (200, five) }

abbrev get : Request
get = record { base_url = text "http://a"; query = []; error = none; max_response_bytes = pos 4 }

do_request-IsOrderly_example : IsOrderly world (do_request urls get world (text "/x"))
do_request-IsOrderly_example = do_request-IsOrderly urls get world (text "/x")

abbrev same : Bytes → Bytes
same k = k

abbrev chain : List (Call same)
chain =
    sets_query (text "q") (text "1")
    ∷ sets_json (inl (pos 3))
    ∷ sets_json (inl (pos 4))
    ∷ adds_header (text "X") (text "y")
    ∷ []

do_request-calls_example :
    Reports same (some (pos 3)) (calls same (new_request (text "k")) chain).error (
      do_request urls
        (request_of (text "http://a") (pos 4) (calls same (new_request (text "k")) chain))
        world
        (text "/x"))
do_request-calls_example =
    do_request-calls same urls world (text "http://a") (text "/x") (text "k") (pos 4) chain

session-IsReleased_example :
    IsReleased world (stream urls get world (text "/x")).0 2 (session urls get world (text "/x") 2)
session-IsReleased_example = session-IsReleased urls get world (text "/x") 2
