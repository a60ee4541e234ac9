-- ===== src/Client/Tests.antt =====
-- Examples for requests over a client: each request counts, and is answered with two chunks of body.
use rs_dtool.Base.{
  ℕ, ◌+◌, ◌≡◌, ◌↔◌, Option, none, some, [], ◌∷◌, returns, debug, refl, arith, false, ◌==◌,
  if◌then◌else◌,
}
use rs_dtool.Error.{ok, err}
use rs_dtool.Http.{RequestInfo, with_parts, check_response_resumability}
use rs_dtool.Http.Tests.{Headers, plain, request_laws}
use rs_dtool.Transfer.{Stream}
use rs_dtool.Transfer.Clip.{write_each}
use rs_dtool.Transfer.Stale.{context}
use rs_dtool.Transfer.Examples.{bytes_at, blank}
use rs_dtool.Client.{Client, handle_test_request, send_second_request, first_response_download}
use rs_dtool.Client.Answers.{
  with_range, Answers, handle_test_request-some_iff, handle_test_request-no_error,
  send_second_request-no_range,
}
use rs_dtool.Client.Download.{first_response_download-write_each}

abbrev partial : Headers × Option ℕ × ℕ
partial = (λ n. none, some 6, 206)

abbrev counting : Client plain
counting = record {
  Net = ℕ;
  Error = Unit {0};
  execute = λ net request. (ok partial, net + 1);
  error_for_status = λ response. ok response;
  Bounds = Option ℕ;
  unbounded = some 0;
  from = λ n. some n;
  Range = ℕ;
  range = λ bounds. bounds;
  insert_range = λ headers range. plain.insert headers 3 range;
}

abbrev asked : RequestInfo plain
asked = record { url = 5; headers = λ n. none; version = 20 }

abbrev body : Headers × Option ℕ × ℕ → Stream bytes_at ℕ
body response = ok (1 ∷ 2 ∷ []) ∷ ok (3 ∷ []) ∷ []

handle_test_request-some_iff_example :
    (handle_test_request counting 0 asked (some 1000) ≡ returns (ok (some partial), 1)) ↔ (
      (range : ℕ) × (some 1000 ≡ some range)
      × Answers counting 0 (with_range counting asked range) partial 1
      × (plain.status partial ≡ 206))
handle_test_request-some_iff_example =
    handle_test_request-some_iff counting 0 asked (some 1000) partial 1

handle_test_request-no_error_test :
    ¬ (handle_test_request counting 0 asked (some 1000) ≡ returns (err tt, 1))
handle_test_request-no_error_test = handle_test_request-no_error counting 0 asked (some 1000) 1

asks_plain : send_second_request counting 0 asked ≡ returns (partial, 1)
unfolding send_second_request
asks_plain = refl

made_of_parts : with_parts plain 5 (λ n. none) 20 ≡ ok asked
unfolding with_parts
made_of_parts = refl

send_second_request-no_range_example :
    (request : plain.Request) × (counting.execute 0 request ≡ (ok partial, 1))
    × (plain.has_range (plain.headers_of request) ≡ false)
send_second_request-no_range_example =
    send_second_request-no_range counting request_laws 5 (λ n. none) 20 0 1 asked partial
      made_of_parts asks_plain

first_response_download-write_each_example :
    (cache : ℕ) × (first_response_download counting body debug 0 asked blank 9 false
      ≡ returns (
        record asked {
          headers = (check_response_resumability plain asked.headers partial false).1;
        },
        context bytes_at ℕ
            (Unit {0})
            debug
            []
            (write_each bytes_at blank 0 ((1 ∷ 2 ∷ []) ∷ (3 ∷ []) ∷ []))
            cache,
        6,
        1,
      ))
first_response_download-write_each_example =
    first_response_download-write_each counting body debug 0 1 asked 0 partial blank 9
      ((1 ∷ 2 ∷ []) ∷ (3 ∷ []) ∷ []) refl (partial, refl, refl) refl (omega arith) (omega arith)
      (omega arith, (omega arith, tt))

-- An answer with an ETag, which says nothing of ranges.
abbrev tagged : Headers × Option ℕ × ℕ
tagged = (λ n. if n == 0 then some 7 else none, some 6, 200)

abbrev tagging : Client plain
tagging = record counting { execute = λ net request. (ok tagged, net + 1) }

abbrev noted : Headers
noted = (check_response_resumability plain asked.headers tagged false).1
