-- ===== src/Client/Answers.antt =====
-- What the functions of Dtool_impl/src/downloader/group_impl.rs and stream_creater.rs that send a request give, on
-- every answer.
use mathlib.Core.Path.{ap₂}
use rs_dtool.Base.{
  ◌≡◌, ◌↔◌, false, Option, none, some, returns, ◌==◌, arith, refl, ap, unwrap, >>=-returns,
  >>=-eq-returns, returns-injective, if◌then◌else◌, ◌∙◌,
}
use rs_dtool.Error.{Result, ok, err}
use rs_dtool.Http.{Library, RequestInfo, build_request, with_parts}
use rs_dtool.Http.Requests.{RequestLaws, build_request-with_parts}
use rs_dtool.Client.{
  unwrap_result, Client, range_request, execute_unwrap, handle_test_request, send_second_request,
}

unwrap-eq-returns : {A : Type 0} {o : Option A} {a : A} → unwrap o ≡ returns a → o ≡ some a
unwrap-eq-returns {o = none} h = cc
unwrap-eq-returns {o = some a} h = cc

unwrap_result-eq-returns :
    {A E : Type 0} {r : Result A E} {a : A} → unwrap_result r ≡ returns a → r ≡ ok a
unwrap_result-eq-returns {r = ok a} h = cc
unwrap_result-eq-returns {r = err e} h = cc

ok-injective : {A E : Type 0} {a a' : A} → ◌≡◌ {A = Result A E} (ok a) (ok a') → a ≡ a'
ok-injective h = cc

module _ {L : Library} (C : Client L) where
  open C use {Net, Error}

  -- The request of an information whose headers have a range besides.
  abbrev pub with_range : RequestInfo L → C.Range → L.Request
  with_range info range =
      L.set_headers (build_request L info)
        (C.insert_range (L.headers_of (build_request L info)) range)

  -- The server answers a request, with no error status.
  abbrev pub Answers : Net → L.Request → L.Response → Net → Type 0
  Answers net request response net' =
      (answer : L.Response) × (C.execute net request ≡ (ok answer, net'))
      × (C.error_for_status answer ≡ ok response)

  executed :
      (net net' : Net) (request : L.Request) (answer : L.Response)
      → (C.execute net request).0 ≡ ok answer
      → (C.execute net request).1 ≡ net'
      → C.execute net request ≡ (ok answer, net')
  executed net net' request answer e e' = ap₂ (λ r n. (r, n)) e e'

  execute_unwrap-Answers :
      (net : Net) (request : L.Request) (response : L.Response) (net' : Net)
      → execute_unwrap C net request ≡ returns (response, net')
      → Answers net request response net'
  unfolding execute_unwrap
  execute_unwrap-Answers net request response net' h =
      let (answer, e, h') = >>=-eq-returns (unwrap_result (C.execute net request).0) _ h in
      let (response', e', h'') = >>=-eq-returns (unwrap_result (C.error_for_status answer)) _ h' in
      let same = returns-injective h'' in
      (
        answer,
        executed net net' request answer (unwrap_result-eq-returns e) (ap (λ p. p.1) same),
        unwrap_result-eq-returns e' ∙ ap (λ p. ok p.0) same,
      )

  pub Answers-execute_unwrap :
      (net : Net) (request : L.Request) (response : L.Response) (net' : Net)
      → Answers net request response net'
      → execute_unwrap C net request ≡ returns (response, net')
  unfolding execute_unwrap
  Answers-execute_unwrap net request response net' (answer, e, e') = rw (e, e') refl

  range_request-range :
      (info : RequestInfo L) (bounds : C.Bounds) (request : L.Request)
      → range_request C info bounds ≡ returns request
      → (range : C.Range) × (C.range bounds ≡ some range) × (with_range info range ≡ request)
  unfolding range_request
  range_request-range info bounds request h =
      let (range, e, h') = >>=-eq-returns (unwrap (C.range bounds)) _ h in
      (range, unwrap-eq-returns e, returns-injective h')

  pub range_request-with_range :
      (info : RequestInfo L) (bounds : C.Bounds) (range : C.Range)
      → C.range bounds ≡ some range
      → range_request C info bounds ≡ returns (with_range info range)
  unfolding range_request
  range_request-with_range info bounds range e = rw e refl

  confirmed :
      (r response : L.Response)
      → (if L.status r == 206 then some r else none) ≡ some response
      → (r ≡ response) × (L.status response ≡ 206)
  confirmed r response e = ground arith

  -- `handle_test_request` gives a response exactly if the bounds make a range, the server answers
  -- to the request with that range, with no error status, and the answer's status is 206.
  pub handle_test_request-some_iff :
      (net : Net) (info : RequestInfo L) (bounds : C.Bounds) (response : L.Response) (net' : Net)
      → (handle_test_request C net info bounds ≡ returns (ok (some response), net')) ↔ (
          (range : C.Range) × (C.range bounds ≡ some range)
          × Answers net (with_range info range) response net'
          × (L.status response ≡ 206))
  unfolding handle_test_request
  handle_test_request-some_iff net info bounds response net' = (
    λ h.
        let (request, e, h') = >>=-eq-returns (range_request C info bounds) _ h in
        let (range, e1, e2) = range_request-range info bounds request e in
        let ((response', net1), e3, h'') = >>=-eq-returns (execute_unwrap C net request) _ h' in
        let same = returns-injective h'' in
        let (e4, partial) = confirmed response' response (ok-injective (ap (λ p. p.0) same)) in
        (
          range,
          e1,
          execute_unwrap-Answers net (with_range info range) response net' (
              ap (execute_unwrap C net) e2
              ∙ e3
              ∙ ap₂ (λ r n. returns (r, n)) e4 (ap (λ p. p.1) same)),
          partial,
        ),
    λ (range, e, answers, partial).
        >>=-returns _ (range_request-with_range info bounds range e)
        ∙ >>=-returns _ (Answers-execute_unwrap net (with_range info range) response net' answers)
        ∙ rw partial refl,
  )

  -- `handle_test_request` never gives its error: where it gives no response and no `None`, it panics.
  pub handle_test_request-no_error :
      (net : Net) (info : RequestInfo L) (bounds : C.Bounds) (net' : Net)
      → ¬ (handle_test_request C net info bounds ≡ returns (err tt, net'))
  unfolding handle_test_request range_request execute_unwrap
  handle_test_request-no_error net info bounds net' e = ground arith

  -- Where `send_second_request` returns, the server has answered to a request that asks for no range,
  -- if the information is one that `with_parts` gave. The requests are as documented.
  pub send_second_request-no_range :
      (laws : RequestLaws L) (url : L.Url) (headers : L.HeaderMap) (version : L.Version)
      (net net' : Net) (info : RequestInfo L) (response : L.Response)
      → with_parts L url headers version ≡ ok info
      → send_second_request C net info ≡ returns (response, net')
      → (request : L.Request) × (C.execute net request ≡ (ok response, net'))
        × (L.has_range (L.headers_of request) ≡ false)
  unfolding send_second_request
  send_second_request-no_range laws url headers version net net' info response made h =
      let (response', e, h') =
        >>=-eq-returns (unwrap_result (C.execute net (build_request L info)).0) _ h in
      let same = returns-injective h' in
      let (_, _, free, _) = build_request-with_parts L laws url headers version info made in
      (
        build_request L info,
        executed net net' (build_request L info) response
            (unwrap_result-eq-returns e ∙ ap (λ p. ok p.0) same) (ap (λ p. p.1) same),
        free,
      )
