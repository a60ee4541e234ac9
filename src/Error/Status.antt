-- ===== src/Error/Status.antt =====
-- `error_for_succes` of Dtool_impl/src/downloader/error.rs, on a response of the HTTP library.
use native.Mathlib.Decide.{dec_lt}
use rs_dtool.Base.{
  ◌⊎◌, inr, ℕ, ◌≤◌, ◌<◌, ◌≡◌, Bool, true, Exec, returns, panics, ◌>>=◌, ltb, ◌==◌, ◌&&◌,
  if◌then◌else◌, arith, ◌↔◌, not,
}
use rs_dtool.Error.{
  Result, ok, err, SubError, download, custom_retry, error_succes_status, RetrySuggest, break_off,
  immediately, wait_fuzzy,
}

-- What the function asks of a response and of its status.
pub record Http : Type 1 where
  pub Response : Type 0
  pub Error : Type 0
  pub status : Response → ℕ
  pub error_for_status_ref : Response → Result Response Error
  pub is_client_error : ℕ → Bool
  pub is_server_error : ℕ → Bool

-- The documented behaviour: the classes of a status are its hundreds, and `error_for_status_ref`
-- gives an error for the client's and the server's, the one that `error_of` names.
pub record HttpLaws (H : Http) : Type 0 where
  pub error_of : H.Response → H.Error
  pub client : (s : ℕ) → (H.is_client_error s ≡ true) ↔ ((400 ≤ s) × (s < 500))
  pub server : (s : ℕ) → (H.is_server_error s ≡ true) ↔ ((500 ≤ s) × (s < 600))
  pub error_at :
      (r : H.Response)
      → 400 ≤ H.status r
      → H.status r < 600
      → H.error_for_status_ref r ≡ err (error_of r)
  pub no_error_below : (r : H.Response) → H.status r < 400 → H.error_for_status_ref r ≡ ok r
  pub no_error_above : (r : H.Response) → 600 ≤ H.status r → H.error_for_status_ref r ≡ ok r

-- `Result::unwrap_err`
pub unwrap_err : {A E : Type 0} → Result A E → Exec E
unwrap_err (ok _) = panics
unwrap_err (err e) = returns e

module _ (H : Http) {W : Type 0} where
  -- The part of `error_for_succes` after `let error`.
  pub suggestion_for : H.Response → H.Error → Exec (Result H.Response (SubError H.Error W))
  unfolding unwrap_err
  suggestion_for response error =
      let status_code = H.status response in
      if status_code == 408
      then returns (err (custom_retry immediately error))
      else if status_code == 429
      then returns (err (custom_retry wait_fuzzy error))
      else if H.is_client_error status_code
      then (do
        error' ← unwrap_err (H.error_for_status_ref response)
        returns (err (custom_retry break_off error')))
      else if H.is_server_error status_code
      then returns (err (custom_retry wait_fuzzy error))
      else (do
        error' ← unwrap_err (H.error_for_status_ref response)
        returns (err (custom_retry break_off error')))

  unfoldable pub error_for_succes :
      H.Response → Bool → Exec (Result H.Response (SubError H.Error W))
  unfolding unwrap_err suggestion_for
  error_for_succes response only_partical =
      let status_code = H.status response in
      if status_code == 206
      then returns (ok response)
      else if (status_code == 200) && not only_partical
      then returns (err (download (error_succes_status status_code)))
      else if ltb 200 status_code && ltb status_code 300
      then returns (err (download (error_succes_status status_code)))
      else (do error ← unwrap_err (H.error_for_status_ref response); suggestion_for response error)

-- What is to be done about a client's or a server's error.
abbrev pub suggestion : ℕ → RetrySuggest
suggestion s =
    if s == 408
    then immediately
    else if s == 429
    then wait_fuzzy
    else if ltb s 500
    then break_off
    else wait_fuzzy

-- A status, and what is wanted, that no test of `error_for_succes` takes and that is no error.
abbrev pub Untaken : ℕ → Bool → Type 0
Untaken s only_partical =
    ((s ≡ 200) × (only_partical ≡ true)) ⊎ ((s < 200) ⊎ (((300 ≤ s) × (s < 400)) ⊎ (600 ≤ s)))

module _ (H : Http) (laws : HttpLaws H) {W : Type 0} where
  -- A response with a status from 400 to 599 gives its error, with the suggestion for that status:
  -- at once for 408, a while later for 429 and for the server's errors, never for the client's
  -- others. The library's errors are as documented.
  pub error_for_succes-error :
      (response : H.Response) (only_partical : Bool)
      → 400 ≤ H.status response
      → H.status response < 600
      → error_for_succes H {W = W} response only_partical
        ≡ returns (err (custom_retry (suggestion (H.status response)) (laws.error_of response)))
  unfolding error_for_succes suggestion_for unwrap_err
  error_for_succes-error response only_partical low high =
      let raised = laws.error_at response low high in
      let client = laws.client (H.status response) in
      let server = laws.server (H.status response) in ground arith

  -- `error_for_succes` panics exactly on a status that stands for no error and that no test takes:
  -- 200 where only a part is wanted, below 200, a redirection, or from 600 on. The library's errors
  -- are as documented.
  pub error_for_succes-panics_iff :
      (response : H.Response) (only_partical : Bool)
      → (error_for_succes H {W = W} response only_partical ≡ panics)
        ↔ Untaken (H.status response) only_partical
  unfolding error_for_succes suggestion_for unwrap_err
  error_for_succes-panics_iff response only_partical =
      let s = H.status response in
      let raised = laws.error_at response in
      let below = laws.no_error_below response in
      let above = laws.no_error_above response in
      let client = laws.client s in
      let server = laws.server s in
      (
        λ h. elim (dec_lt s 400) [
          | yes low ↦ ground arith
          | no high ↦ elim (dec_lt s 600) [
            | yes low ↦ absurd ground arith
            | no high' ↦ inr (inr (inr (omega arith)))
          ]
        ],
        λ u. ground arith,
      )

  -- `error_for_succes` gives the response back exactly when its status is 206, whatever is wanted.
  -- The library's errors are as documented.
  pub error_for_succes-ok_iff :
      (response response' : H.Response) (only_partical : Bool)
      → (error_for_succes H {W = W} response only_partical ≡ returns (ok response'))
        ↔ ((H.status response ≡ 206) × (response' ≡ response))
  unfolding error_for_succes suggestion_for unwrap_err
  error_for_succes-ok_iff response response' only_partical =
      let s = H.status response in
      let raised = laws.error_at response in
      let below = laws.no_error_below response in
      let above = laws.no_error_above response in
      (
        λ h. elim (dec_lt s 400) [
          | yes low ↦ ground arith
          | no high ↦ elim (dec_lt s 600) [
            | yes low ↦ absurd ground arith
            | no high' ↦ ground arith
          ]
        ],
        λ u. ground arith,
      )
