-- ===== src/Error/Tests.antt =====
-- Examples for Dtool_impl/src/downloader/error.rs: a library whose responses are their statuses.
use rs_dtool.Base.{
  ℕ, true, false, ◌≡◌, returns, panics, ltb, leb, ◌&&◌, if◌then◌else◌, arith, refl, inl, ◌↔◌,
}
use rs_dtool.Error.{ok, err, custom_retry, immediately}
use rs_dtool.Error.Status.{
  Http, HttpLaws, Untaken, error_for_succes, error_for_succes-error, error_for_succes-panics_iff,
  error_for_succes-ok_iff,
}

abbrev statuses : Http
statuses = record {
  Response = ℕ;
  Error = ℕ;
  status = λ s. s;
  error_for_status_ref = λ s. if leb 400 s && ltb s 600 then err s else ok s;
  is_client_error = λ s. leb 400 s && ltb s 500;
  is_server_error = λ s. leb 500 s && ltb s 600;
}

statuses_laws : HttpLaws statuses
statuses_laws = record {
  error_of = λ s. s;
  client = λ s. ground arith;
  server = λ s. ground arith;
  error_at = λ s low high. ground arith;
  no_error_below = λ s low. ground arith;
  no_error_above = λ s high. ground arith;
}

error_for_succes-error_example :
    error_for_succes statuses {W = ℕ} 408 true
    ≡ returns (err (custom_retry immediately (statuses_laws.error_of 408)))
error_for_succes-error_example =
    error_for_succes-error statuses statuses_laws {W = ℕ} 408 true (omega arith) (omega arith)

error_for_succes-panics_iff_example :
    (error_for_succes statuses {W = ℕ} 302 false ≡ panics) ↔ Untaken 302 false
error_for_succes-panics_iff_example =
    error_for_succes-panics_iff statuses statuses_laws {W = ℕ} 302 false

error_for_succes-ok_iff_test :
    (error_for_succes statuses {W = ℕ} 206 true ≡ returns (ok 206))
    ↔ ((statuses.status 206 ≡ 206) × (◌≡◌ {A = ℕ} 206 206))
error_for_succes-ok_iff_test = error_for_succes-ok_iff statuses statuses_laws {W = ℕ} 206 206 true

-- A full answer, where only a part is wanted.
full_is_a_panic : error_for_succes statuses {W = ℕ} 200 true ≡ panics
unfolding error_for_succes
full_is_a_panic =
    (error_for_succes-panics_iff statuses statuses_laws {W = ℕ} 200 true).1 (inl (refl, refl))
