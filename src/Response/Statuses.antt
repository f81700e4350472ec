-- ===== src/Response/Statuses.antt =====
-- Which response a result gives.
use siwa.Base.{Bool, true, false, Option, none, some, ◌≡◌, arith, is_some, if◌then◌else◌}
use siwa.Response.{
  SiwaErrorCode, SiwaVerificationResult, SiwaResponse, Status, authenticated, rejected, base,
  rejected_response, build_siwa_response,
}

-- The status that a result ought to give.
abbrev pub status_of : Bool → Option SiwaErrorCode → Status
status_of true code = authenticated
status_of false (some SiwaErrorCode.not_registered) = Status.not_registered
status_of false code = rejected

-- Whether an agent has to register first.
abbrev pub must_register : Bool → Option SiwaErrorCode → Bool
must_register false (some SiwaErrorCode.not_registered) = true
must_register valid code = false

-- What a response says besides its status.
pub record IsResponseTo (result : SiwaVerificationResult) (response : SiwaResponse) : Type 0 where
  pub status : response.status ≡ status_of result.valid result.code
  pub code : response.code ≡ (if result.valid then none else result.code)
  pub action : is_some response.action ≡ must_register result.valid result.code
  pub skill : is_some response.skill ≡ (if result.valid then false else true)
  pub signer_type : response.signer_type ≡ result.signer_type
  pub verified : response.verified ≡ some result.verified
  pub error :
      must_register result.valid result.code ≡ false
      → response.error ≡ (if result.valid then none else result.error)

-- The response is authenticated exactly for a valid result, asks for a registration exactly for an
-- invalid result of the code NOT_REGISTERED, and otherwise rejects with the result's code and error;
-- the install hint stands in every response that is not authenticated.
pub build_siwa_response_lem :
    (result : SiwaVerificationResult) → IsResponseTo result (build_siwa_response result)
unfolding build_siwa_response rejected_response base
build_siwa_response_lem result = record {
  status = ground arith;
  code = ground arith;
  action = ground arith;
  skill = ground arith;
  signer_type = ground arith;
  verified = ground arith;
  error = ground arith;
}
