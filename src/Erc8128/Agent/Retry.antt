-- ===== src/Erc8128/Agent/Retry.antt =====
-- What a retried request carries.
use siwa.Base.{
  ℕ, ◌≡◌, ◌≢◌, refl, ◌∙◌, sym, subst, Option, none, some, [], ◌∷◌, Result, ok, throws, ◌==◌,
}
use siwa.Base.Int.{pos}
use siwa.Base.Json
use siwa.Base.Json.{Json, null, bool, num, str, arr, obj}
use siwa.Base.Str.{Str}
use siwa.Captcha.Packing.{unpack-pack_captcha_response}
use siwa.Captcha.Submission.{unpack_captcha_response, packed_json}
use siwa.Erc8128.Agent.{
  set_header, get_header, receipt_header, challenge_response_header, Outgoing, Signer, Response,
  EthHttpSigner, create_erc8128_signer, NoRetry, no_retry, SignRequest, challenge_in, with_solution,
  retry_challenge, retry_body, retry_with_captcha, pack_token,
}
use siwa.Erc8128.Steps.{goes, >>=-goes, stateful, lift, require}
use siwa.Runtime.{Runtime}
use siwa.Erc8128.Agent.Kept.{
  get_header-set_header, receipt-set_header, challenge_in-same, lift-goes, stateful-goes,
  require-goes, is_401, signed_with-goes,
}

module _ {S P : Type 0} (sign_request : SignRequest S P) (signer : Signer S) (chain_id : ℕ)
    (signer_address : Option Str) (r : Runtime) (now : ℕ) (solver : Json → S → S × Result Str) where
  -- The solver gave `solution` for the challenge, and `signed` is what the library made of the request
  -- `asked`, with both headers among the components that it was told to sign. Each call is in the state
  -- that the one before it has left.
  pub record IsRetry (request : Outgoing P) (receipt : Str) (challenge token : Json) (s s' : S)
      (signed : Outgoing P) : Type 0 where
    pub solution : Str
    pub solved_state : S
    pub signer_state : S
    pub eth_signer : EthHttpSigner S
    pub asked : Outgoing P
    pub solved : solver challenge s ≡ (solved_state, ok solution)
    pub made :
        create_erc8128_signer {E = NoRetry} signer chain_id signer_address solved_state
        ≡ (signer_state, goes eth_signer)
    pub bound :
        sign_request asked eth_signer (receipt_header ∷ challenge_response_header ∷ []) signer_state
        ≡ (s', ok signed)
    pub same_parts : asked.parts ≡ request.parts
    pub with_receipt : get_header receipt_header asked.headers ≡ some receipt
    pub with_response :
        get_header challenge_response_header asked.headers ≡ some (pack_token r now token solution)

  retry_challenge-goes :
      (request : Outgoing P) (receipt : Str) (found : Option (Json × Json)) (s s' : S)
      (signed : Outgoing P)
      → retry_challenge sign_request signer chain_id signer_address r now solver request receipt
          found s
        ≡ (s', goes signed)
      → (challenge : Json) × (token : Json) × (found ≡ some (challenge, token))
        × IsRetry request receipt challenge token s s' signed
  unfolding retry_challenge with_solution
  retry_challenge-goes request receipt none s s' signed e = absurd (cc)
  retry_challenge-goes request receipt (some (challenge, token)) s s' signed e =
      let (solution, t, same, last) = >>=-goes (stateful (solver challenge)) _ s e in
      let packed = pack_token r now token solution in
      let asked =
        with_solution sign_request signer chain_id signer_address r now solver request receipt
          packed in
      let (eth_signer, t', made, bound) =
        signed_with-goes sign_request signer chain_id signer_address {E = NoRetry} asked
          (receipt_header ∷ challenge_response_header ∷ []) t s' signed last in
      (
        challenge,
        token,
        refl,
        record {
          solution = solution;
          solved_state = t;
          signer_state = t';
          eth_signer = eth_signer;
          asked = asked;
          solved = stateful-goes {E = NoRetry} (solver challenge) s t solution same;
          made = made;
          bound = bound;
          same_parts = refl;
          with_receipt =
              receipt-set_header packed (set_header receipt_header receipt request.headers)
              ∙ get_header-set_header receipt_header receipt request.headers;
          with_response =
              get_header-set_header challenge_response_header packed
                (set_header receipt_header receipt request.headers);
        },
      )

  retry_body-goes :
      (request : Outgoing P) (receipt : Str) (o : Result Json) (s s' : S) (signed : Outgoing P)
      → retry_body sign_request signer chain_id signer_address r now solver request receipt o s
        ≡ (s', goes signed)
      → (body : Json) × (found : Option (Json × Json)) × (t : S) × (o ≡ ok body)
        × (challenge_in body ≡ ok found)
        × (s ≡ t)
        × (retry_challenge sign_request signer chain_id signer_address r now solver request receipt
              found t
            ≡ (s', goes signed))
  unfolding retry_body
  retry_body-goes request receipt (throws x) s s' signed e = absurd (cc)
  retry_body-goes request receipt (ok body) s s' signed e =
      let (found, t, same, last) = >>=-goes (lift (challenge_in body)) _ s e in
      let (given, same_state) = lift-goes (challenge_in body) s t found same in
      (body, found, t, refl, given, same_state, last)

  -- A request that is retried answers a response of status 401 whose body has a challenge. If that has a
  -- text as its token, the solver gives no empty text and JSON reads back what is packed, the solver was
  -- asked for that challenge, and what is sent is what the library makes of the caller's request with
  -- the receipt and the response to the challenge as headers that it is told to sign; the server unpacks
  -- that response to the token, the text that the solver gave, and the time of packing.
  pub retry_with_captcha_sound :
      (response : Response) (request : Outgoing P) (receipt : Str) (body : Json) (token : Str)
      (s s' : S) (signed : Outgoing P)
      → response.body ≡ ok body
      → Json.get body "challengeToken" ≡ some (str token)
      → token ≢ []
      → ((challenge : Json) (t t' : S) (solution : Str)
          → solver challenge t ≡ (t', ok solution)
          → (solution ≢ [])
            × (r.decode (r.encode (packed_json token solution now))
                ≡ ok (packed_json token solution now)))
      → retry_with_captcha sign_request signer chain_id signer_address r now solver response request
          receipt s
        ≡ (s', goes signed)
      → (response.status ≡ 401)
        × (challenge : Json) × (Json.get body "challenge" ≡ some challenge)
        × (retry : IsRetry request receipt challenge (str token) s s' signed)
        × (unpack_captcha_response r (pack_token r now (str token) retry.solution)
            ≡ some (str token, str retry.solution, pos now))
  unfolding retry_with_captcha pack_token
  retry_with_captcha_sound response request receipt body token s s' signed eb et given solves e =
      let (u, s₁, same, next) = >>=-goes (require (response.status == 401) no_retry) _ s e in
      let (body', found, s₂, eb', asked, same₂, rest) =
        retry_body-goes request receipt response.body s₁ s' signed next in
      let (challenge, token', ef, raw) =
        retry_challenge-goes request receipt found s₂ s' signed rest in
      let pair =
        challenge_in-same response.body body body' found challenge token' token eb eb' asked ef
          et in
      let (status, same₁) = require-goes (response.status == 401) no_retry s s₁ u same in
      let retry =
        subst (λ x. IsRetry request receipt challenge x s s' signed) pair.1
          (subst (λ x. IsRetry request receipt challenge token' x s' signed) (sym (same₁ ∙ same₂))
            raw) in
      let usable = solves challenge s retry.solved_state retry.solution retry.solved in
      (
        is_401 response.status status,
        challenge,
        pair.0,
        retry,
        unpack-pack_captcha_response r now token retry.solution usable.1 given usable.0,
      )
