-- ===== src/Erc8128/Agent/Kept.antt =====
-- What the headers of a request keep, what is signed, and the members of a body that asks for a solution.
use siwa.Base.{
  ℕ, ◌≡◌, refl, arith, true, false, Option, none, some, List, Result, ok, throws, ◌==◌, Bool,
}
use siwa.Base.Json
use siwa.Base.Json.{Json, null, bool, num, str, arr, obj}
use siwa.Base.JsMap.{get-set}
use siwa.Base.Str.{Str, text, str_eq}
use siwa.Base.Str.Laws.{str_eq_refl}
use siwa.Captcha.Packing.{truthy_payload-some}
use siwa.Captcha.Submission.{truthy_payload}
use siwa.Erc8128.Agent.{
  Headers, set_header, get_header, lower, lower_unit, receipt_header, challenge_response_header,
  Outgoing, Signer, EthHttpSigner, SignRequest, create_erc8128_signer, challenge_in, required_pair,
  signed_with,
}
use siwa.Erc8128.Steps.{goes, >>=-goes, stateful, stateful_exit, lift, require}

pub get_header-set_header : (n v : Str) (h : Headers) → get_header n (set_header n v h) ≡ some v
unfolding get_header set_header
get_header-set_header n v h = ground (arith, get-set (lower n) (lower n) v h, str_eq_refl (lower n))

names-differ : str_eq (lower challenge_response_header) (lower receipt_header) ≡ false
unfolding str_eq lower lower_unit challenge_response_header receipt_header text
names-differ = refl

pub receipt-set_header :
    (v : Str) (h : Headers)
    → get_header receipt_header (set_header challenge_response_header v h)
      ≡ get_header receipt_header h
unfolding get_header set_header
receipt-set_header v h =
    rw (get-set (lower challenge_response_header) (lower receipt_header) v h, names-differ) refl

pub stateful-goes :
    {S E A : Type 0} (m : S → S × Result A) (s s' : S) (a : A)
    → stateful {E = E} m s ≡ (s', goes a)
    → m s ≡ (s', ok a)
stateful-goes {S} {E} {A} m s s' a e = from (m s) refl e
  where
    from : (o : S × Result A) → m s ≡ o → stateful_exit {E = E} o ≡ (s', goes a) → m s ≡ (s', ok a)
    from (t, ok b) same e = cc
    from (t, throws x) same e = absurd (cc)

required_pair-some :
    (a b c : Option Json) (challenge token : Json)
    → required_pair a b c ≡ some (challenge, token)
    → (b ≡ some challenge) × (c ≡ some token)
unfolding required_pair
required_pair-some (some a) (some b) (some c) challenge token e = (cc, cc)
required_pair-some (some a) (some b) none challenge token e = absurd (cc)
required_pair-some (some a) none c challenge token e = absurd (cc)
required_pair-some none b c challenge token e = absurd (cc)

found-some :
    (a b c : Option Json) (challenge token : Json)
    → ◌≡◌ {A = Result (Option (Json × Json))}
        (ok (required_pair (truthy_payload a) (truthy_payload b) (truthy_payload c)))
        (ok (some (challenge, token)))
    → (b ≡ some challenge) × (c ≡ some token)
found-some a b c challenge token e =
    let (eb, ec) =
      required_pair-some (truthy_payload a) (truthy_payload b) (truthy_payload c) challenge token
        (cc) in
    (truthy_payload-some b challenge eb, truthy_payload-some c token ec)

challenge_in-some :
    (body challenge token : Json)
    → challenge_in body ≡ ok (some (challenge, token))
    → (Json.get body "challenge" ≡ some challenge) × (Json.get body "challengeToken" ≡ some token)
unfolding challenge_in
challenge_in-some null challenge token e = absurd (cc)
challenge_in-some (bool b) challenge token e = found-some _ _ _ challenge token e
challenge_in-some (num z) challenge token e = found-some _ _ _ challenge token e
challenge_in-some (str t) challenge token e = found-some _ _ _ challenge token e
challenge_in-some (arr vs) challenge token e = found-some _ _ _ challenge token e
challenge_in-some (obj fs) challenge token e = found-some _ _ _ challenge token e

pub challenge_in-same :
    (o : Result Json) (body body' : Json) (found : Option (Json × Json)) (challenge token' : Json)
    (token : Str)
    → o ≡ ok body
    → o ≡ ok body'
    → challenge_in body' ≡ ok found
    → found ≡ some (challenge, token')
    → Json.get body "challengeToken" ≡ some (str token)
    → (Json.get body "challenge" ≡ some challenge) × (token' ≡ str token)
challenge_in-same o body body' found challenge token' token eb eb' asked ef et =
    let asked_in : challenge_in body ≡ ok (some (challenge, token')) = cc in
    let pair = challenge_in-some body challenge token' asked_in in (pair.0, token_text pair.1)
  where
    token_text : Json.get body "challengeToken" ≡ some token' → token' ≡ str token
    token_text e = cc

pub lift-goes :
    {S E A : Type 0} (m : Result A) (s s' : S) (a : A)
    → lift {S = S} {E = E} m s ≡ (s', goes a)
    → (m ≡ ok a) × (s ≡ s')
lift-goes (ok b) s s' a e = (cc, cc)
lift-goes (throws x) s s' a e = absurd (cc)

pub require-goes :
    {S E : Type 0} (b : Bool) (x : E) (s s' : S) (u : Unit {0})
    → require {S = S} {E = E} b x s ≡ (s', goes u)
    → (b ≡ true) × (s ≡ s')
require-goes true x s s' u e = (refl, cc)
require-goes false x s s' u e = absurd (cc)

pub is_401 : (n : ℕ) → (n == 401) ≡ true → n ≡ 401
is_401 n e = ground arith

module _ {S P : Type 0} (sign_request : SignRequest S P) (signer : Signer S) (chain_id : ℕ)
    (signer_address : Option Str) where
  -- What is signed is the request that was given, with the components that were asked for.
  pub signed_with-goes :
      {E : Type 0} (request : Outgoing P) (components : List Str) (s s' : S) (signed : Outgoing P)
      → signed_with sign_request signer chain_id signer_address {E = E} request components s
        ≡ (s', goes signed)
      → (eth_signer : EthHttpSigner S) × (t : S) × (create_erc8128_signer {E = E} signer chain_id
            signer_address s
          ≡ (t, goes eth_signer))
        × (sign_request request eth_signer components t ≡ (s', ok signed))
  unfolding signed_with
  signed_with-goes {E} request components s s' signed e =
      let (eth_signer, t, same, last) =
        >>=-goes (create_erc8128_signer signer chain_id signer_address) _ s e in
      (
        eth_signer,
        t,
        same,
        stateful-goes {E = E} (sign_request request eth_signer components) t s' signed last,
      )
