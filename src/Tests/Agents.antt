-- ===== src/Tests/Agents.antt =====
-- A request that is sent again with the solution of a challenge, and a call of the keyring proxy.
use siwa.Base.{arith, ◌++◌, ◌+◌, ap, true, ◌≢◌, ◌≡◌, refl, ok, some, none, [], ◌∷◌, ℕ, Result}
use siwa.Base.Int.{pos}
use siwa.Base.Json
use siwa.Base.Json.{Json, bool, str, obj, field, end}
use siwa.Base.JsMap.{set}
use siwa.Base.Str.{Str, text, str_eq}
use siwa.Captcha.Submission.{unpack_captcha_response, packed_json}
use siwa.Erc8128.{given_header, or_else_text}
use siwa.Erc8128.Agent.{
  pack_token, Outgoing, Signer, Response, SignRequest, receipt_header, challenge_response_header,
  retry_with_captcha, lower, lower_unit, set_header,
}
use siwa.Erc8128.Agent.Retry.{IsRetry, retry_with_captcha_sound}
use siwa.Erc8128.Steps.{goes}
use siwa.Keyring.Serialize
use siwa.ProxyAuth.{Hashing, valid, verify_hmac}
use siwa.ProxyClient.{KeyringProxyConfig, ProxyCall, Network, proxy_request, answered}
use siwa.ProxyClient.Admitted.{proxy_request-verified}
use siwa.Runtime.{Runtime}
use siwa.Tests.Fixtures.{runtime}

abbrev machine : Runtime
machine = runtime (packed_json (text "e30.mac") (text "haiku") 2000)

abbrev sign_request : SignRequest ℕ ℕ
sign_request request signer components s =
    (s + 1, ok (record request { headers = (text "signature", text "sig1=::") ∷ request.headers }))

abbrev signer : Signer ℕ
signer = record {
  get_address = λ s. (s, ok (text "0x11"));
  sign_message = λ m s. (s, ok (text "0x22"));
  sign_raw_message = none;
}

abbrev body : Json
body = obj (
    field "captchaRequired" (bool true)
      (field "challenge" (str (text "haiku?")) (field "challengeToken" (str (text "e30.mac")) end)))

abbrev response : Response
response = record { status = 401; body = ok body }

abbrev request : Outgoing ℕ
request = record { parts = 0; headers = [] }

abbrev solver : Json → ℕ → ℕ × Result Str
solver challenge s = (s, ok (text "haiku"))

abbrev sent : Outgoing ℕ
sent = record {
  parts = 0;
  headers =
      (text "signature", text "sig1=::")
      ∷ (text "x-siwa-receipt", text "receipt")
      ∷ (text "x-siwa-challenge-response", text "e30")
      ∷ [];
}

retried :
    retry_with_captcha sign_request signer 8453 none machine 2000 solver response request
      (text "receipt")
      0
    ≡ (1, goes sent)
unfolding retry_with_captcha text Json.get Json.get_field set str_eq lower lower_unit set_header
    receipt_header challenge_response_header
retried = refl

solver-gives :
    (challenge : Json) (t t' : ℕ) (solution : Str)
    → solver challenge t ≡ (t', ok solution)
    → (solution ≢ [])
      × (machine.decode (machine.encode (packed_json (text "e30.mac") solution 2000))
          ≡ ok (packed_json (text "e30.mac") solution 2000))
unfolding text
solver-gives challenge t t' solution e =
    let same : text "haiku" ≡ solution = cc in
    (λ empty. absurd (cc), ap (λ v. ok (packed_json (text "e30.mac") v 2000)) same)

token_in : Json.get body "challengeToken" ≡ some (str (text "e30.mac"))
unfolding Json.get Json.get_field
token_in = refl

token_given : text "e30.mac" ≢ []
unfolding text
token_given e = cc

retry_with_captcha_sound_example :
    (response.status ≡ 401)
    × (challenge : Json) × (Json.get body "challenge" ≡ some challenge)
    × (retry : IsRetry sign_request signer 8453 none machine 2000 solver request
        (text "receipt")
        challenge
        (str (text "e30.mac"))
        0
        1
        sent)
    × (unpack_captcha_response machine
          (pack_token machine 2000 (str (text "e30.mac")) retry.solution)
        ≡ some (str (text "e30.mac"), str retry.solution, pos 2000))
retry_with_captcha_sound_example =
    retry_with_captcha_sound sign_request signer 8453 none machine 2000 solver response request
      (text "receipt") body (text "e30.mac") 0 1 sent refl token_in token_given solver-gives retried

abbrev hashing : Hashing
hashing = record { hmac_hex = λ secret t. text "00ff"; to_upper = λ s. s }

abbrev net : Network ℕ
net = record {
  stringify = λ v. text "{}";
  to_string_16 = λ z. text "0";
  fetch = λ call s. (
    s + 1,
    ok (record { is_ok = true; status = 200; body_text = ok (text "{}"); body_json = ok body }),
  );
}

abbrev env : KeyringProxyConfig
env = record { proxy_url = some (text "http://proxy"); proxy_secret = some (text "s") }

abbrev config : KeyringProxyConfig
config = record { proxy_url = none; proxy_secret = none }

url_given : given_header (or_else_text config.proxy_url env.proxy_url) ≡ some (text "http://proxy")
unfolding given_header text
url_given = refl

secret_given : given_header (or_else_text config.proxy_secret env.proxy_secret) ≡ some (text "s")
unfolding given_header text
secret_given = refl

proxy_request-verified_example :
    (call : ProxyCall) × (proxy_request hashing net env config 1000
        (text "/get-address")
        (Serialize.obj Serialize.end)
        0
      ≡ answered (text "/get-address") (net.fetch call 0))
    × (call.url ≡ text "http://proxy" ++ text "/get-address")
    × (verify_hmac hashing 2000
          (text "s")
          (text "POST")
          (text "/get-address")
          call.body
          call.headers.timestamp
          call.headers.signature
        ≡ ok valid)
proxy_request-verified_example =
    proxy_request-verified hashing net env config 1000 2000 (text "http://proxy") (text "s")
      (text "/get-address") (Serialize.obj Serialize.end) 0 url_given secret_given (omega arith)
      (omega arith)
