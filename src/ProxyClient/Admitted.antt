-- ===== src/ProxyClient/Admitted.antt =====
-- What the keyring proxy makes of a call.
use siwa.Base.{ℕ, ◌+◌, ◌≤◌, ◌≡◌, refl, ok, some, ◌++◌}
use siwa.Base.Str.{Str, text}
use siwa.Erc8128.{or_else_text, given_header}
use siwa.Keyring.Serialize.{Value}
use siwa.ProxyAuth.{Hashing, valid, verify_hmac, max_drift_ms}
use siwa.ProxyAuth.Window.{verify_hmac-compute_hmac}
use siwa.ProxyClient.{
  KeyringProxyConfig, ProxyCall, Network, answered, proxy_call, call_for, send, proxy_request,
  configured,
}

-- With a URL and a secret that are configured, `proxyRequest` makes one call, to the endpoint at that URL,
-- and gives what comes of its reply; a server that has the same secret and whose clock is within
-- the allowed drift accepts the call's HMAC for that endpoint and the call's body.
pub proxy_request-verified :
    {S : Type 0} (h : Hashing) (net : Network S) (env config : KeyringProxyConfig) (sent now : ℕ)
    (url secret endpoint : Str) (body : Value) (s : S)
    → given_header (or_else_text config.proxy_url env.proxy_url) ≡ some url
    → given_header (or_else_text config.proxy_secret env.proxy_secret) ≡ some secret
    → sent ≤ now + max_drift_ms
    → now ≤ sent + max_drift_ms
    → (call : ProxyCall) × (proxy_request h net env config sent endpoint body s
        ≡ answered endpoint (net.fetch call s))
      × (call.url ≡ url ++ endpoint)
      × (verify_hmac h now secret
            (text "POST")
            endpoint
            call.body
            call.headers.timestamp
            call.headers.signature
          ≡ ok valid)
unfolding proxy_request call_for send configured proxy_call
proxy_request-verified h net env config sent now url secret endpoint body s eu es early late =
    let call = proxy_call h net env config sent url secret endpoint body in
    (
      call,
      rw (eu, es) refl,
      refl,
      (verify_hmac-compute_hmac h sent now secret (text "POST") endpoint call.body).1 (early, late),
    )
