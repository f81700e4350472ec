-- ===== src/ProxyClient.antt =====
-- packages/siwa/src/signer/keyring-proxy.ts and packages/siwa/src/keystore.ts: the calls to the keyring
-- proxy, whose `proxyRequest` the two files share word for word. `fetch`, `JSON.stringify` and the digits
-- of a bigint are parameters; the clock is an argument.
pub mod Admitted
use siwa.Base.{
  ℕ, Bool, true, false, Option, none, some, ◌++◌, if◌then◌else◌, Result, ok, throws, ◌>>=◌, String,
}
use siwa.Base.Int.{ℤ}
use siwa.Base.Json
use siwa.Base.Json.{Json}
use siwa.Base.Numbers.{show_nat}
use siwa.Base.Str.{Str, text}
use siwa.Erc8128.{or_else_text, given_header}
use siwa.Keyring.Serialize.{
  Value, Values, Members, bigint, str, arr, obj, nil, cons, end, member, bool,
}
use siwa.ProxyAuth.{Hashing, HmacHeaders, compute_hmac}

pub record KeyringProxyConfig : Type 0 where
  pub proxy_url : Option Str
  pub proxy_secret : Option Str

-- A POST with the header `Content-Type: application/json`.
pub record ProxyCall : Type 0 where
  pub url : Str
  pub headers : HmacHeaders
  pub body : Str

-- A response: `ok`, its status, and what `text()` and `json()` give.
pub record ProxyReply : Type 0 where
  pub is_ok : Bool
  pub status : ℕ
  pub body_text : Result Str
  pub body_json : Result Json

pub record Network (S : Type 0) : Type 0 where
  -- JSON.stringify
  pub stringify : Value → Str
  -- z.toString(16)
  pub to_string_16 : ℤ → Str
  pub fetch : ProxyCall → S → S × Result ProxyReply

-- The replacer, at every depth.
unfoldable mutual
  unfolding text

  pub replace_big_int : (ℤ → Str) → Value → Value
  replace_big_int hex (bigint z) = str (text "0x" ++ hex z)
  replace_big_int hex (arr vs) = arr (replace_items hex vs)
  replace_big_int hex (obj ms) = obj (replace_members hex ms)
  replace_big_int hex v = v

  pub replace_items : (ℤ → Str) → Values → Values
  replace_items hex nil = nil
  replace_items hex (cons v vs) = cons (replace_big_int hex v) (replace_items hex vs)

  pub replace_members : (ℤ → Str) → Members → Members
  replace_members hex end = end
  replace_members hex (member k v ms) = member k (replace_big_int hex v) (replace_members hex ms)

-- A variable or a member of the configuration that has to be given.
unfoldable pub configured : (problem : String) → Option Str → Result Str
unfolding text
configured problem none = throws (text problem)
configured problem (some value) = ok value

unfoldable pub reply_json : (endpoint : Str) → ProxyReply → Result Json
unfolding text show_nat
reply_json endpoint res =
    let failed = res.body_text >>= λ t. throws (
      text "Proxy "
      ++ (endpoint ++ (text " failed (" ++ (show_nat res.status ++ (text "): " ++ t))))) in
    if res.is_ok then res.body_json else failed

module _ {S : Type 0} where
  unfoldable pub answered : (endpoint : Str) → S × Result ProxyReply → S × Result Json
  unfolding reply_json
  answered endpoint (s, throws e) = (s, throws e)
  answered endpoint (s, ok res) = (s, reply_json endpoint res)

  -- The parameters: hashing, the network, and the values of KEYRING_PROXY_URL and KEYRING_PROXY_SECRET.
  module _ (h : Hashing) (net : Network S) (env : KeyringProxyConfig) (config : KeyringProxyConfig)
      (now : ℕ) where
    unfoldable pub proxy_call : (url secret endpoint : Str) → Value → ProxyCall
    unfolding text replace_big_int compute_hmac
    proxy_call url secret endpoint body =
        let body_str = net.stringify (replace_big_int net.to_string_16 body) in
        record {
          url = url ++ endpoint;
          headers = compute_hmac h now secret (text "POST") endpoint body_str;
          body = body_str;
        }

    unfoldable pub call_for : (endpoint : Str) → Value → Result ProxyCall
    unfolding configured proxy_call
    call_for endpoint body = do
      url ←
          configured "Keyring proxy requires KEYRING_PROXY_URL or config.proxyUrl"
            (given_header (or_else_text config.proxy_url env.proxy_url))
      secret ←
          configured "Keyring proxy requires KEYRING_PROXY_SECRET or config.proxySecret"
            (given_header (or_else_text config.proxy_secret env.proxy_secret))
      ok (proxy_call url secret endpoint body)

    unfoldable pub send : (endpoint : Str) → Result ProxyCall → S → S × Result Json
    unfolding answered
    send endpoint (throws e) s = (s, throws e)
    send endpoint (ok call) s = answered endpoint (net.fetch call s)

    unfoldable pub proxy_request : (endpoint : Str) → Value → S → S × Result Json
    unfolding call_for send
    proxy_request endpoint body s = send endpoint (call_for endpoint body) s

    -- `data.k`, which throws on null
    unfoldable pub read_member : String → S × Result Json → S × Result (Option Json)
    unfolding text Json.get
    read_member k (s, throws e) = (s, throws e)
    read_member k (s, ok Json.null) =
        (s, throws (text "Cannot read properties of null (reading '" ++ (text k ++ text "')")))
    read_member k (s, ok json) = (s, ok (Json.get json k))

    unfoldable pub get_address : S → S × Result (Option Json)
    unfolding text proxy_request read_member
    get_address s = read_member "address" (proxy_request (text "/get-address") (obj end) s)

    unfoldable pub sign_message : Str → S → S × Result (Option Json)
    unfolding text proxy_request read_member
    sign_message message s =
        read_member "signature"
          (proxy_request (text "/sign-message") (obj (member (text "message") (str message) end)) s)

    unfoldable pub sign_raw_message : Str → S → S × Result (Option Json)
    unfolding text proxy_request read_member
    sign_raw_message raw_hex s = read_member "signature" (
        proxy_request (text "/sign-message")
          (obj (member (text "message") (str raw_hex) (member (text "raw") (bool true) end))) s)

    unfoldable pub sign_transaction : (tx : Value) → S → S × Result (Option Json)
    unfolding text proxy_request read_member
    sign_transaction tx s =
        read_member "signedTx"
          (proxy_request (text "/sign-transaction") (obj (member (text "tx") tx end)) s)

    unfoldable pub create_wallet : S → S × Result (Option Json)
    unfolding text proxy_request read_member
    create_wallet s = read_member "address" (proxy_request (text "/create-wallet") (obj end) s)

    unfoldable pub has_wallet : S → S × Result (Option Json)
    unfolding text proxy_request read_member
    has_wallet s = read_member "hasWallet" (proxy_request (text "/has-wallet") (obj end) s)

    unfoldable pub sign_authorization : (auth : Value) → S → S × Result Json
    unfolding text proxy_request
    sign_authorization auth s =
        proxy_request (text "/sign-authorization") (obj (member (text "auth") auth end)) s
