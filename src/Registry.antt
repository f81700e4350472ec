-- ===== src/Registry.antt =====
-- packages/siwa/src/registry.ts: `getAgent`, `getReputation` and `resolveURI`. The blockchain client
-- (viem), `fetch` and base64 decoding are parameters. The three reads that `getAgent` starts at once
-- are made in order here, so of several that fail the first in the list gives the message.
use siwa.Base.{
  ℕ, Bool, Option, none, some, if◌then◌else◌, Result, ok, throws, ◌>>=◌, String, ◌++◌, not,
}
use siwa.Base.Doubles.{Double, Doubles}
use siwa.Base.Int.{ℤ, pos, Number, nan, int}
use siwa.Base.Json.{Json}
use siwa.Base.Numbers.{show_nat}
use siwa.Base.Str.{Str, text, starts_with, str_eq, drop}
use siwa.Response.{AgentProfile}

-- A response of `fetch`; reading its body as JSON may throw.
pub record Response : Type 0 where
  pub is_ok : Bool
  pub status : ℕ
  pub json : Result Json

-- The calls of viem's PublicClient that the sources make, at one block.
pub record PublicClient : Type 0 where
  -- verifyMessage({ address, message, signature })
  pub verify_message : (address message signature : Str) → Result Bool
  -- getCode({ address })
  pub get_code : Str → Result (Option Str)
  -- readContract of the registry at the address: ownerOf, tokenURI, getAgentWallet
  pub owner_of : Str → ℤ → Result Str
  pub token_uri : Str → ℤ → Result Str
  pub get_agent_wallet : Str → ℤ → Result Str
  -- readContract of the reputation registry: getSummary(agentId, [], '', '')
  pub get_summary : Str → ℤ → Result (ℕ × ℤ × ℕ)
  -- fetch(url), and JSON.parse(Buffer.from(text, 'base64').toString('utf-8'))
  pub fetch : Str → Result Response
  pub decode_base64 : Str → Result Json

-- BigInt(n)
unfoldable pub big_int : Number → Result ℤ
unfolding text
big_int nan =
    throws (text "The number NaN cannot be converted to a BigInt because it is not an integer")
big_int (int z) = ok z

zero_address : Str
unfolding text
zero_address = text "0x0000000000000000000000000000000000000000"

body_of : String → Response → Result Json
unfolding text show_nat
body_of label response =
    if not response.is_ok then throws (text label ++ show_nat response.status) else response.json

module _ (client : PublicClient) where
  resolve_uri : Str → Result Json
  unfolding body_of starts_with drop text
  resolve_uri uri =
      if starts_with uri (text "ipfs://")
      then (do
        response ← client.fetch (text "https://gateway.pinata.cloud/ipfs/" ++ drop 7 uri)
        body_of "IPFS fetch failed: " response)
      else if starts_with uri (text "data:application/json;base64,")
      then client.decode_base64 (drop 29 uri)
      else if starts_with uri (text "http://")
      then (do response ← client.fetch uri; body_of "HTTP fetch failed: " response)
      else if starts_with uri (text "https://")
      then (do response ← client.fetch uri; body_of "HTTP fetch failed: " response)
      else throws (text "Unsupported URI scheme: " ++ uri)

  fetched : Result Json → Option Json
  fetched (ok v) = some v
  fetched (throws e) = none

  -- getAgent with `fetchMetadata: true`
  unfoldable pub get_agent : Number → Str → Result AgentProfile
  unfolding big_int resolve_uri fetched zero_address str_eq
  get_agent agent_id registry_address = do
    id ← big_int agent_id
    owner ← client.owner_of registry_address id
    uri ← client.token_uri registry_address id
    wallet_addr ← client.get_agent_wallet registry_address id
    ok (record {
      agent_id = agent_id;
      owner = owner;
      uri = uri;
      agent_wallet = if str_eq wallet_addr zero_address then none else some wallet_addr;
      metadata = fetched (resolve_uri uri);
    })

pub record ReputationSummary : Type 0 where
  pub count : Double
  pub score : Double
  pub raw_value : ℤ
  pub decimals : ℕ

unfoldable pub get_reputation : Doubles → PublicClient → Number → Str → Result ReputationSummary
unfolding big_int
get_reputation d client agent_id registry_address = do
  id ← big_int agent_id
  (count, value, decimals) ← client.get_summary registry_address id
  ok (record {
    count = d.number (pos count);
    score = d.divide (d.number value) (d.power_of_10 decimals);
    raw_value = value;
    decimals = decimals;
  })
