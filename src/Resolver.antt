-- ===== src/Resolver.antt =====
-- packages/siwa/src/client-resolver.ts. viem's `createPublicClient` is a parameter, and the environment is
-- one that does not change; a chain id is a number without sign.
pub mod Cached
pub mod Listed
use siwa.Base.{
  ℕ, ◌&&◌, ◌||◌, Bool, true, false, not, Option, none, some, List, [], ◌∷◌, ◌++◌, ◌==◌,
  if◌then◌else◌, Result, ok, throws, ◌>>=◌, map, String, any, or_else, length, get_elem?,
}
use siwa.Base.Int.{Number, nan, int}
use siwa.Base.Numbers.{show_nat, parse_int_10}
use siwa.Base.Str.{Str, text, str_eq, split, join}
use siwa.Addresses.{Chains, find, keys, rpc_endpoints, chain_names}
use siwa.Erc8128.{given_header, or_else_text}

-- The parts of an `eip155:{chainId}:{address}`, with the chain.
finite : Number → Option Number
finite nan = none
finite (int z) = some (int z)

chain_part : List Str → Option Number
unfolding text str_eq parse_int_10 finite
chain_part (namespace ∷ chain ∷ address ∷ []) =
    if not (str_eq namespace (text "eip155")) then none else finite (parse_int_10 chain)
chain_part parts = none

unfoldable pub parse_chain_id : Str → Option Number
unfolding split chain_part
parse_chain_id agent_registry = chain_part (split b':' agent_registry)

-- The overrides in the order of `Object.keys`.
pub record ClientResolverOptions : Type 0 where
  pub rpc_overrides : Chains
  pub allowed_chain_ids : Option (List ℕ)

pub record Platform (Client : Type 0) : Type 0 where
  -- process.env[name]
  pub env : Str → Option Str
  -- createPublicClient({ transport: http(url) })
  pub create_public_client : Str → Client

abbrev pub member : ℕ → List ℕ → Bool
member id ids = any (λ k. k == id) ids

-- [...new Set(ids)], in the order of their first appearance
unfoldable pub distinct : List ℕ → List ℕ → List ℕ
distinct seen [] = []
distinct seen (id ∷ ids) =
    let rest = distinct (id ∷ seen) ids in
    let skipped = distinct seen ids in if member id seen then skipped else id ∷ rest

unfoldable pub filter : (ℕ → Bool) → List ℕ → List ℕ
filter p [] = []
filter p (id ∷ ids) = let rest = filter p ids in if p id then id ∷ rest else rest

-- `${id} (${CHAIN_NAMES[id] || 'unknown'})`
unfoldable pub named : ℕ → Str
unfolding text show_nat find chain_names
named id =
    show_nat id
    ++ (text " (" ++ (or_else (given_header (find id chain_names)) (text "unknown") ++ text ")"))

abbrev pub is_allowed : Option (List ℕ) → ℕ → Bool
is_allowed none id = true
is_allowed (some ids) id = member id ids

module _ (options : ClientResolverOptions) where
  unfoldable pub get_supported_chain_ids : List ℕ
  unfolding distinct filter
  get_supported_chain_ids =
      filter (is_allowed options.allowed_chain_ids)
        (distinct [] (keys options.rpc_overrides ++ keys rpc_endpoints))

module _ {Client : Type 0} (platform : Platform Client) (options : ClientResolverOptions) where
  -- The override, the variable RPC_URL_{chainId} and the built-in endpoint, without the empty ones.
  unfoldable pub rpc_url_of : ℕ → Option Str
  unfolding text show_nat
  rpc_url_of chain_id = given_header (
      or_else_text (find chain_id options.rpc_overrides) (
        or_else_text (platform.env (text "RPC_URL_" ++ show_nat chain_id))
          (find chain_id rpc_endpoints)))

  unfoldable pub url_or_error : ℕ → Option Str → Result Str
  unfolding text show_nat join named get_supported_chain_ids
  url_or_error chain_id (some url) = ok url
  url_or_error chain_id none = throws (
      text "No RPC endpoint for chain "
      ++ (show_nat chain_id
          ++ (text ". Supported chains: "
              ++ (join (text ", ") (map named (get_supported_chain_ids options))
                  ++ (text ". Set RPC_URL_"
                      ++ (show_nat chain_id
                          ++ text " or pass rpcOverrides to createClientResolver()."))))))

  unfoldable pub resolve_rpc_url : ℕ → Result Str
  unfolding rpc_url_of url_or_error
  resolve_rpc_url chain_id = url_or_error chain_id (rpc_url_of chain_id)

  unfoldable pub not_allowed : ℕ → Str
  unfolding text show_nat join named distinct
  not_allowed chain_id =
      text "Chain "
      ++ (show_nat chain_id
          ++ (text " is not in the allowed list. Allowed: "
              ++ join (text ", ") (map named (distinct [] (or_else options.allowed_chain_ids [])))))

  -- The cache, with the client of each chain that was asked for.
  unfoldable pub cached : ℕ → List (ℕ × Client) → Option Client
  cached chain_id [] = none
  cached chain_id ((k, client) ∷ cache) =
      let rest = cached chain_id cache in if k == chain_id then some client else rest

  unfoldable pub fill : ℕ → List (ℕ × Client) → Result Str → List (ℕ × Client) × Result Client
  fill chain_id cache (throws e) = (cache, throws e)
  fill chain_id cache (ok url) =
      let client = platform.create_public_client url in ((chain_id, client) ∷ cache, ok client)

  unfoldable pub client_of :
      ℕ → List (ℕ × Client) → Option Client → List (ℕ × Client) × Result Client
  unfolding resolve_rpc_url fill
  client_of chain_id cache (some client) = (cache, ok client)
  client_of chain_id cache none = fill chain_id cache (resolve_rpc_url chain_id)

  unfoldable pub get_client : ℕ → List (ℕ × Client) → List (ℕ × Client) × Result Client
  unfolding client_of cached not_allowed
  get_client chain_id cache =
      if not (is_allowed options.allowed_chain_ids chain_id)
      then (cache, throws (not_allowed chain_id))
      else client_of chain_id cache (cached chain_id cache)

  returned : Result Str → Bool
  returned (ok url) = true
  returned (throws e) = false

  unfoldable pub is_supported : ℕ → Bool
  unfolding resolve_rpc_url returned
  is_supported chain_id =
      is_allowed options.allowed_chain_ids chain_id && returned (resolve_rpc_url chain_id)
