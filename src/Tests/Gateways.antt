-- ===== src/Tests/Gateways.antt =====
-- Calls of the gateway and of the client resolver.
use siwa.Base.{◌≤◌, ok, some, none, List, [], ◌∷◌, map, ◌≡◌, refl, arith, true, false}
use siwa.Base.Str.{Str, text}
use siwa.Addresses.{find, rpc_endpoints}
use siwa.Gateway.{rate_limit_max_requests}
use siwa.Gateway.Limit.{Call, count, run, run-count}
use siwa.Resolver.{
  ClientResolverOptions, Platform, is_supported, resolve_rpc_url, member, get_supported_chain_ids,
}
use siwa.Resolver.Cached.{fresh_client, get_clients, get_clients-fresh}
use siwa.Resolver.Listed.{is_supported-unlisted}

abbrev calls : List Call
calls = record { at = 5; ip = text "10.0.0.1" } ∷ record { at = 9; ip = text "10.0.0.1" } ∷ []

run-count_example : count 20 (run (text "10.0.0.1") calls [] []).1 ≤ rate_limit_max_requests
run-count_example =
    run-count (text "10.0.0.1") calls 9 20 (omega arith, (omega arith, omega arith)) (omega arith)

abbrev platform : Platform Str
platform = record {
  env = λ name. some (b'h' ∷ text "ttps://arb1.arbitrum.io/rpc");
  create_public_client = λ url. url;
}

abbrev options : ClientResolverOptions
options = record { rpc_overrides = []; allowed_chain_ids = none }

get_clients-fresh_example :
    get_clients platform options (1 ∷ 8453 ∷ 1 ∷ []) []
    ≡ map (fresh_client platform options) (1 ∷ 8453 ∷ 1 ∷ [])
get_clients-fresh_example = get_clients-fresh platform options (1 ∷ 8453 ∷ 1 ∷ [])

is_supported-unlisted_example :
    (is_supported platform options 42161 ≡ true)
    × (resolve_rpc_url platform options 42161 ≡ ok (b'h' ∷ text "ttps://arb1.arbitrum.io/rpc"))
    × (member 42161 (get_supported_chain_ids options) ≡ false)
unfolding find rpc_endpoints
is_supported-unlisted_example =
    is_supported-unlisted platform options 42161 b'h' (text "ttps://arb1.arbitrum.io/rpc") refl refl
      refl refl
