-- ===== src/Addresses.antt =====
-- packages/siwa/src/addresses.ts: the tables by chain, in the order that `Object.keys` gives them, and the
-- two helpers.
use siwa.Base.{
  ℕ, Option, none, some, List, [], ◌∷◌, ◌++◌, ◌==◌, if◌then◌else◌, Result, ok, throws, map,
}
use siwa.Base.Numbers.{show_nat}
use siwa.Base.Str.{Str, text, join}

abbrev pub Chains : Type 0
Chains = List (ℕ × Str)

-- record[key]
unfoldable pub find : ℕ → Chains → Option Str
find id [] = none
find id ((k, v) ∷ rows) = let rest = find id rows in if k == id then some v else rest

abbrev pub keys : Chains → List ℕ
keys [] = []
keys ((k, v) ∷ rows) = k ∷ keys rows

unfoldable pub registry_addresses : Chains
unfolding text
registry_addresses =
    (1, text "0x8004A169FB4a3325136EB29fA0ceB6D2e539a432")
    ∷ (8453, text "0x8004A169FB4a3325136EB29fA0ceB6D2e539a432")
    ∷ (59141, text "0x8004aa7C931bCE1233973a0C6A667f73F66282e7")
    ∷ (80002, text "0x8004ad19E14B9e0654f73353e8a0B600D46C2898")
    ∷ (84532, text "0x8004A818BFB912233c491871b3d84c89A494BD9e")
    ∷ (11155111, text "0x8004a6090Cd10A7288092483047B097295Fb8847")
    ∷ []

unfoldable pub rpc_endpoints : Chains
unfolding text
rpc_endpoints =
    (1, text "https://cloudflare-eth.com")
    ∷ (8453, text "https://mainnet.base.org")
    ∷ (59141, text "https://rpc.sepolia.linea.build")
    ∷ (80002, text "https://rpc-amoy.polygon.technology")
    ∷ (84532, text "https://sepolia.base.org")
    ∷ (11155111, text "https://rpc.sepolia.org")
    ∷ []

unfoldable pub chain_names : Chains
unfolding text
chain_names =
    (1, text "Ethereum")
    ∷ (8453, text "Base")
    ∷ (59141, text "Linea Sepolia")
    ∷ (80002, text "Polygon Amoy")
    ∷ (84532, text "Base Sepolia")
    ∷ (11155111, text "Ethereum Sepolia")
    ∷ []

found_registry : ℕ → Option Str → Result Str
unfolding text show_nat join registry_addresses
found_registry chain_id (some (c ∷ addr)) = ok (c ∷ addr)
found_registry chain_id addr = throws (
    text "No identity registry for chainId "
    ++ (show_nat chain_id
        ++ (text ". Supported: " ++ join (text ", ") (map show_nat (keys registry_addresses)))))

unfoldable pub get_registry_address : ℕ → Result Str
unfolding found_registry registry_addresses find
get_registry_address chain_id = found_registry chain_id (find chain_id registry_addresses)

registry_string : ℕ → Result Str → Result Str
unfolding text show_nat
registry_string chain_id (throws e) = throws e
registry_string chain_id (ok addr) = ok (text "eip155:" ++ (show_nat chain_id ++ (b':' ∷ addr)))

unfoldable pub get_agent_registry_string : ℕ → Result Str
unfolding get_registry_address registry_string
get_agent_registry_string chain_id = registry_string chain_id (get_registry_address chain_id)
