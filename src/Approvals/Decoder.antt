-- ===== src/Approvals/Decoder.antt =====
-- packages/2fa-telegram/src/transaction-decoder.ts: what is shown of the fields of a transaction. viem's
-- formatting, `BigInt`, `parseFloat` and the look-up of a selector are parameters.
use siwa.Base.{
  ℕ, zero, suc, ◌-◌, Option, none, some, List, [], ◌∷◌, ◌++◌, if◌then◌else◌, ltb, length, or_else,
  Result, ok, throws,
}
use siwa.Base.Int.{ℤ}
use siwa.Base.JsMap.{JsMap, get, set}
use siwa.Base.Numbers.{show_nat}
use siwa.Base.Str.{Str, text, str_eq, drop}
use siwa.Addresses.{Chains, find}
use siwa.Erc8128.{given_header}

-- s.slice(0, n)
unfoldable pub take : ℕ → Str → Str
take zero s = []
take (suc n) [] = []
take (suc n) (c ∷ s) = c ∷ take n s

-- s.slice(-n)
unfoldable pub last_units : ℕ → Str → Str
unfolding drop
last_units n s = drop (length s - n) s

pub record Formatting : Type 0 where
  pub to_lower : Str → Str
  pub big_int : Str → Result ℤ
  -- parseFloat(formatEther(wei)).toString(), and parseFloat(formatUnits(wei, 9)).toFixed(2)
  pub ether : ℤ → Str
  pub gwei : ℤ → Str

unfoldable pub known_chains : Chains
unfolding text
known_chains =
    (1, text "Ethereum Mainnet")
    ∷ (8453, text "Base")
    ∷ (59141, text "Linea Sepolia")
    ∷ (80002, text "Polygon Amoy")
    ∷ (84532, text "Base Sepolia")
    ∷ (11155111, text "Sepolia")
    ∷ []

unfoldable pub get_chain_name : ℕ → Str
unfolding text show_nat find known_chains
get_chain_name chain_id =
    or_else (given_header (find chain_id known_chains)) (text "Chain " ++ show_nat chain_id)

unfoldable pub truncate_address : Str → Str
unfolding text take last_units
truncate_address [] = text "Unknown"
truncate_address (c ∷ s) =
    if ltb (length (c ∷ s)) 10
    then c ∷ s
    else take 6 (c ∷ s) ++ (text "..." ++ last_units 4 (c ∷ s))

module _ (f : Formatting) where
  caught_value : Str → Result ℤ → Str
  unfolding text
  caught_value value (ok wei) = f.ether wei ++ text " ETH"
  caught_value value (throws e) = value

  unfoldable pub format_value : Option Str → Str
  unfolding text str_eq caught_value
  format_value none = text "0 ETH"
  format_value (some []) = text "0 ETH"
  format_value (some (c ∷ s)) =
      if str_eq (c ∷ s) (text "0") then text "0 ETH" else caught_value (c ∷ s) (f.big_int (c ∷ s))

  caught_gas : Str → Result ℤ → Str
  unfolding text
  caught_gas gas (ok wei) = f.gwei wei ++ text " Gwei"
  caught_gas gas (throws e) = gas

  unfoldable pub format_gas : Option Str → Str
  unfolding text caught_gas
  format_gas none = text "Not specified"
  format_gas (some []) = text "Not specified"
  format_gas (some (c ∷ s)) = caught_gas (c ∷ s) (f.big_int (c ∷ s))

-- The cache of signatures by selector.
abbrev pub Signatures : Type 0
Signatures = JsMap Str

-- The signatures that 4byte.directory has for a selector; the request may fail.
abbrev pub Lookup : Type 0
Lookup = Str → Result (List Str)

unfoldable pub raw_data : Str → Str
unfolding text take
raw_data call_data =
    text "Raw: "
    ++ (if ltb 66 (length call_data) then take 66 call_data ++ text "..." else call_data)

unfoldable pub looked_up :
    (call_data selector : Str) → Signatures → Result (List Str) → Signatures × Str
unfolding raw_data
looked_up call_data selector cache (ok (signature ∷ more)) =
    (set selector signature cache, signature)
looked_up call_data selector cache failed = (cache, raw_data call_data)

unfoldable pub decode_selector :
    Lookup → (call_data selector : Str) → Signatures → Option Str → Signatures × Str
unfolding looked_up
decode_selector lookup call_data selector cache (some signature) = (cache, signature)
decode_selector lookup call_data selector cache none =
    looked_up call_data selector cache (lookup selector)

unfoldable pub decode_transaction_data :
    Formatting → Lookup → Option Str → Signatures → Signatures × Str
unfolding text str_eq take decode_selector
decode_transaction_data f lookup none cache = (cache, text "No data")
decode_transaction_data f lookup (some call_data) cache =
    let selector = f.to_lower (take 10 call_data) in
    let decoded = decode_selector lookup call_data selector cache (get selector cache) in
    if ltb (length call_data) 10 then (cache, text "No data") else decoded
