-- ===== src/Keyring/Endpoints/Shown.antt =====
-- What of a request the user does not see before it is signed.
use siwa.Base.{true, false, none, some, ok, ◌≡◌, refl, arith, Option, >>=-ok_inv}
use siwa.Base.Int.{pos}
use siwa.Base.Json.{Json, num, obj, Fields, field, get, get_field}
use siwa.Keyring.Values.{Coercions, truthy, truthy_json, nullish, parse_big_int}
use siwa.Keyring.Transactions.{
  ViemTx, viem_tx, fees_of, is_eip1559, transaction_payload, auth_request, shown_chain,
}

module _ (coerce : Coercions) where
  -- An access list in front of the fields of a transaction is signed with it, but neither the payload nor
  -- the chain that the user is shown changes.
  pub viem_tx-access_list :
      (fields : Fields) (list : Json) (transaction : ViemTx)
      → truthy_json list ≡ true
      → viem_tx coerce (obj fields) ≡ ok transaction
      → let tx = obj (field "accessList" list fields) in
        (viem_tx coerce tx ≡ ok (record transaction { access_list = some list }))
        × (transaction_payload tx ≡ transaction_payload (obj fields))
        × (shown_chain coerce (get tx "chainId") ≡ shown_chain coerce (get (obj fields) "chainId"))
  unfolding viem_tx fees_of is_eip1559 get get_field transaction_payload shown_chain
  viem_tx-access_list fields list transaction given e =
      let (value, ev, e₁) = >>=-ok_inv (parse_big_int coerce (get_field "value" fields)) _ e in
      let (gas, eg, e₂) =
        >>=-ok_inv
          (parse_big_int coerce (nullish (get_field "gasLimit" fields) (get_field "gas" fields))) _
          e₁ in
      let (fees, ef, e₃) = >>=-ok_inv (fees_of coerce (obj fields)) _ e₂ in
      (rw ev (rw eg (rw ef (rw given (ground arith)))), refl, refl)

  shown_chain-untruthy :
      (chain_id : Option Json) → truthy chain_id ≡ false → shown_chain coerce chain_id ≡ none
  unfolding shown_chain
  shown_chain-untruthy none e = refl
  shown_chain-untruthy (some v) e = rw e refl

  -- An authorization without a chain is signed for chain 1, and the user is shown none.
  pub auth_request-chain :
      (auth : Json)
      → truthy (get auth "chainId") ≡ false
      → ((auth_request auth).chain_id ≡ num (pos 1))
        × (shown_chain coerce (get auth "chainId") ≡ none)
  unfolding auth_request shown_chain
  auth_request-chain auth e = (rw e refl, shown_chain-untruthy (get auth "chainId") e)
