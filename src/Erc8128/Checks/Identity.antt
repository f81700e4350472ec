-- ===== src/Erc8128/Checks/Identity.antt =====
-- What the checks of the receipt, the signer and the owner let through.
use siwa.Base.{
  ℕ, Bool, true, false, Option, none, some, ok, ◌≡◌, ◌⊎◌, refl, arith, ap, ◌∙◌, inl, inr, String,
  Option-cases, Result-cases,
}
use siwa.Base.Int.{ℤ}
use siwa.Base.Json.{Json, str, get}
use siwa.Base.Str.{Str}
use siwa.Base.Str.Laws.{eq_of_str_eq}
use siwa.Receipt.{verify_receipt}
use siwa.Registry.{PublicClient}
use siwa.Runtime.{Runtime}
use siwa.Verify.{registry_address}
use siwa.Erc8128.{
  Request, verified, Rejection, VerifyOptions, Libraries, type_allowed, text_of, given_header,
  id_of,
}
use siwa.Erc8128.Checks.{
  received, valid_receipt, read_receipt, check_type, verifier, signed_by, check_request,
  check_address, client_for, registry_at, owner_found, owner_read, check_onchain,
}
use siwa.Captcha.Packing.{truthy_payload-some}
use siwa.Erc8128.Steps.{goes, >>=-goes, lift}

module _ (r : Runtime) {S : Type 0} (lib : Libraries S) (options : VerifyOptions S) where
  -- The client that the caller gave, or without one the client for the caller's URL.
  abbrev pub IsClient : PublicClient → Type 0
  IsClient client =
      (options.public_client ≡ some client)
      ⊎ ((options.public_client ≡ none)
          × (url : Str) × (given_header options.rpc_url ≡ some url)
          × (client ≡ lib.connect url))

  -- The owner of the receipt's agent, at its registry and read by the options' client, is the receipt's
  -- address.
  pub record IsOwner (receipt : Json) (address : Str) : Type 0 where
    pub client : PublicClient
    pub chosen : IsClient client
    pub registry_text : Str
    pub registry : Str
    pub id : ℤ
    pub owner : Str
    pub named : get receipt "agentRegistry" ≡ some (str registry_text)
    pub known : registry_address registry_text ≡ some registry
    pub numbered : id_of r (get receipt "agentId") ≡ ok id
    pub owned : client.owner_of registry id ≡ ok owner
    pub same_owner : r.to_lower owner ≡ r.to_lower address

  pub read_receipt-goes :
      (now : ℕ) (request : Request) (s : S) {s' : S} {receipt : Json}
      → read_receipt r lib options now request s ≡ (s', goes receipt)
      → (token : Str) × (given_header request.receipt ≡ some token)
        × (verify_receipt r now token options.receipt_secret ≡ ok (some receipt))
        × (s ≡ s')
  unfolding read_receipt received valid_receipt
  read_receipt-goes now request s {receipt} e = elim (Option-cases (given_header request.receipt)) [
    | inl missing ↦ absurd (ground arith)
    | inr (token, given) ↦ elim (Result-cases (verify_receipt r now token options.receipt_secret)) [
      | inl (o, read) ↦
          (token, given, read ∙ ap ok (truthy_payload-some o receipt (ground arith)), ground arith)
      | inr (m, thrown) ↦ absurd (ground arith)
    ]
  ]

  pub check_type-goes :
      (receipt : Json) (s : S) {s' : S} {u : Unit {0}}
      → check_type r lib options receipt s ≡ (s', goes u)
      → (type_allowed options.allowed_signer_types (get receipt "signerType") ≡ true) × (s ≡ s')
  unfolding check_type
  check_type-goes receipt s e = ground arith

  pub check_request-goes :
      (request : Request) (s : S) {s' : S} {signer : Str}
      → check_request r lib options request s ≡ (s', goes signer)
      → lib.verify_request request (verifier r lib options options.public_client) s
        ≡ (s', ok (verified signer))
  unfolding check_request signed_by
  check_request-goes request s e = ground arith

  pub check_address-goes :
      (receipt : Json) (signer : Str) (s : S) {s' : S} {address : Str}
      → check_address r lib options receipt signer s ≡ (s', goes address)
      → (get receipt "address" ≡ some (str address))
        × (r.to_lower signer ≡ r.to_lower address)
        × (s ≡ s')
  unfolding check_address text_of
  check_address-goes receipt signer s {s'} {address} e = (
    ground arith,
    eq_of_str_eq (r.to_lower signer) (r.to_lower address) (ground arith),
    ground arith,
  )

  text_of-goes :
      (method : String) (o : Option Json) (s : S) {s' : S} {t : Str}
      → lift {E = Rejection} (text_of method o) s ≡ (s', goes t)
      → (o ≡ some (str t)) × (s ≡ s')
  unfolding text_of
  text_of-goes method o s e = ground arith

  client_for-goes :
      (given : Option PublicClient) (url : Option Str) (s : S) {s' : S} {client : PublicClient}
      → options.public_client ≡ given
      → given_header options.rpc_url ≡ url
      → client_for r lib options given url s ≡ (s', goes client)
      → IsClient client × (s ≡ s')
  unfolding client_for
  client_for-goes (some c) url s same_client same_url e =
      (inl (same_client ∙ ground arith), ground arith)
  client_for-goes none none s same_client same_url e = absurd (cc)
  client_for-goes none (some url) s same_client same_url e =
      (inr (same_client, url, same_url, ground arith), ground arith)

  registry_at-goes :
      (o : Option Str) (s : S) {s' : S} {registry : Str}
      → registry_at r lib options o s ≡ (s', goes registry)
      → (o ≡ some registry) × (s ≡ s')
  unfolding registry_at
  registry_at-goes o s e = ground arith

  owner_found-goes :
      (client : PublicClient) (registry : Str) (receipt : Json) (address : Str) (s : S) {s' : S}
      {u : Unit {0}}
      → owner_found r lib options address
          (owner_read r lib options client registry (id_of r (get receipt "agentId")))
          s
        ≡ (s', goes u)
      → (id : ℤ) × (owner : Str) × (id_of r (get receipt "agentId") ≡ ok id)
        × (client.owner_of registry id ≡ ok owner)
        × (r.to_lower owner ≡ r.to_lower address)
        × (s ≡ s')
  unfolding owner_found owner_read
  owner_found-goes client registry receipt address s e =
      elim (Result-cases (id_of r (get receipt "agentId"))) [
        | inr (m, thrown) ↦ absurd (ground arith)
        | inl (id, numbered) ↦ elim (Result-cases (client.owner_of registry id)) [
          | inr (m, thrown) ↦ absurd (ground arith)
          | inl (owner, owned) ↦ (
            id,
            owner,
            numbered,
            owned,
            eq_of_str_eq (r.to_lower owner) (r.to_lower address) (ground arith),
            ground arith,
          )
        ]
      ]

  check_onchain-goes :
      (receipt : Json) (address : Str) (s : S) {s' : S} {u : Unit {0}}
      → check_onchain r lib options receipt address true s ≡ (s', goes u)
      → IsOwner receipt address × (s ≡ s')
  unfolding check_onchain
  check_onchain-goes receipt address s {s'} {u} e =
      let (client, t, chosen, e₁) =
        >>=-goes (client_for r lib options options.public_client (given_header options.rpc_url)) _ s
          e in
      let (registry_text, t₁, named, e₂) =
        >>=-goes (lift (text_of "split" (get receipt "agentRegistry"))) _ t e₁ in
      let (registry, t₂, known, e₃) =
        >>=-goes (registry_at r lib options (registry_address registry_text)) _ t₁ e₂ in
      let (id, owner, numbered, owned, same, last) =
        owner_found-goes client registry receipt address t₂ e₃ in
      let (is_client, first) =
        client_for-goes options.public_client (given_header options.rpc_url) s refl refl chosen in
      let (known', mid) = registry_at-goes (registry_address registry_text) t₁ known in
      let (named', low) = text_of-goes "split" (get receipt "agentRegistry") t named in
      (
        record {
          client = client;
          chosen = is_client;
          registry_text = registry_text;
          registry = registry;
          id = id;
          owner = owner;
          named = named';
          known = known';
          numbered = numbered;
          owned = owned;
          same_owner = same;
        },
        first ∙ low ∙ mid ∙ last,
      )

  pub onchain-goes :
      (b : Bool) (receipt : Json) (address : Str) (s : S) {s' : S} {u : Unit {0}}
      → check_onchain r lib options receipt address b s ≡ (s', goes u)
      → (b ≡ true → IsOwner receipt address) × (s ≡ s')
  unfolding check_onchain
  onchain-goes true receipt address s {s'} {u} e =
      let (owner, same) = check_onchain-goes receipt address s {s' = s'} {u = u} e in
      ((λ _. owner), same)
  onchain-goes false receipt address s e = ((λ on. absurd (cc)), ground arith)
