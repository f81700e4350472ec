-- ===== src/Resolver/Cached.antt =====
-- The cache of clients is not observable.
use siwa.Base.{
  ℕ, not, some, List, [], ◌∷◌, ◌==◌, if◌then◌else◌, Result, ok, throws, ◌>>=◌, ◌≡◌, refl, arith,
  map, ap, ap₂, subst, Option-cases, Bool-cases, inl, inr,
}
use siwa.Base.Str.{Str}
use siwa.Resolver.{
  Platform, ClientResolverOptions, is_allowed, resolve_rpc_url, not_allowed, cached, fill,
  client_of, get_client,
}

module _ {Client : Type 0} (platform : Platform Client) (options : ClientResolverOptions) where
  -- A client made anew at each call.
  unfoldable pub fresh_client : ℕ → Result Client
  fresh_client chain_id =
      if not (is_allowed options.allowed_chain_ids chain_id)
      then throws (not_allowed platform options chain_id)
      else (do
        url ← resolve_rpc_url platform options chain_id
        ok (platform.create_public_client url))

  -- The results of a sequence of calls on one resolver.
  unfoldable pub get_clients : List ℕ → List (ℕ × Client) → List (Result Client)
  get_clients [] cache = []
  get_clients (id ∷ ids) cache =
      let (cache', client) = get_client platform options id cache in client ∷ get_clients ids cache'

  -- Every client of the cache is the one of its chain's URL.
  abbrev IsCache : List (ℕ × Client) → Type 0
  IsCache cache =
      (id : ℕ) (client : Client)
      → cached platform options id cache ≡ some client
      → (url : Str) × (resolve_rpc_url platform options id ≡ ok url)
        × (client ≡ platform.create_public_client url)

  filled-IsCache :
      (id : ℕ) (url : Str) (cache : List (ℕ × Client))
      → resolve_rpc_url platform options id ≡ ok url
      → IsCache cache
      → IsCache ((id, platform.create_public_client url) ∷ cache)
  unfolding cached
  filled-IsCache id url cache e h id' client found = elim (Bool-cases (id == id')) [
    | inl same ↦
        let same_id : id ≡ id' = ground arith in
        (url, subst (λ k. resolve_rpc_url platform options k ≡ ok url) same_id e, ground arith)
    | inr other ↦ h id' client (ground arith)
  ]

  fill-fresh :
      (id : ℕ) (cache : List (ℕ × Client)) (url : Result Str)
      → resolve_rpc_url platform options id ≡ url
      → IsCache cache
      → let (cache', client) = fill platform options id cache url in
        (client ≡ (do u ← url; ok (platform.create_public_client u))) × IsCache cache'
  unfolding fill
  fill-fresh id cache (throws e) same h = (refl, h)
  fill-fresh id cache (ok url) same h = (refl, filled-IsCache id url cache same h)

  get_client-fresh :
      (id : ℕ) (cache : List (ℕ × Client))
      → IsCache cache
      → let (cache', client) = get_client platform options id cache in
        (client ≡ fresh_client id) × IsCache cache'
  unfolding get_client fresh_client client_of
  get_client-fresh id cache h = elim (Bool-cases (is_allowed options.allowed_chain_ids id)) [
    | inr refused ↦ rw refused (refl, h)
    | inl allowed ↦ elim (Option-cases (cached platform options id cache)) [
      | inl missing ↦ rw allowed (rw missing (fill-fresh id cache _ refl h))
      | inr (client, found) ↦
          let (url, resolved, made) = h id client found in
          rw allowed (rw found (rw resolved (ap ok made, h)))
    ]
  ]

  get_clients-cache :
      (ids : List ℕ) (cache : List (ℕ × Client))
      → IsCache cache
      → get_clients ids cache ≡ map fresh_client ids
  unfolding get_clients
  get_clients-cache [] cache h = refl
  get_clients-cache (id ∷ ids) cache h =
      let (same, kept) = get_client-fresh id cache h in
      ap₂ (λ x xs. x ∷ xs) same (get_clients-cache ids _ kept)

  nothing-IsCache : IsCache []
  unfolding cached
  nothing-IsCache id client found = absurd (cc)

  -- A resolver answers every sequence of calls as if it made each client anew: the cache changes no
  -- result, neither a client nor an error.
  pub get_clients-fresh : (ids : List ℕ) → get_clients ids [] ≡ map fresh_client ids
  get_clients-fresh ids = get_clients-cache ids [] nothing-IsCache
