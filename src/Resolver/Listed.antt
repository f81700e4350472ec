-- ===== src/Resolver/Listed.antt =====
-- The chains that a resolver lists, and those that it supports.
use siwa.Base.{
  ℕ, Bool, true, false, ◌||◌, none, some, List, [], ◌∷◌, ◌++◌, ok, ◌≡◌, refl, arith, ap₂, ◌∙◌,
}
use siwa.Base.Numbers.{show_nat}
use siwa.Base.Str.{Str, text}
use siwa.Addresses.{Chains, find, keys, rpc_endpoints}
use siwa.Erc8128.{given_header}
use siwa.Resolver.{
  Platform, ClientResolverOptions, is_allowed, rpc_url_of, url_or_error, resolve_rpc_url,
  get_supported_chain_ids, distinct, filter, member, is_supported, returned,
}

member-append : (id : ℕ) (xs ys : List ℕ) → member id (xs ++ ys) ≡ (member id xs || member id ys)
member-append id [] ys = refl
member-append id (x ∷ xs) ys = ground (arith, member-append id xs ys)

member-distinct-false :
    (id : ℕ) (seen ids : List ℕ) → member id ids ≡ false → member id (distinct seen ids) ≡ false
unfolding distinct
member-distinct-false id seen [] h = refl
member-distinct-false id seen (k ∷ ids) h =
    ground (arith, member-distinct-false id seen ids, member-distinct-false id (k ∷ seen) ids)

member-filter-false :
    (id : ℕ) (p : ℕ → Bool) (ids : List ℕ)
    → member id ids ≡ false
    → member id (filter p ids) ≡ false
unfolding filter
member-filter-false id p [] h = refl
member-filter-false id p (k ∷ ids) h = ground (arith, member-filter-false id p ids)

member-keys : (id : ℕ) (rows : Chains) → find id rows ≡ none → member id (keys rows) ≡ false
unfolding find
member-keys id [] h = refl
member-keys id ((k, v) ∷ rows) h = ground (arith, member-keys id rows)

module _ {Client : Type 0} (platform : Platform Client) (options : ClientResolverOptions) where
  resolve_rpc_url-env :
      (id c : ℕ) (url : Str)
      → find id options.rpc_overrides ≡ none
      → platform.env (text "RPC_URL_" ++ show_nat id) ≡ some (c ∷ url)
      → resolve_rpc_url platform options id ≡ ok (c ∷ url)
  unfolding resolve_rpc_url rpc_url_of url_or_error given_header
  resolve_rpc_url-env id c url override variable = rw override (rw variable refl)

  resolved-is_supported :
      (id : ℕ) (url : Str)
      → is_allowed options.allowed_chain_ids id ≡ true
      → resolve_rpc_url platform options id ≡ ok url
      → is_supported platform options id ≡ true
  unfolding is_supported returned
  resolved-is_supported id url allowed resolved = rw allowed (rw resolved refl)

  unlisted :
      (id : ℕ)
      → find id options.rpc_overrides ≡ none
      → find id rpc_endpoints ≡ none
      → member id (get_supported_chain_ids options) ≡ false
  unfolding get_supported_chain_ids
  unlisted id override built_in =
      let chains : List ℕ = keys options.rpc_overrides ++ keys rpc_endpoints in
      let absent : member id chains ≡ false =
        member-append id (keys options.rpc_overrides) (keys rpc_endpoints)
        ∙ ap₂ (λ a b. a || b) (member-keys id options.rpc_overrides override)
            (member-keys id rpc_endpoints built_in) in
      member-filter-false id (is_allowed options.allowed_chain_ids) (distinct [] chains)
        (member-distinct-false id [] chains absent)

  -- A chain whose endpoint is given by the environment alone is supported and resolved, but is not in the
  -- list of the supported chains.
  pub is_supported-unlisted :
      (id c : ℕ) (url : Str)
      → find id options.rpc_overrides ≡ none
      → find id rpc_endpoints ≡ none
      → platform.env (text "RPC_URL_" ++ show_nat id) ≡ some (c ∷ url)
      → is_allowed options.allowed_chain_ids id ≡ true
      → (is_supported platform options id ≡ true)
        × (resolve_rpc_url platform options id ≡ ok (c ∷ url))
        × (member id (get_supported_chain_ids options) ≡ false)
  is_supported-unlisted id c url override built_in variable allowed =
      let resolved = resolve_rpc_url-env id c url override variable in
      (resolved-is_supported id (c ∷ url) allowed resolved, resolved, unlisted id override built_in)
