-- ===== src/Bridge/Chains.antt =====
-- The supported chains of AVS/pkg/config/config.go: the lookup, the test and the list of ids.
use sync_hook.Prelude.{
  ℕ, ◌≡◌, refl, List, [], ◌∷◌, Option, none, some, Bool, true, false, ◌||◌, nat_beq, arith,
}
use sync_hook.Bridge.{ChainConfig, get_chain_config, get_supported_chain_ids, is_chain_supported}

abbrev pub contains : ℕ → List ℕ → Bool
contains id [] = false
contains id (i ∷ ids) = nat_beq i id || contains id ids

-- What the lookup of `id` may give: a chain of that id if the id is listed, and an error if it is not.
abbrev pub Finds : ℕ → Bool → Option ChainConfig → Type 0
Finds id listed none = listed ≡ false
Finds id listed (some c) = (listed ≡ true) × (c.chain_id ≡ id)

-- `IsChainSupported` is true of exactly the ids that `GetSupportedChainIDs` lists, and `GetChainConfig`
-- finds a configuration for exactly those, and finds one of that id.
pub is_chain_supported-get_supported_chain_ids :
    (id : ℕ) (cs : List ChainConfig)
    → (is_chain_supported id cs ≡ contains id (get_supported_chain_ids cs))
      × Finds id (contains id (get_supported_chain_ids cs)) (get_chain_config id cs)
unfolding is_chain_supported get_chain_config get_supported_chain_ids
is_chain_supported-get_supported_chain_ids id [] = (refl, refl)
is_chain_supported-get_supported_chain_ids id (c ∷ cs) =
    ground (arith, is_chain_supported-get_supported_chain_ids id cs)
