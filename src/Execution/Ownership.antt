-- ===== src/Execution/Ownership.antt =====
-- linera-execution/src/ownership.rs: `ChainOwnership`. An owner's name is derived from its key by a
-- hash, which is an argument.
use linera_protocol.Prelude.{
  ℕ, ◌==◌, ltb, if◌then◌else◌, Bool, true, false, List, [], ◌∷◌, Option, none, some,
}
use linera_protocol.Base.Identifiers.{Owner, PublicKey, RoundNumber}
use linera_protocol.Execution.Messages.{ChainOwnership, inactive, single, multi}

abbrev pub OwnerMap : Type 0
OwnerMap = List (Owner × PublicKey × ℕ)

-- `BTreeMap::get`.
unfoldable pub key_of : Owner → OwnerMap → Option PublicKey
key_of owner [] = none
key_of owner ((other, key, _) ∷ rest) = if other == owner then some key else key_of owner rest

-- `BTreeMap::insert`.
insert_owner : Owner → PublicKey → ℕ → OwnerMap → OwnerMap
insert_owner owner key weight [] = (owner, key, weight) ∷ []
insert_owner owner key weight ((other, key', weight') ∷ rest) =
    let inserted = insert_owner owner key weight rest in
    if ltb owner other
    then (owner, key, weight) ∷ (other, key', weight') ∷ rest
    else if owner == other
    then (owner, key, weight) ∷ rest
    else (other, key', weight') ∷ inserted

module _ (owner_of : PublicKey → Owner) where
  -- `ChainOwnership::single`.
  unfoldable pub single_owner : PublicKey → ChainOwnership
  single_owner public_key = single (owner_of public_key) public_key

  -- The collection into a `BTreeMap`: a later entry of the same owner replaces an earlier one.
  collect_owners : List (PublicKey × ℕ) → OwnerMap → OwnerMap
  unfolding insert_owner
  collect_owners [] owners = owners
  collect_owners ((key, weight) ∷ rest) owners =
      collect_owners rest (insert_owner (owner_of key) key weight owners)

  -- `ChainOwnership::multiple`.
  unfoldable pub multiple : List (PublicKey × ℕ) → RoundNumber → ChainOwnership
  unfolding collect_owners
  multiple keys_and_weights multi_leader_rounds =
      multi (collect_owners keys_and_weights []) multi_leader_rounds

unfoldable pub is_active : ChainOwnership → Bool
is_active inactive = false
is_active _ = true

unfoldable pub verify_owner : ChainOwnership → Owner → Option PublicKey
unfolding key_of
verify_owner (single owner public_key) other = if owner == other then some public_key else none
verify_owner (multi public_keys multi_leader_rounds) other = key_of other public_keys
verify_owner inactive other = none
