-- ===== src/Base/Maps.antt =====
-- Maps and sets with keys in order: Rust's `BTreeMap`, and the map and set views, whose keys stand by
-- their serialized bytes. A map is the list of its entries; a set is a map to the unit type.
pub mod Laws
pub mod Unique
pub mod Ascending
use linera_protocol.Prelude.{
  ℕ, ltb, Bool, true, false, List, [], ◌∷◌, Option, none, some, ℕ_discrete,
}

-- The equality and the order of the keys.
pub record Key (K : Type 0) : Type 0 where
  pub same : Discrete K
  pub before : K → K → Bool

abbrev pub nat_key : Key ℕ
nat_key = record { same = ℕ_discrete; before = ltb }

abbrev pub Entries : Type 0 → Type 0 → Type 0
Entries K V = List (K × V)

abbrev pub default : ℕ → Option ℕ → ℕ
default d none = d
default d (some n) = n

abbrev pub is_found : {V : Type 0} → Option V → Bool
is_found none = false
is_found (some _) = true

module _ {K V : Type 0} (key : Key K) where
  -- `get`.
  unfoldable pub find : K → Entries K V → Option V
  find k [] = none
  find k ((k', v) ∷ rest) =
      let later = find k rest in elim (key.same k' k) [ yes _ ↦ some v | no _ ↦ later ]

  -- `contains_key`.
  unfoldable pub has : K → Entries K V → Bool
  has k m = is_found (find k m)

  abbrev pub replace : K → V → Entries K V → Entries K V
  replace k v [] = []
  replace k v ((k', v') ∷ rest) =
      let later = replace k v rest in
      elim (key.same k' k) [ yes _ ↦ (k, v) ∷ rest | no _ ↦ (k', v') ∷ later ]

  abbrev pub place : K → V → Entries K V → Entries K V
  place k v [] = (k, v) ∷ []
  place k v ((k', v') ∷ rest) =
      let later = place k v rest in
      elim (key.before k k') [ true ↦ (k, v) ∷ (k', v') ∷ rest | false ↦ (k', v') ∷ later ]

  abbrev put_over : Option V → K → V → Entries K V → Entries K V
  put_over none k v m = place k v m
  put_over (some _) k v m = replace k v m

  -- `insert`: the key's entry is replaced, or a new one is put in its place in the order.
  unfoldable pub put : K → V → Entries K V → Entries K V
  put k v m = put_over (find k m) k v m

  -- `remove`.
  unfoldable pub delete : K → Entries K V → Entries K V
  delete k [] = []
  delete k ((k', v) ∷ rest) =
      let later = delete k rest in elim (key.same k' k) [ yes _ ↦ later | no _ ↦ (k', v) ∷ later ]

module _ {K : Type 0} (key : Key K) where
  -- `contains`, of a set that is kept as the list of its elements.
  unfoldable pub member : K → List K → Bool
  member k [] = false
  member k (k' ∷ rest) =
      let later = member k rest in elim (key.same k' k) [ yes _ ↦ true | no _ ↦ later ]
