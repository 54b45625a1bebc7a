-- ===== src/HashRing.antt =====
-- src/collaboration/crypto/hashring.rs: the ring that assigns a URL to a device.
-- The standard library leaves the algorithm of `DefaultHasher` open, so both hashes are a parameter.
-- Proofs are in the modules below.
pub mod Nodes
pub mod Owner
pub mod Tests
use x_videos_dowloads.Prelude.{
  ℕ, ◌<◌, ◌≡◌, String, Bool, not, List, [], ◌∷◌, Option, none, some, ◌==◌, leb, find, retain,
  if◌then◌else◌, ltb, All,
}
use x_videos_dowloads.Types.{Device}

-- `hash_device` and `hash_url`.
pub record Hasher : Type 0 where
  pub hash_device : ℕ → ℕ
  pub hash_url : String → ℕ

-- A node: the hash of a device, and its identifier.
abbrev pub Node : Type 0
Node = ℕ × ℕ

-- The `BTreeMap` is its entries in ascending order of the hash; the `HashMap` its entries.
pub record HashRing : Type 0 where
  pub nodes : List Node
  pub devices : List (ℕ × Device)

-- `HashRing::new`
abbrev pub empty_ring : HashRing
empty_ring = record { nodes = []; devices = [] }

-- `BTreeMap::insert`
unfoldable pub insert_node : ℕ → ℕ → List Node → List Node
insert_node k v [] = (k, v) ∷ []
insert_node k v ((j, w) ∷ m) =
    if ltb k j
    then (k, v) ∷ (j, w) ∷ m
    else if j == k
    then (k, v) ∷ m
    else (j, w) ∷ insert_node k v m

-- `BTreeMap::remove`
unfoldable pub remove_node : ℕ → List Node → List Node
remove_node k m = retain (λ n. not (n.0 == k)) m

-- `HashMap::insert`
unfoldable pub insert_device : ℕ → Device → List (ℕ × Device) → List (ℕ × Device)
insert_device k d [] = (k, d) ∷ []
insert_device k d ((j, e) ∷ m) = if j == k then (k, d) ∷ m else (j, e) ∷ insert_device k d m

-- The first node whose hash is at least `u`: `nodes.range(u..).next()`.
unfoldable pub first_from : ℕ → List Node → Option Node
first_from u m = find (λ n. leb u n.0) m

-- `nodes.iter().next()`
unfoldable pub first_node : List Node → Option Node
first_node [] = none
first_node (n ∷ m) = some n

abbrev pub id_of : Option Node → Option ℕ
id_of none = none
id_of (some n) = some n.1

-- The owner of a hash: the next node, or the first one round the ring.
unfoldable pub owner_of : ℕ → List Node → Option ℕ
unfolding first_from first_node
owner_of u [] = none
owner_of u (n ∷ m) = elim (first_from u (n ∷ m)) [
  | some hit ↦ some hit.1
  | none ↦ id_of (first_node (n ∷ m))
]

module _ (hasher : Hasher) where
  open hasher use {hash_device, hash_url}

  unfoldable pub add_device : HashRing → Device → HashRing
  unfolding insert_node insert_device
  add_device ring device = record {
    nodes = insert_node (hash_device device.id) device.id ring.nodes;
    devices = insert_device device.id device ring.devices;
  }

  unfoldable pub remove_device : HashRing → ℕ → HashRing
  unfolding remove_node
  remove_device ring device_id = record {
    nodes = remove_node (hash_device device_id) ring.nodes;
    devices = retain (λ e. not (e.0 == device_id)) ring.devices;
  }

  unfoldable pub get_owner : HashRing → String → Option ℕ
  unfolding owner_of
  get_owner ring url = owner_of (hash_url url) ring.nodes

-- The keys of a `BTreeMap` ascend.
abbrev pub Ascending : List Node → Type 0
Ascending [] = Unit
Ascending (n ∷ m) = All (λ (j : Node). n.0 < j.0) m × Ascending m

-- What `HashRing` keeps: the nodes ascend, and each stands at the hash of its device.
pub record IsRing (hasher : Hasher) (ring : HashRing) : Type 0 where
  pub ascending : Ascending ring.nodes
  pub placed : All (λ (n : Node). n.0 ≡ hasher.hash_device n.1) ring.nodes
