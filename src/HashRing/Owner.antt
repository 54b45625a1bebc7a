-- ===== src/HashRing/Owner.antt =====
-- src/collaboration/crypto/hashring.rs: who owns a URL, and how little a change of the ring moves.
use x_videos_dowloads.Prelude.{
  ℕ, ◌<◌, ◌≤◌, ◌≡◌, refl, ap, ◌⊎◌, inl, inr, ◌≢◌, List, [], ◌∷◌, Option, none, some, ◌==◌, leb,
  find, All, All-retain, All-map, find-All, arith, Bool-cases, Option-cases, String, subst, ◌↔◌,
}
use x_videos_dowloads.Types.{Device}
use x_videos_dowloads.HashRing.{
  Node, HashRing, Hasher, IsRing, insert_node, remove_node, first_from, first_node, owner_of, id_of,
  Ascending, add_device, remove_device, get_owner,
}
use x_videos_dowloads.HashRing.Nodes.{
  All-insert_node, insert_node-Ascending, remove_node-Ascending, first_from-insert_node,
  first_node-insert_node, first_from-remove_node, first_from-remove_node-none,
}

-- The node at a hash.
abbrev pub node_at : ℕ → List Node → Option ℕ
node_at h m = id_of (find (λ n. n.0 == h) m)

-- No node lies in the interval.
abbrev pub Free : (ℕ → Type 0) → List Node → Type 0
Free P m = All (λ (n : Node). ¬ P n.0) m

-- What consistent hashing asks: the owner of `u` is the node at the least hash that is at least
-- `u` and, where no node has one, the node at the least hash of all.
abbrev pub Owns : ℕ → List Node → ℕ → Type 0
Owns u m id =
    (h : ℕ) × (node_at h m ≡ some id)
    × ((u ≤ h) × Free (λ k. (u ≤ k) × (k < h)) m ⊎ Free (λ k. u ≤ k) m × Free (λ k. k < h) m)

first_from-Free : (u : ℕ) (m : List Node) → first_from u m ≡ none → Free (λ k. u ≤ k) m
unfolding first_from
first_from-Free u [] e = tt
first_from-Free u (n ∷ m) e = (ground arith, first_from-Free u m (ground arith))

first_from-least :
    (u : ℕ) (m : List Node) (n : Node)
    → Ascending m
    → first_from u m ≡ some n
    → (node_at n.0 m ≡ some n.1) × (u ≤ n.0) × Free (λ k. (u ≤ k) × (k < n.0)) m
unfolding first_from
first_from-least u [] n a e = cc
first_from-least u (x ∷ m) n a e = elim (Bool-cases (leb u x.0)) [
  | inl t ↦
      let same : x ≡ n = ground arith in
      let at : x.0 ≡ n.0 = ap (λ (y : Node). y.0) same in
      (
        ground arith,
        ground arith,
        (
          λ h. omega arith,
          All-map (λ (j : Node). x.0 < j.0) (λ (j : Node). ¬ ((u ≤ j.0) × (j.0 < n.0)))
              (λ j g h. omega arith) m a.0,
        ),
      )
  | inr f ↦
      let rest = first_from-least u m n a.1 (ground arith) in
      (ground (arith, rest.0, rest.1), rest.1, (λ h. ground arith, rest.2))
]

first_node-least :
    (m : List Node) (n : Node)
    → Ascending m
    → first_node m ≡ some n
    → (node_at n.0 m ≡ some n.1) × Free (λ k. k < n.0) m
unfolding first_node
first_node-least [] n a e = cc
first_node-least (x ∷ m) n a e =
    let same : x ≡ n = ground arith in
    let at : x.0 ≡ n.0 = ap (λ (y : Node). y.0) same in
    (
      ground arith,
      (
        λ h. omega arith,
        All-map (λ (j : Node). x.0 < j.0) (λ (j : Node). ¬ (j.0 < n.0)) (λ j g h. omega arith) m
            a.0,
      ),
    )

-- `get_owner` in two steps.
owner_of_steps :
    (u : ℕ) (m : List Node)
    → ((n : Node) × (first_from u m ≡ some n) × (owner_of u m ≡ some n.1))
      ⊎ ((first_from u m ≡ none) × (owner_of u m ≡ id_of (first_node m)))
unfolding owner_of
owner_of_steps u [] = inr (refl, refl)
owner_of_steps u (n ∷ m) = elim (Option-cases (first_from u (n ∷ m))) [
  | inl e ↦ inr (e, rw (e, owner_of))
  | inr (h, e) ↦ inl (h, e, rw (e, owner_of))
]

owner_of-Owns :
    (u : ℕ) (m : List Node) (id : ℕ) → Ascending m → owner_of u m ≡ some id → Owns u m id
owner_of-Owns u m id a e = elim (owner_of_steps u m) [
  | inl (n, hit, own) ↦
      let at = first_from-least u m n a hit in
      let same : n.1 ≡ id = ground arith in (n.0, rw (← same) at.0, inl (at.1, at.2))
  | inr (past, own) ↦ elim (Option-cases (first_node m)) [
    | inl no_node ↦ absurd (cc (no_node, own, e))
    | inr (n, first) ↦
        let at = first_node-least m n a first in
        let same : n.1 ≡ id = ground arith in
        (n.0, rw (← same) at.0, inr (first_from-Free u m past, at.1))
  ]
]

-- The owner that `get_owner` finds in a well-formed ring is the one that consistent hashing asks
-- for: the device at the least hash that is at least the URL's or, where there is none, at the
-- least hash of all.
pub get_owner-Owns :
    (hasher : Hasher) (ring : HashRing) (url : String) (id : ℕ)
    → IsRing hasher ring
    → get_owner hasher ring url ≡ some id
    → Owns (hasher.hash_url url) ring.nodes id
unfolding get_owner
get_owner-Owns hasher ring url id r e = owner_of-Owns _ ring.nodes id r.ascending e

-- Adding a device to a well-formed ring and removing one from it keep the nodes ascending, each
-- at the hash of its device.
pub add_device-remove_device-IsRing :
    (hasher : Hasher) (ring : HashRing) (device : Device) (id : ℕ)
    → IsRing hasher ring
    → IsRing hasher (add_device hasher ring device) × IsRing hasher (remove_device hasher ring id)
unfolding add_device remove_device
add_device-remove_device-IsRing hasher ring device id r = (
  record {
    ascending = insert_node-Ascending _ device.id ring.nodes r.ascending;
    placed = All-insert_node _ _ device.id ring.nodes refl r.placed;
  },
  record {
    ascending = remove_node-Ascending _ ring.nodes r.ascending;
    placed = All-retain _ _ ring.nodes r.placed;
  },
)

owner_of-insert_node :
    (u k v : ℕ) (m : List Node)
    → (owner_of u (insert_node k v m) ≡ some v) ⊎ (owner_of u (insert_node k v m) ≡ owner_of u m)
owner_of-insert_node u k v m = ground (
  arith,
  owner_of_steps u m,
  owner_of_steps u (insert_node k v m),
  first_from-insert_node u k v m,
  first_node-insert_node k v m,
)

-- A device that joins takes URLs over, and moves none between the others: every URL is then
-- owned by the new device or by its owner from before.
pub get_owner-add_device :
    (hasher : Hasher) (ring : HashRing) (device : Device) (url : String)
    → (get_owner hasher (add_device hasher ring device) url ≡ some device.id)
      ⊎ (get_owner hasher (add_device hasher ring device) url ≡ get_owner hasher ring url)
unfolding get_owner add_device
get_owner-add_device hasher ring device url = owner_of-insert_node _ _ device.id ring.nodes

first_node-remove_node :
    (k : ℕ) (m : List Node) (n : Node)
    → first_node m ≡ some n
    → n.0 ≢ k
    → first_node (remove_node k m) ≡ some n
unfolding first_node remove_node
first_node-remove_node k [] n e h = cc
first_node-remove_node k (x ∷ m) n e h = ground arith

first_node-All {κ} :
    (P : Node → Type κ) (m : List Node) (n : Node) → All P m → first_node m ≡ some n → P n
unfolding first_node
first_node-All P [] n h e = cc
first_node-All P (x ∷ m) n h e = subst P (ground arith) h.0

owner_of-none : (u : ℕ) (m : List Node) → (owner_of u m ≡ none) ↔ (m ≡ [])
unfolding owner_of
owner_of-none u [] = (λ e. refl, λ e. refl)
owner_of-none u (n ∷ m) = (λ e. ground arith, λ e. cc)

owner_of-remove_node :
    (u k : ℕ) (m : List Node) (id : ℕ) (hash : ℕ → ℕ)
    → All (λ (n : Node). n.0 ≡ hash n.1) m
    → owner_of u m ≡ some id
    → hash id ≢ k
    → owner_of u (remove_node k m) ≡ some id
unfolding first_from
owner_of-remove_node u k m id hash placed e far = elim (owner_of_steps u m) [
  | inl (n, hit, own) ↦
      let at = find-All (λ (n : Node). n.0 ≡ hash n.1) _ m n placed hit in
      let kept = first_from-remove_node u k m n hit (λ same. far (cc)) in
      ground (arith, owner_of_steps u (remove_node k m))
  | inr (past, own) ↦ elim (Option-cases (first_node m)) [
    | inl no_node ↦ absurd (cc (no_node, own, e))
    | inr (n, first) ↦
        let at = first_node-All (λ (n : Node). n.0 ≡ hash n.1) m n placed first in
        let kept = first_node-remove_node k m n first (λ same. far (cc)) in
        let still = first_from-remove_node-none u k m past in
        ground (arith, owner_of_steps u (remove_node k m))
  ]
]

-- A device that leaves a well-formed ring gives up its own URLs only: while the owner of a URL
-- has another hash than the device that is removed, it stays the owner.
pub get_owner-remove_device :
    (hasher : Hasher) (ring : HashRing) (url : String) (id leaving : ℕ)
    → IsRing hasher ring
    → get_owner hasher ring url ≡ some id
    → hasher.hash_device id ≢ hasher.hash_device leaving
    → get_owner hasher (remove_device hasher ring leaving) url ≡ some id
unfolding get_owner remove_device
get_owner-remove_device hasher ring url id leaving r e far =
    owner_of-remove_node _ _ ring.nodes id hasher.hash_device r.placed e far

remove_node-absent : (k : ℕ) (m : List Node) → All (λ (n : Node). n.0 ≢ k) m → remove_node k m ≡ m
unfolding remove_node
remove_node-absent k [] h = refl
remove_node-absent k (n ∷ m) h = ground (arith, remove_node-absent k m h.1, h.0)

remove_node-insert_node :
    (k v : ℕ) (m : List Node)
    → All (λ (n : Node). n.0 ≢ k) m
    → remove_node k (insert_node k v m) ≡ m
unfolding remove_node insert_node
remove_node-insert_node k v [] h = ground arith
remove_node-insert_node k v (n ∷ m) h =
    ground (arith, remove_node-insert_node k v m h.1, h.0, remove_node-absent k m h.1)

-- A device that joins at a free hash and leaves again leaves every URL with its owner.
pub get_owner-remove_device-add_device :
    (hasher : Hasher) (ring : HashRing) (device : Device) (url : String)
    → All (λ (n : Node). n.0 ≢ hasher.hash_device device.id) ring.nodes
    → get_owner hasher (remove_device hasher (add_device hasher ring device) device.id) url
      ≡ get_owner hasher ring url
unfolding get_owner remove_device add_device
get_owner-remove_device-add_device hasher ring device url free =
    ap (owner_of (hasher.hash_url url)) (remove_node-insert_node _ device.id ring.nodes free)

-- A URL has an owner exactly when the ring has a node.
pub get_owner-none :
    (hasher : Hasher) (ring : HashRing) (url : String)
    → (get_owner hasher ring url ≡ none) ↔ (ring.nodes ≡ [])
unfolding get_owner
get_owner-none hasher ring url = owner_of-none _ ring.nodes
