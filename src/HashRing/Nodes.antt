-- ===== src/HashRing/Nodes.antt =====
-- src/collaboration/crypto/hashring.rs: what inserting and removing a node does to the ordered map.
use x_videos_dowloads.Prelude.{
  ℕ, ◌<◌, ◌≤◌, ◌≡◌, refl, ◌⊎◌, inl, inr, ◌≢◌, List, [], ◌∷◌, none, some, ◌==◌, ltb, All, All-retain,
  All-map, arith, Bool-cases,
}
use x_videos_dowloads.HashRing.{Node, insert_node, remove_node, first_from, first_node, Ascending}

pub All-insert_node {κ} :
    (P : Node → Type κ) (k v : ℕ) (m : List Node) → P (k, v) → All P m → All P (insert_node k v m)
unfolding insert_node
All-insert_node P k v [] p h = (p, tt)
All-insert_node P k v ((j, w) ∷ m) p h = elim (Bool-cases (ltb k j)) [
  | inl t ↦ rw t (p, h)
  | inr f ↦ rw f (elim (Bool-cases (j == k)) [
    | inl t ↦ rw t (p, h.1)
    | inr e ↦ rw e (h.0, All-insert_node P k v m p h.1)
  ])
]

above :
    (k j : ℕ) (m : List Node)
    → k ≤ j
    → All (λ (n : Node). j < n.0) m
    → All (λ (n : Node). k < n.0) m
above k j m h = All-map (λ (n : Node). j < n.0) (λ (n : Node). k < n.0) (λ n g. omega arith) m

pub insert_node-Ascending : (k v : ℕ) (m : List Node) → Ascending m → Ascending (insert_node k v m)
unfolding insert_node
insert_node-Ascending k v [] a = (tt, tt)
insert_node-Ascending k v ((j, w) ∷ m) a = elim (Bool-cases (ltb k j)) [
  | inl t ↦ rw t ((ground arith, above k j m (ground arith) a.0), a)
  | inr f ↦ rw f (elim (Bool-cases (j == k)) [
    | inl t ↦ rw t (above k j m (ground arith) a.0, a.1)
    | inr e ↦ rw e (
      All-insert_node (λ (n : Node). j < n.0) k v m (ground arith) a.0,
      insert_node-Ascending k v m a.1,
    )
  ])
]

pub remove_node-Ascending : (k : ℕ) (m : List Node) → Ascending m → Ascending (remove_node k m)
unfolding remove_node
remove_node-Ascending k [] a = tt
remove_node-Ascending k (n ∷ m) a = elim (Bool-cases (n.0 == k)) [
  | inl t ↦ rw t (remove_node-Ascending k m a.1)
  | inr f ↦ rw f (All-retain _ _ m a.0, remove_node-Ascending k m a.1)
]

-- After an insertion the first node from `u` on is the new one or the old one.
pub first_from-insert_node :
    (u k v : ℕ) (m : List Node)
    → (first_from u (insert_node k v m) ≡ some (k, v))
      ⊎ (first_from u (insert_node k v m) ≡ first_from u m)
unfolding first_from insert_node
first_from-insert_node u k v [] = ground arith
first_from-insert_node u k v ((j, w) ∷ m) = ground (arith, first_from-insert_node u k v m)

pub first_node-insert_node :
    (k v : ℕ) (m : List Node)
    → (first_node (insert_node k v m) ≡ some (k, v))
      ⊎ (first_node (insert_node k v m) ≡ first_node m)
unfolding first_node insert_node
first_node-insert_node k v [] = inl refl
first_node-insert_node k v ((j, w) ∷ m) = ground arith

-- A removal at another key leaves the first node from `u` on in place.
pub first_from-remove_node :
    (u k : ℕ) (m : List Node) (n : Node)
    → first_from u m ≡ some n
    → n.0 ≢ k
    → first_from u (remove_node k m) ≡ some n
unfolding first_from remove_node
first_from-remove_node u k [] n e h = cc
first_from-remove_node u k (x ∷ m) n e h = ground (arith, first_from-remove_node u k m n)

pub first_from-remove_node-none :
    (u k : ℕ) (m : List Node) → first_from u m ≡ none → first_from u (remove_node k m) ≡ none
unfolding first_from remove_node
first_from-remove_node-none u k [] e = refl
first_from-remove_node-none u k (x ∷ m) e = ground (arith, first_from-remove_node-none u k m)
