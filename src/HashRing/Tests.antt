-- ===== src/HashRing/Tests.antt =====
-- The hash ring of src/collaboration/crypto/hashring.rs on concrete devices.
use x_videos_dowloads.Prelude.{ℕ, ◌≡◌, refl, [], ◌∷◌, none, some, arith, true}
use x_videos_dowloads.Types.{Device}
use x_videos_dowloads.HashRing.{Hasher, HashRing, IsRing, get_owner, add_device, remove_device}
use x_videos_dowloads.HashRing.Owner.{Owns, get_owner-Owns, get_owner-remove_device}

-- A device stands at ten times its number, and every URL at 25.
abbrev hasher : Hasher
hasher = record { hash_device = λ id. Prim.Native.Nat.◌*◌ 10 id; hash_url = λ url. 25 }

abbrev device : ℕ → Device
device id = record {
  id = id;
  team_id = 1;
  name = "laptop";
  public_ip = none;
  public_port = none;
  last_seen = 0;
  is_online = true;
}

abbrev ring : HashRing
ring = record { nodes = (10, 1) ∷ (30, 3) ∷ []; devices = (1, device 1) ∷ (3, device 3) ∷ [] }

ring-IsRing : IsRing hasher ring
ring-IsRing = record { ascending = ((omega arith, tt), (tt, tt)); placed = (refl, (refl, tt)) }

ring_owner : get_owner hasher ring "http://a" ≡ some 3
unfolding get_owner
ring_owner = refl

-- A device between the URL and its owner takes the URL over.
between :
    get_owner hasher (add_device hasher (add_device hasher ring (device 4)) (device 3)) "http://a"
    ≡ some 3
unfolding get_owner add_device
between = refl

-- Past the last node the ring starts again.
wraps : get_owner hasher (remove_device hasher ring 3) "http://a" ≡ some 1
unfolding get_owner remove_device
wraps = refl

get_owner-Owns_example : Owns 25 ring.nodes 3
get_owner-Owns_example = get_owner-Owns hasher ring "http://a" 3 ring-IsRing ring_owner

get_owner-remove_device_example : get_owner hasher (remove_device hasher ring 1) "http://a" ≡ some 3
get_owner-remove_device_example =
    get_owner-remove_device hasher ring "http://a" 3 1 ring-IsRing ring_owner (omega arith)
