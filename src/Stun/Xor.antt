-- ===== src/Stun/Xor.antt =====
-- Exclusive or with the same number twice, over bytes and over ports, as tables.
use Prim.Native.Nat.{bit_xor}
use x_videos_dowloads.Prelude.{
  ℕ, zero, suc, ◌+◌, ◌*◌, ◌/◌, ◌%◌, ◌<◌, ◌≡◌, refl, ◌∙◌, sym, ap, Bool, true, ◌&&◌, ◌==◌, ==_iff,
  arith,
}

all_below : ℕ → (ℕ → Bool) → Bool
all_below zero p = true
all_below (suc n) p = p n && all_below n p

all_below-holds : (n : ℕ) (p : ℕ → Bool) (x : ℕ) → all_below n p ≡ true → x < n → p x ≡ true
unfolding all_below
all_below-holds zero p x h lt = absurd (omega arith)
all_below-holds (suc n) p x h lt = ground (arith, all_below-holds n p x)

byte_table : all_below 256 (λ y. all_below 256 (λ x. bit_xor (bit_xor x y) y == x)) ≡ true
unfolding all_below
byte_table = refl

pub xor_byte-twice : (x y : ℕ) → x < 256 → y < 256 → bit_xor (bit_xor x y) y ≡ x
xor_byte-twice x y hx hy =
    (==_iff _ x).0 (all_below-holds 256 _ x (all_below-holds 256 _ y byte_table hy) hx)

port_table :
    all_below 256
      (λ h. all_below 256 (λ l. bit_xor (bit_xor (h * 256 + l) 0x2112) 0x2112 == h * 256 + l))
    ≡ true
unfolding all_below
port_table = refl

pub xor_port-twice : (x : ℕ) → x < 65536 → bit_xor (bit_xor x 0x2112) 0x2112 ≡ x
xor_port-twice x h =
    let parts : x / 256 * 256 + x % 256 ≡ x = omega arith in
    let row = all_below-holds 256 _ (x / 256) port_table (omega arith) in
    let known =
      (==_iff _ (x / 256 * 256 + x % 256)).0 (all_below-holds 256 _ (x % 256) row (omega arith)) in
    ap (λ n. bit_xor (bit_xor n 0x2112) 0x2112) (sym parts) ∙ known ∙ parts
