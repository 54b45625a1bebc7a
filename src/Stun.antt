-- ===== src/Stun.antt =====
-- src/collaboration/discovery/stun.rs: the question for the public address, and its answer. A byte
-- is its number. An index out of range is a panic: such a function returns `none`.
pub mod Xor
pub mod Answers
pub mod Nat
pub mod Tests
use Prim.Native.Nat.{bit_xor}
use Prim.Native.String.{◌++◌ as str_append}
use x_videos_dowloads.Prelude.{
  ℕ, zero, suc, ◌+◌, ◌-◌, ◌*◌, ◌/◌, ◌%◌, ◌^◌, String, Bool, true, false, not, ◌||◌, List, [], ◌∷◌,
  ◌++◌, Option, none, some, ltb, ◌==◌, ◌>>=◌, if◌then◌else◌, length, take, drop, print_u64,
  unwrap_or,
}

-- The errors, by their messages.
pub data StunError : Type 0 where
  too_short : StunError
  not_a_response : (msg_type : ℕ) → StunError
  invalid_cookie : StunError
  not_found : StunError
  invalid_length : StunError
  only_ipv4 : StunError
  -- An address that does not parse, or an error of the network.
  io : StunError

pub data Answer : Type 0 where
  address : (ip : String) (port : ℕ) → Answer
  failed : (e : StunError) → Answer

-- `STUN_MAGIC_COOKIE`
abbrev pub magic : ℕ
magic = 0x2112A442

-- `put_u16`, `put_u32`
abbrev pub be16 : ℕ → List ℕ
be16 n = n / 256 ∷ n % 256 ∷ []

abbrev pub be32 : ℕ → List ℕ
be32 n = n / 2 ^ 24 ∷ n / 2 ^ 16 % 256 ∷ n / 256 % 256 ∷ n % 256 ∷ []

-- `build_binding_request`, of the twelve random bytes.
abbrev pub build_binding_request : (transaction_id : List ℕ) → List ℕ
build_binding_request transaction_id = be16 1 ++ be16 0 ++ be32 magic ++ transaction_id

-- `u16::from_be_bytes`, `u32::from_be_bytes` of the first bytes, where there are so many.
abbrev pub read_u16 : List ℕ → ℕ
read_u16 (a ∷ b ∷ rest) = a * 256 + b
read_u16 _ = 0

abbrev pub read_u32 : List ℕ → ℕ
read_u32 (a ∷ b ∷ c ∷ d ∷ rest) = ((a * 256 + b) * 256 + c) * 256 + d
read_u32 _ = 0

-- `format!("{}.{}.{}.{}")`
abbrev pub dotted : (a b c d : ℕ) → String
dotted a b c d = str_append (print_u64 a) (
    str_append "." (
      str_append (print_u64 b)
        (str_append "." (str_append (print_u64 c) (str_append "." (print_u64 d))))))

-- The four bytes of an address, which may be missing.
unfoldable pub read_ip : (port magic_cookie : ℕ) → List ℕ → Option Answer
read_ip port magic_cookie (a ∷ b ∷ c ∷ d ∷ rest) = some (
    address
      (dotted (bit_xor a (magic_cookie / 2 ^ 24)) (bit_xor b (magic_cookie / 2 ^ 16 % 256))
        (bit_xor c (magic_cookie / 256 % 256)) (bit_xor d (magic_cookie % 256)))
      port)
read_ip port magic_cookie _ = none

unfoldable pub read_address : List ℕ → (magic_cookie : ℕ) → Option Answer
unfolding read_ip
read_address (family ∷ reserved ∷ p ∷ q ∷ ip) magic_cookie =
    if family == 1
    then read_ip (bit_xor (p * 256 + q) (magic_cookie / 2 ^ 16)) magic_cookie ip
    else some (failed only_ipv4)
read_address _ magic_cookie = none

unfoldable pub parse_xor_address : List ℕ → (size magic_cookie : ℕ) → Option Answer
unfolding read_address
parse_xor_address bytes size magic_cookie =
    if ltb size 4 || ltb (length bytes) size
    then some (failed invalid_length)
    else read_address bytes magic_cookie

-- `(n + 3) & !3`
abbrev pub align : ℕ → ℕ
align n = (n + 3) / 4 * 4

-- The loop over the attributes from `offset` on: where it reads, four bytes are there. It goes on
-- by four bytes at least, so as many steps as there are bytes are enough; where `fuel` steps do not
-- reach its end, the outer answer is `none`.
unfoldable pub find_address :
    (fuel : ℕ) → List ℕ → (magic_cookie offset : ℕ) → Option (Option Answer)
unfolding parse_xor_address
find_address zero bytes magic_cookie offset =
    if ltb offset (length bytes - 4) then none else some (some (failed not_found))
find_address (suc fuel) bytes magic_cookie offset =
    let attr_type = read_u16 (drop offset bytes) in
    let attr_length = read_u16 (drop (offset + 2) bytes) in
    let later = find_address fuel bytes magic_cookie (offset + (4 + align attr_length)) in
    if ltb offset (length bytes - 4)
    then if attr_type == 0x20
      then some (parse_xor_address (drop (offset + 4) bytes) attr_length magic_cookie)
      else later
    else some (some (failed not_found))

-- `parse_xor_mapped_address`; the loop has all the steps that it needs.
unfoldable pub parse_xor_mapped_address : List ℕ → Option Answer
unfolding find_address
parse_xor_mapped_address bytes =
    if ltb (length bytes) 24
    then some (failed too_short)
    else if not (read_u16 bytes == 0x0101)
    then some (failed (not_a_response (read_u16 bytes)))
    else if not (read_u32 (drop 4 bytes) == magic)
    then some (failed invalid_cookie)
    else unwrap_or (find_address (length bytes) bytes (read_u32 (drop 4 bytes)) 20) none

-- The network: the parser of `SocketAddr`, and what a server answers to a question, if anything.
pub record Net : Type 0 where
  pub parse_addr : String → Option ℕ
  pub exchange : ℕ → List ℕ → Option (List ℕ)

abbrev pub read_answer : Option (List ℕ) → Option Answer
read_answer none = some (failed io)
read_answer (some bytes) = parse_xor_mapped_address (take 512 bytes)

-- `get_public_ip_port_for_server`; `get_public_ip_port` is the same, of the first server.
unfoldable pub get_public_ip_port_for_server :
    Net → (transaction_id : List ℕ) → String → Option Answer
get_public_ip_port_for_server net transaction_id server = elim (net.parse_addr server) [
  | none ↦ some (failed io)
  | some addr ↦ read_answer (net.exchange addr (build_binding_request transaction_id))
]

abbrev pub get_public_ip_port : Net → (transaction_id : List ℕ) → Option Answer
get_public_ip_port net transaction_id =
    get_public_ip_port_for_server net transaction_id "stun.l.google.com:19302"

-- Whether two answers show a symmetric NAT.
abbrev pub symmetric : Answer → Answer → Bool
symmetric (address ip1 port1) (address ip2 port2) = not (port1 == port2)
symmetric _ _ = true

-- `is_nat_symmetric`
unfoldable pub is_nat_symmetric : Net → (id1 id2 : List ℕ) → Option Bool
unfolding get_public_ip_port_for_server
is_nat_symmetric net id1 id2 = do
  first ← get_public_ip_port_for_server net id1 "stun.l.google.com:19302"
  second ← get_public_ip_port_for_server net id2 "stun1.l.google.com:19302"
  some (symmetric first second)
