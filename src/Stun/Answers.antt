-- ===== src/Stun/Answers.antt =====
-- src/collaboration/discovery/stun.rs: what is read of an answer with other attributes before the
-- address.
use Prim.Native.Nat.{bit_xor}
use x_videos_dowloads.Prelude.{
  ℕ, zero, suc, ◌+◌, ◌-◌, ◌≤◌, ◌<◌, ◌≡◌, ◌≢◌, refl, ap, ◌∙◌, true, false, ◌||◌, List, [], ◌∷◌, ◌++◌,
  append_assoc, Option, none, some, unwrap_or, Bool-cases, inl, inr, ltb, ◌==◌, length, drop, All,
  arith, length-append, drop-append,
}
use x_videos_dowloads.Stun.Xor.{xor_byte-twice, xor_port-twice}
use x_videos_dowloads.Stun.{
  Answer, address, failed, not_found, only_ipv4, magic, be16, be32, read_u16, read_u32, dotted,
  read_ip, read_address, parse_xor_address, align, find_address, parse_xor_mapped_address,
}

-- An attribute as RFC 5389 encodes it: its type, the length of its value, and the value, padded.
pub record Attribute : Type 0 where
  pub kind : ℕ
  pub size : ℕ
  pub value : List ℕ

abbrev pub encode : Attribute → List ℕ
encode a = be16 a.kind ++ be16 a.size ++ a.value

abbrev pub encode_all : List Attribute → List ℕ
encode_all [] = []
encode_all (a ∷ attrs) = encode a ++ encode_all attrs

abbrev pub IsOther : Attribute → Type 0
IsOther a = (a.kind ≢ 0x20) × (length a.value ≡ align a.size)

encode_all-length : (attrs : List Attribute) → length attrs ≤ length (encode_all attrs)
encode_all-length [] = omega arith
encode_all-length (a ∷ attrs) =
    omega (arith, length-append (encode a) (encode_all attrs), encode_all-length attrs)

u16 : (n : ℕ) (rest : List ℕ) → read_u16 (be16 n ++ rest) ≡ n
u16 n rest = omega arith

-- The attributes before the address are passed over.
find_address-found :
    (fuel m size : ℕ) (attrs : List Attribute) (before value : List ℕ)
    → All IsOther attrs
    → length attrs < fuel
    → 0 < length value
    → find_address fuel
        (before ++ (encode_all attrs ++ (be16 0x20 ++ be16 size ++ value)))
        m
        (length before)
      ≡ some (parse_xor_address value size m)
unfolding find_address
find_address-found zero m size attrs before value h enough some_byte = absurd (omega arith)
find_address-found (suc fuel) m size [] before value h enough some_byte =
    let final = be16 0x20 ++ be16 size ++ value in
    let start : drop (length before) (before ++ final) ≡ final =
      ap (λ (k : ℕ). drop k (before ++ final)) (omega arith) ∙ drop-append 0 before final in
    let inside : ltb (length before) (length (before ++ final) - 4) ≡ true =
      let e = length-append before final in ground (arith, e) in
    rw (start, drop-append 2 before final, drop-append 4 before final, inside, u16 size value)
find_address-found (suc fuel) m size (a ∷ attrs) before value h enough some_byte =
    let final = be16 0x20 ++ be16 size ++ value in
    let rest = encode_all attrs ++ final in
    let whole = before ++ ((encode a ++ encode_all attrs) ++ final) in
    let same : whole ≡ before ++ (encode a ++ rest) =
      ap (λ l. before ++ l) (append_assoc (encode a) (encode_all attrs) final) in
    let start : drop (length before) (before ++ (encode a ++ rest)) ≡ encode a ++ rest =
      ap (λ (k : ℕ). drop k (before ++ (encode a ++ rest))) (omega arith)
      ∙ drop-append 0 before (encode a ++ rest) in
    let inside : ltb (length before) (length (before ++ (encode a ++ rest)) - 4) ≡ true =
      let e = length-append before (encode a ++ rest) in
      let e2 = length-append a.value rest in
      let e3 = length-append (encode_all attrs) final in ground (arith, e, e2, e3) in
    let other : (read_u16 (encode a ++ rest) == 0x20) ≡ false =
      let e = u16 a.kind (be16 a.size ++ a.value ++ rest) in let no = h.0.0 in ground (arith, e) in
    let next : length before + (4 + align a.size) ≡ length (before ++ encode a) =
      omega (arith, h.0.1, length-append before (encode a)) in
    let ih =
      find_address-found fuel m size attrs (before ++ encode a) value h.1 (omega arith) some_byte in
    rw
      (
        same,
        start,
        drop-append 2 before (encode a ++ rest),
        inside,
        other,
        u16 a.size (a.value ++ rest),
        next,
        ← append_assoc before (encode a) rest,
      )
      ih

-- The loop ends for every list of bytes, whatever their lengths say: from `offset` on, as many steps
-- as there are bytes left reach its end, and any other number of at least so many gives the same
-- answer.
pub find_address-enough :
    (fuel more : ℕ) (answer : List ℕ) (m offset : ℕ)
    → length answer ≤ offset + fuel
    → length answer ≤ offset + more
    → (found : Option Answer) × (find_address fuel answer m offset ≡ some found)
      × (find_address more answer m offset ≡ some found)
unfolding find_address
find_address-enough zero zero answer m offset h h2 =
    let done : ltb offset (length answer - 4) ≡ false = ground arith in
    (some (failed not_found), rw done, rw done)
find_address-enough zero (suc more) answer m offset h h2 =
    let done : ltb offset (length answer - 4) ≡ false = ground arith in
    (some (failed not_found), rw done, rw done)
find_address-enough (suc fuel) zero answer m offset h h2 =
    let done : ltb offset (length answer - 4) ≡ false = ground arith in
    (some (failed not_found), rw done, rw done)
find_address-enough (suc fuel) (suc more) answer m offset h h2 =
    let next = offset + (4 + align (read_u16 (drop (offset + 2) answer))) in
    let (later, enough, same) =
      find_address-enough fuel more answer m next (omega arith) (omega arith) in
    elim (Bool-cases (ltb offset (length answer - 4))) [
      | inr done ↦ (some (failed not_found), rw done, rw done)
      | inl inside ↦ elim (Bool-cases (read_u16 (drop offset answer) == 0x20)) [
        | inl here ↦
            let value = drop (offset + 4) answer in
            (
              parse_xor_address value (read_u16 (drop (offset + 2) answer)) m,
              rw (inside, here),
              rw (inside, here),
            )
        | inr other ↦ (later, rw (inside, other) enough, rw (inside, other) same)
      ]
    ]

-- A binding response: the header with a transaction identifier, and the attributes.
abbrev pub response : (size : ℕ) (transaction_id attributes : List ℕ) → List ℕ
response size transaction_id attributes =
    (be16 0x0101 ++ be16 size ++ be32 magic ++ transaction_id) ++ attributes

past_header :
    (answer : List ℕ)
    → ltb (length answer) 24 ≡ false
    → read_u16 answer ≡ 0x0101
    → read_u32 (drop 4 answer) ≡ magic
    → parse_xor_mapped_address answer
      ≡ unwrap_or (find_address (length answer) answer magic 20) none
unfolding parse_xor_mapped_address
past_header answer long kind cookie = rw (long, kind, cookie)

-- What is read of the value of the address, which stands behind other attributes.
parse-response :
    (total size : ℕ) (id : List ℕ) (attrs : List Attribute) (value : List ℕ)
    → length id ≡ 12
    → All IsOther attrs
    → 0 < length value
    → parse_xor_mapped_address
        (response total id (encode_all attrs ++ (be16 0x20 ++ be16 size ++ value)))
      ≡ parse_xor_address value size magic
parse-response total size id attrs value twelve h some_byte =
    let final = be16 0x20 ++ be16 size ++ value in
    let all = encode_all attrs ++ final in
    let head = be16 0x0101 ++ be16 total ++ be32 magic ++ id in
    let e1 = length-append id all in
    let e2 = length-append (encode_all attrs) final in
    let e3 = encode_all-length attrs in
    let start : 20 ≡ length head = omega (arith, twelve) in
    past_header (head ++ all) (ground (arith, e1, e2, twelve)) refl refl
    ∙ ap (λ (o : Option (Option Answer)). unwrap_or o none)
        (ap (find_address (length (head ++ all)) (head ++ all) magic) start
          ∙ find_address-found (length (head ++ all)) magic size attrs head value h
              (omega (arith, e1, e2, e3)) some_byte)

-- An answer whose address has the family in its second byte, as RFC 5389 lays it out, after any
-- other attributes that are well formed and before whatever follows: the code reads the family from the first byte, which is 0
-- there, and rejects the answer, whatever its address.
pub parse-rfc :
    (total : ℕ) (id : List ℕ) (attrs : List Attribute) (family : ℕ) (rest tail : List ℕ)
    → length id ≡ 12
    → All IsOther attrs
    → 2 ≤ length rest
    → parse_xor_mapped_address (
        response total id (
          encode_all attrs
          ++ (be16 0x20 ++ be16 (length (0 ∷ family ∷ rest)) ++ (0 ∷ family ∷ rest ++ tail))))
      ≡ some (failed only_ipv4)
unfolding parse_xor_address read_address
parse-rfc total id attrs family [] tail twelve h long = absurd (omega arith)
parse-rfc total id attrs family (a ∷ []) tail twelve h long = absurd (omega arith)
parse-rfc total id attrs family (a ∷ b ∷ rest) tail twelve h long =
    let value = 0 ∷ family ∷ a ∷ b ∷ rest in
    let e = length-append rest tail in
    let fits : (ltb (length value) 4 || ltb (length (value ++ tail)) (length value)) ≡ false =
      ground (arith, e) in
    parse-response total (length value) id attrs (value ++ tail) twelve h (omega arith) ∙ rw fits

-- An address as the code reads it, with the family in front.
abbrev pub encode_address : (a b c d port : ℕ) → List ℕ
encode_address a b c d port =
    1 ∷ 0 ∷ be16 (bit_xor port 0x2112)
    ++ bit_xor a 0x21 ∷ bit_xor b 0x12 ∷ bit_xor c 0xA4 ∷ bit_xor d 0x42 ∷ []

-- An answer that has the family in the first byte of the address instead, after any other
-- attributes that are well formed, gives the address and the port that were put in.
pub parse-encode_address :
    (total : ℕ) (id : List ℕ) (attrs : List Attribute) (a b c d port : ℕ)
    → length id ≡ 12
    → All IsOther attrs
    → (a < 256) × (b < 256) × (c < 256) × (d < 256) × (port < 65536)
    → parse_xor_mapped_address (
        response total id
          (encode_all attrs ++ (be16 0x20 ++ be16 8 ++ encode_address a b c d port)))
      ≡ some (address (dotted a b c d) port)
unfolding parse_xor_address read_address read_ip
parse-encode_address total id attrs a b c d port twelve h (ha, hb, hc, hd, hp) =
    let whole_port = u16 (bit_xor port 0x2112) [] in
    parse-response total 8 id attrs (encode_address a b c d port) twelve h (omega arith)
    ∙ rw (
      whole_port,
      xor_port-twice port hp,
      xor_byte-twice a 0x21 ha (omega arith),
      xor_byte-twice b 0x12 hb (omega arith),
      xor_byte-twice c 0xA4 hc (omega arith),
      xor_byte-twice d 0x42 hd (omega arith),
    )
