-- ===== src/Stun/Tests.antt =====
-- src/collaboration/discovery/stun.rs on concrete answers.
use x_videos_dowloads.Prelude.{
  ℕ, ◌≡◌, refl, ◌++◌, List, [], ◌∷◌, Option, none, some, length, All, arith,
}
use x_videos_dowloads.Stun.{
  Answer, address, failed, only_ipv4, be16, magic, dotted, Net, find_address,
  parse_xor_mapped_address, read_ip, parse_xor_address, read_address,
}
use x_videos_dowloads.Stun.Answers.{
  Attribute, IsOther, encode_all, encode_address, response, parse-rfc, parse-encode_address,
  find_address-enough,
}

abbrev twelve_bytes : List ℕ
twelve_bytes = 1 ∷ 2 ∷ 3 ∷ 4 ∷ 5 ∷ 6 ∷ 7 ∷ 8 ∷ 9 ∷ 10 ∷ 11 ∷ 12 ∷ []

-- The name of the software, of six bytes and two to fill up.
abbrev software : Attribute
software = record { kind = 0x8022; size = 6; value = 65 ∷ 66 ∷ 67 ∷ 68 ∷ 69 ∷ 70 ∷ 0 ∷ 0 ∷ [] }

others : All IsOther (software ∷ [])
others = ((ground arith, refl), tt)

parse-encode_address_example :
    parse_xor_mapped_address (
      response 24 twelve_bytes
        (encode_all (software ∷ []) ++ (be16 0x20 ++ be16 8 ++ encode_address 192 0 2 1 32853)))
    ≡ some (address (dotted 192 0 2 1) 32853)
parse-encode_address_example =
    parse-encode_address 24 twelve_bytes (software ∷ []) 192 0 2 1 32853 refl others
      (omega arith, omega arith, omega arith, omega arith, omega arith)

-- The attribute FINGERPRINT, of four bytes.
abbrev fingerprint : List ℕ
fingerprint = be16 0x8028 ++ be16 4 ++ 192 ∷ 125 ∷ 76 ∷ 150 ∷ []

-- The same address as RFC 5389 lays it out: the family, 1, is the second byte.
abbrev standard_value : List ℕ
standard_value = 161 ∷ 71 ∷ 225 ∷ 18 ∷ 166 ∷ 67 ∷ []

abbrev standard_answer : List ℕ
standard_answer = response 32 twelve_bytes (
    encode_all (software ∷ [])
    ++ (be16 0x20
        ++ be16 (length (0 ∷ 1 ∷ standard_value))
        ++ (0 ∷ 1 ∷ standard_value ++ fingerprint)))

parse-rfc_example : parse_xor_mapped_address standard_answer ≡ some (failed only_ipv4)
parse-rfc_example =
    parse-rfc 32 twelve_bytes (software ∷ []) 1 standard_value fingerprint refl others (omega arith)

-- Every name resolves, and every server answers.
abbrev online : Net
online = record { parse_addr = λ name. some 7; exchange = λ addr question. some standard_answer }

find_address-enough_example :
    (found : Option Answer) × (find_address 44 standard_answer magic 20 ≡ some found)
    × (find_address 100 standard_answer magic 20 ≡ some found)
find_address-enough_example =
    find_address-enough 44 100 standard_answer magic 20 (omega arith) (omega arith)

-- An address of four bytes at the end is read beyond its end: a panic.
cut_short :
    parse_xor_mapped_address
      (response 8 twelve_bytes (be16 0x20 ++ be16 4 ++ (1 ∷ 0 ∷ 0 ∷ 80 ∷ [])))
    ≡ none
unfolding parse_xor_mapped_address find_address parse_xor_address read_address read_ip
cut_short = refl
