-- ===== src/Stun/Nat.antt =====
-- src/collaboration/discovery/stun.rs: `is_nat_symmetric` with servers that follow RFC 5389.
use x_videos_dowloads.Prelude.{ℕ, ◌≤◌, ◌≡◌, List, ◌∷◌, ◌++◌, some, length, All, ◌⊎◌}
use x_videos_dowloads.Stun.{read_u16, be16, Net}
use x_videos_dowloads.Stun.Answers.{Attribute, IsOther, encode_all, response}

-- A success response as RFC 5389 lays it out: an address behind any other attributes, and before
-- any bytes, such as those of a MESSAGE-INTEGRITY or a FINGERPRINT.
pub record IsSuccess (answer : List ℕ) : Type 0 where
  pub total : ℕ
  pub id : List ℕ
  pub attrs : List Attribute
  pub family : ℕ
  pub rest : List ℕ
  pub tail : List ℕ
  pub twelve : length id ≡ 12
  pub others : All IsOther attrs
  pub some_port : 2 ≤ length rest
  pub laid_out :
      answer
      ≡ response total id (
          encode_all attrs
          ++ (be16 0x20 ++ be16 (length (0 ∷ family ∷ rest)) ++ (0 ∷ family ∷ rest ++ tail)))

-- An error response: its type is 0x0111, whatever it holds.
abbrev pub IsError : List ℕ → Type 0
IsError answer = read_u16 answer ≡ 0x0111

-- An answer that fits the buffer of 512 bytes.
abbrev pub Conforms : (answer : List ℕ) → Type 0
Conforms answer = (length answer ≤ 512) × (IsSuccess answer ⊎ IsError answer)

-- What the servers that are reached answer.
abbrev pub Standard : Net → Type 0
Standard net =
    (addr : ℕ) (question answer : List ℕ)
    → net.exchange addr question ≡ some answer
    → Conforms answer
