-- ===== src/Auth.antt =====
-- src/collaboration/crypto/auth.rs: the token by which a client authenticates.
-- The `uuid` and `hmac` crates are not part of the repository: what the code uses of them is the
-- parameter `Codec`. The proofs are in the modules below.
pub mod Greeting
pub mod Tokens
pub mod Phase
pub mod Tests
use Prim.Native.Char.{Char, char}
use Prim.Native.String.{◌++◌ as str_append}
use x_videos_dowloads.Prelude.{
  ℕ, ◌+◌, ◌%◌, ◌^◌, ◌<◌, ◌≡◌, String, false, Option, none, some, ltb, str_eq, if◌then◌else◌, has,
  rsplit_once, print_u64, parse_u64,
}

-- `Uuid` as text and back, and `hmac_sign` under the shared secret.
pub record Codec : Type 0 where
  pub show_uuid : ℕ → String
  pub parse_uuid : String → Option ℕ
  pub hmac_sign : String → String

-- What the crates document: a printed identifier reads back, and neither it nor a signature in
-- hexadecimal has a colon.
pub record IsCodec (codec : Codec) : Type 0 where
  pub reads_back : (id : ℕ) → id < 2 ^ 128 → codec.parse_uuid (codec.show_uuid id) ≡ some id
  pub plain_uuid : (id : ℕ) → has 58 (codec.show_uuid id) ≡ false
  pub plain_signature : (message : String) → has 58 (codec.hmac_sign message) ≡ false

pub record AuthToken : Type 0 where
  pub team_id : ℕ
  pub device_id : ℕ
  pub timestamp : ℕ
  pub signature : String

pub data AuthError : Type 0 where
  token_expired invalid_signature invalid_format : AuthError

-- `Result<_, AuthError>`
pub data Checked {ℓ} (A : Type ℓ) : Type ℓ where
  granted : A → Checked A
  refused : AuthError → Checked A

abbrev pub colon : Char
colon = char 58 tt

-- Two texts with a colon between them.
abbrev pub joined : String → String → String
joined a b = str_append a (String.◌∷◌ colon b)

module _ (codec : Codec) where
  open codec use {show_uuid, parse_uuid, hmac_sign}

  -- `format!("{}:{}:{}", team_id, device_id, timestamp)`
  abbrev pub signed_message : (team_id device_id timestamp : ℕ) → String
  signed_message team_id device_id timestamp =
      joined (joined (show_uuid team_id) (show_uuid device_id)) (print_u64 timestamp)

  -- `Display for AuthToken`
  abbrev pub to_text : AuthToken → String
  to_text t = joined (signed_message t.team_id t.device_id t.timestamp) t.signature

  -- `AuthToken::generate`, at a time in seconds.
  abbrev pub generate : (now team_id device_id : ℕ) → AuthToken
  generate now team_id device_id = record {
    team_id = team_id;
    device_id = device_id;
    timestamp = now;
    signature = hmac_sign (signed_message team_id device_id now);
  }

  -- The three fields once they are read.
  abbrev pub assemble : Option ℕ → Option ℕ → Option ℕ → String → Checked AuthToken
  assemble (some team_id) (some device_id) (some timestamp) signature = granted (record {
    team_id = team_id;
    device_id = device_id;
    timestamp = timestamp;
    signature = signature;
  })
  assemble _ _ _ signature = refused invalid_format

  unfoldable pub parse_ids : String → String → Option (String × String) → Checked AuthToken
  parse_ids time signature none = refused invalid_format
  parse_ids time signature (some (team, device)) =
      assemble (parse_uuid team) (parse_uuid device) (parse_u64 time) signature

  unfoldable pub parse_time : String → Option (String × String) → Checked AuthToken
  unfolding parse_ids
  parse_time signature none = refused invalid_format
  parse_time signature (some (mid, time)) = parse_ids time signature (rsplit_once 58 mid)

  unfoldable pub parse_signature : Option (String × String) → Checked AuthToken
  unfolding parse_time
  parse_signature none = refused invalid_format
  parse_signature (some (prefix, signature)) = parse_time signature (rsplit_once 58 prefix)

  -- `AuthToken::parse`
  unfoldable pub parse : String → Checked AuthToken
  unfolding parse_signature
  parse text = parse_signature (rsplit_once 58 text)

  -- `AuthToken::verify`; the sum wraps as on a `u64` of a release build.
  unfoldable pub verify : ℕ → AuthToken → Checked (Unit {0})
  verify now t =
      if ltb ((t.timestamp + 300) % 2 ^ 64) now
      then refused token_expired
      else if str_eq t.signature (hmac_sign (signed_message t.team_id t.device_id t.timestamp))
      then granted tt
      else refused invalid_signature
