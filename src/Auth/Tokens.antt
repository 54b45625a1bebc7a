-- ===== src/Auth/Tokens.antt =====
-- src/collaboration/crypto/auth.rs: tokens survive their text, and what verification means.
use x_videos_dowloads.Prelude.{
  ℕ, ◌+◌, ◌%◌, ◌^◌, ◌≤◌, ◌<◌, ◌≡◌, refl, false, leb, str_eq_iff, if◌then◌else◌, has,
  rsplit_once-append, print_u64, has-print_u64, parse_u64-print_u64, arith,
}
use x_videos_dowloads.Auth.{
  Codec, IsCodec, AuthToken, token_expired, granted, refused, colon, joined, signed_message,
  to_text, generate, parse, verify,
}

-- A token whose fields have their widths and whose signature has no colon is read back from its
-- text, where the identifiers of the `uuid` crate read back and have no colon.
pub parse-to_text :
    (codec : Codec) (t : AuthToken)
    → IsCodec codec
    → t.team_id < 2 ^ 128
    → t.device_id < 2 ^ 128
    → t.timestamp < 2 ^ 64
    → has 58 t.signature ≡ false
    → parse codec (to_text codec t) ≡ granted t
unfolding parse
parse-to_text codec t is team device time plain =
    let message = signed_message codec t.team_id t.device_id t.timestamp in
    let ids = joined (codec.show_uuid t.team_id) (codec.show_uuid t.device_id) in
    let one = rsplit_once-append colon message t.signature plain in
    let two =
      rsplit_once-append colon ids (print_u64 t.timestamp) (has-print_u64 58 t.timestamp refl) in
    let three =
      rsplit_once-append colon (codec.show_uuid t.team_id) (codec.show_uuid t.device_id)
        (is.plain_uuid t.device_id) in
    rw (
      one,
      two,
      three,
      is.reads_back t.team_id team,
      is.reads_back t.device_id device,
      parse_u64-print_u64 t.timestamp time,
    )

-- A token is accepted until five minutes after it was made and refused as expired from then on,
-- where the sum of its time and five minutes fits a `u64`.
pub verify-generate :
    (codec : Codec) (now made team_id device_id : ℕ)
    → made + 300 < 2 ^ 64
    → verify codec now (generate codec made team_id device_id)
      ≡ (if leb now (made + 300) then granted tt else refused token_expired)
unfolding verify
verify-generate codec now made team_id device_id bound =
    let whole : (made + 300) % 2 ^ 64 ≡ made + 300 = omega arith in
    let message = signed_message codec team_id device_id made in
    let same = (str_eq_iff (codec.hmac_sign message) (codec.hmac_sign message)).1 refl in
    rw (whole, same) (ground arith)

-- The time test, where the sum does not wrap, and the signature of an accepted token.
pub verify-granted :
    (codec : Codec) (now : ℕ) (t : AuthToken) {u : Unit {0}}
    → verify codec now t ≡ granted u
    → (now ≤ (t.timestamp + 300) % 2 ^ 64)
      × (t.signature ≡ codec.hmac_sign (signed_message codec t.team_id t.device_id t.timestamp))
unfolding verify
verify-granted codec now t e = (ground arith, (str_eq_iff t.signature _).0 (ground arith))
