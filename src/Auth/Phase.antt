-- ===== src/Auth/Phase.antt =====
-- src/collaboration/server/ws.rs and src/collaboration/crypto/auth.rs: who is admitted.
use x_videos_dowloads.Prelude.{
  ℕ, ◌+◌, ◌%◌, ◌^◌, ◌≤◌, ◌<◌, ◌≡◌, refl, ◌∙◌, ap, String, true, List, [], ◌∷◌, Option, none, some,
  leb, split_once, split_once-append, arith,
}
use x_videos_dowloads.Auth.{
  Codec, IsCodec, AuthToken, Checked, granted, refused, joined, colon, signed_message, to_text,
  generate, verify,
}
use x_videos_dowloads.Auth.Greeting.{
  Frame, text, close, ping, other, broken, pong, admitted, authenticate, on_first_text, after_ping,
  admit, judge, read_token,
}
use x_videos_dowloads.Prelude.Colon.{has}
use x_videos_dowloads.Auth.Tokens.{parse-to_text, verify-generate, verify-granted}

-- The first line of a client: `format!("AUTH:{}", token)`.
abbrev pub auth_line : String → String
auth_line token = joined "AUTH" token

on_first_text-generate :
    (codec : Codec) (now made team_id device_id : ℕ)
    → IsCodec codec
    → team_id < 2 ^ 128
    → device_id < 2 ^ 128
    → made + 300 < 2 ^ 64
    → now ≤ made + 300
    → on_first_text codec now (auth_line (to_text codec (generate codec made team_id device_id)))
      ≡ ([], admitted team_id device_id)
unfolding on_first_text has
on_first_text-generate codec now made team_id device_id is team device bound fresh =
    let t = generate codec made team_id device_id in
    let cut = split_once-append colon "AUTH" (to_text codec t) refl in
    let token =
      parse-to_text codec t is team device (omega arith)
        (is.plain_signature (signed_message codec team_id device_id made)) in
    let in_time : leb now (made + 300) ≡ true = ground arith in
    let accepted = verify-generate codec now made team_id device_id bound in
    rw (cut, token, accepted, in_time)

-- A client that sends the line of a token, at once or after one ping and no later than five
-- minutes after the token was made, is admitted under the team and device of the token; the ping
-- is answered and nothing else is written. The identifiers have 128 bits, the sum of the time
-- and five minutes fits a `u64`, and the crates behave as documented.
pub authenticate-generate :
    (codec : Codec) (now made team_id device_id : ℕ) (payload : String) (frames : List Frame)
    → IsCodec codec
    → team_id < 2 ^ 128
    → device_id < 2 ^ 128
    → made + 300 < 2 ^ 64
    → now ≤ made + 300
    → let line = text (auth_line (to_text codec (generate codec made team_id device_id))) in
      (authenticate codec now (line ∷ frames) ≡ ([], admitted team_id device_id))
      × (authenticate codec now (ping payload ∷ line ∷ frames)
          ≡ (pong payload ∷ [], admitted team_id device_id))
unfolding authenticate
authenticate-generate codec now made team_id device_id payload frames is team device bound fresh =
    let in_first =
      on_first_text-generate codec now made team_id device_id is team device bound fresh in
    (in_first, rw in_first)

-- The text that is taken for the first message: the first frame, or the one after a first ping.
abbrev pub first_text : List Frame → Option String
first_text (text line ∷ frames) = some line
first_text (ping p ∷ text line ∷ frames) = some line
first_text _ = none

-- A line that reads as a token of this team and device, in time at `now` and signed under the
-- shared secret.
abbrev pub Vouched : Codec → (now : ℕ) → (line : String) → (team_id device_id : ℕ) → Type 0
Vouched codec now line team_id device_id =
    (t : AuthToken) × (read_token codec (split_once 58 line) ≡ granted t)
    × (t.team_id ≡ team_id)
    × (t.device_id ≡ device_id)
    × (now ≤ (t.timestamp + 300) % 2 ^ 64)
    × (t.signature ≡ codec.hmac_sign (signed_message codec team_id device_id t.timestamp))

judge-kept :
    (codec : Codec) (now : ℕ) (t : AuthToken) (c : Checked (Unit {0})) (team_id device_id : ℕ)
    → verify codec now t ≡ c
    → (judge codec t c).1 ≡ admitted team_id device_id
    → (t.team_id ≡ team_id)
      × (t.device_id ≡ device_id)
      × (now ≤ (t.timestamp + 300) % 2 ^ 64)
      × (t.signature ≡ codec.hmac_sign (signed_message codec team_id device_id t.timestamp))
unfolding judge
judge-kept codec now t (refused e) team_id device_id v h = absurd (cc h)
judge-kept codec now t (granted u) team_id device_id v h =
    let kept = verify-granted codec now t v in
    let team : t.team_id ≡ team_id = cc h in
    let device : t.device_id ≡ device_id = cc h in
    (
      team,
      device,
      kept.0,
      kept.1
          ∙ ap (λ (i : ℕ). codec.hmac_sign (signed_message codec i t.device_id t.timestamp)) team
          ∙ ap (λ (i : ℕ). codec.hmac_sign (signed_message codec team_id i t.timestamp)) device,
    )

admit-Vouched :
    (codec : Codec) (now : ℕ) (line : String) (c : Checked AuthToken) (team_id device_id : ℕ)
    → read_token codec (split_once 58 line) ≡ c
    → (admit codec now c).1 ≡ admitted team_id device_id
    → Vouched codec now line team_id device_id
unfolding admit
admit-Vouched codec now line (refused e) team_id device_id at h = absurd (cc h)
admit-Vouched codec now line (granted t) team_id device_id at h =
    let (team, device, fresh, signed) =
      judge-kept codec now t (verify codec now t) team_id device_id refl h in
    (t, at, team, device, fresh, signed)

-- The identity is vouched for by the first message.
abbrev pub FirstVouches : Codec → (now : ℕ) → List Frame → (team_id device_id : ℕ) → Type 0
FirstVouches codec now frames team_id device_id =
    (line : String) × (first_text frames ≡ some line) × Vouched codec now line team_id device_id

on_first_text-Vouched :
    (codec : Codec) (now : ℕ) (line : String) (team_id device_id : ℕ)
    → (on_first_text codec now line).1 ≡ admitted team_id device_id
    → Vouched codec now line team_id device_id
unfolding on_first_text
on_first_text-Vouched codec now line team_id device_id h =
    admit-Vouched codec now line (read_token codec (split_once 58 line)) team_id device_id refl h

after_ping-Vouched :
    (codec : Codec) (now : ℕ) (payload : String) (frames : List Frame) (team_id device_id : ℕ)
    → (after_ping codec now frames).1 ≡ admitted team_id device_id
    → FirstVouches codec now (ping payload ∷ frames) team_id device_id
unfolding after_ping
after_ping-Vouched codec now payload (text line ∷ frames) team_id device_id h =
    (line, refl, on_first_text-Vouched codec now line team_id device_id h)
after_ping-Vouched codec now payload [] team_id device_id h = absurd (cc h)
after_ping-Vouched codec now payload (close ∷ frames) team_id device_id h = absurd (cc h)
after_ping-Vouched codec now payload (ping p ∷ frames) team_id device_id h = absurd (cc h)
after_ping-Vouched codec now payload (other ∷ frames) team_id device_id h = absurd (cc h)
after_ping-Vouched codec now payload (broken ∷ frames) team_id device_id h = absurd (cc h)

-- Whatever frames a client sends, it is admitted under a team and device only where the first
-- frame, or the one after a first ping, is a text `AUTH:` with a token that is read from it, names
-- this team and device, is in time and carries the signature of the shared secret for them.
pub authenticate-Vouched :
    (codec : Codec) (now : ℕ) (frames : List Frame) (team_id device_id : ℕ)
    → (authenticate codec now frames).1 ≡ admitted team_id device_id
    → FirstVouches codec now frames team_id device_id
unfolding authenticate
authenticate-Vouched codec now (text line ∷ frames) team_id device_id h =
    (line, refl, on_first_text-Vouched codec now line team_id device_id h)
authenticate-Vouched codec now [] team_id device_id h = absurd (cc h)
authenticate-Vouched codec now (close ∷ frames) team_id device_id h = absurd (cc h)
authenticate-Vouched codec now (ping p ∷ frames) team_id device_id h =
    after_ping-Vouched codec now p frames team_id device_id h
authenticate-Vouched codec now (other ∷ frames) team_id device_id h = absurd (cc h)
authenticate-Vouched codec now (broken ∷ frames) team_id device_id h = absurd (cc h)
