-- ===== src/Auth/Greeting.antt =====
-- src/collaboration/server/ws.rs (`handle_connection`): the authentication phase of a connection.
use Prim.Native.String.{◌++◌ as str_append}
use x_videos_dowloads.Prelude.{
  ℕ, String, List, [], ◌∷◌, Option, none, some, str_eq, if◌then◌else◌, split_once,
}
use x_videos_dowloads.Types.{ServerMessage, error}
use x_videos_dowloads.Auth.{
  Codec, AuthToken, AuthError, token_expired, invalid_signature, invalid_format, Checked, granted,
  refused, parse, verify,
}

-- What a read of the socket yields; a stream that has ended yields nothing more.
pub data Frame : Type 0 where
  text : String → Frame
  close : Frame
  ping : String → Frame
  other : Frame
  broken : Frame

-- What is written before the session exists.
pub data Reply : Type 0 where
  pong : String → Reply
  told : ServerMessage → Reply
  closing : Reply

-- How the phase ends: with the identity of a client, with `Ok(())`, or with an error.
pub data Outcome : Type 0 where
  admitted : (team_id device_id : ℕ) → Outcome
  ended : Outcome
  failed : Outcome

-- `{:?}` of the error.
abbrev pub shown : AuthError → String
shown token_expired = "TokenExpired"
shown invalid_signature = "InvalidSignature"
shown invalid_format = "InvalidFormat"

module _ (codec : Codec) where
  -- `first_msg.split_once(':')`, whose prefix must be `AUTH`.
  unfoldable pub read_token : Option (String × String) → Checked AuthToken
  read_token none = refused invalid_format
  read_token (some (prefix, rest)) =
      let token = parse codec rest in if str_eq prefix "AUTH" then token else refused invalid_format

  unfoldable pub judge : AuthToken → Checked (Unit {0}) → List Reply × Outcome
  judge t (granted u) = ([], admitted t.team_id t.device_id)
  judge t (refused e) = (told (error (str_append "认证失败: " (shown e))) ∷ closing ∷ [], ended)

  unfoldable pub admit : ℕ → Checked AuthToken → List Reply × Outcome
  unfolding judge
  admit now (granted t) = judge t (verify codec now t)
  admit now (refused e) = (told (error "无效的认证格式") ∷ closing ∷ [], ended)

  -- The first text message.
  unfoldable pub on_first_text : ℕ → String → List Reply × Outcome
  unfolding read_token admit
  on_first_text now first_msg = admit now (read_token (split_once 58 first_msg))

  -- The read after a ping.
  unfoldable pub after_ping : ℕ → List Frame → List Reply × Outcome
  unfolding on_first_text
  after_ping now (text first_msg ∷ frames) = on_first_text now first_msg
  after_ping now _ = ([], ended)

  -- The phase, for the frames that arrive.
  unfoldable pub authenticate : ℕ → List Frame → List Reply × Outcome
  unfolding after_ping
  authenticate now (text first_msg ∷ frames) = on_first_text now first_msg
  authenticate now (close ∷ frames) = ([], ended)
  authenticate now (ping payload ∷ frames) =
      let (replies, outcome) = after_ping now frames in (pong payload ∷ replies, outcome)
  authenticate now (broken ∷ frames) = ([], failed)
  authenticate now _ = ([], ended)
