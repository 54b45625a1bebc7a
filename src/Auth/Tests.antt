-- ===== src/Auth/Tests.antt =====
-- src/collaboration/crypto/auth.rs and the authentication of src/collaboration/server/ws.rs, with
-- a toy codec: identifiers in decimal, and the message without colons as its signature.
use Prim.Native.String.{◌++◌ as str_append}
use x_videos_dowloads.Prelude.{ℕ, ◌≡◌, refl, ap, String, false, [], ◌∷◌, some, arith, List}
use x_videos_dowloads.Prelude.Colon.{has}
use x_videos_dowloads.Auth.{Codec, IsCodec, AuthToken, granted, to_text, generate, verify}
use x_videos_dowloads.Auth.Greeting.{Reply, Outcome, text, ping, pong, admitted, authenticate}
use x_videos_dowloads.Auth.Tokens.{verify-generate}
use x_videos_dowloads.Auth.Phase.{
  auth_line, authenticate-generate, authenticate-Vouched, FirstVouches,
}

-- Unary text of an identifier.
abbrev tally : ℕ → String
tally Prim.Native.Nat.zero = ""
tally (Prim.Native.Nat.suc n) = String.◌∷◌ (Prim.Native.String.char_at "x" 0) (tally n)

abbrev untally : String → ℕ
untally String.[] = 0
untally (String.◌∷◌ ch s) = Prim.Native.Nat.suc (untally s)

untally-tally : (n : ℕ) → untally (tally n) ≡ n
untally-tally Prim.Native.Nat.zero = refl
untally-tally (Prim.Native.Nat.suc n) = rw (untally-tally n)

has-tally : (n : ℕ) → has 58 (tally n) ≡ false
unfolding has
has-tally Prim.Native.Nat.zero = refl
has-tally (Prim.Native.Nat.suc n) = rw (has-tally n)

-- The signature counts the characters of the message.
abbrev pub toy : Codec
toy = record {
  show_uuid = tally;
  parse_uuid = λ s. some (untally s);
  hmac_sign = λ m. tally (untally m);
}

toy-IsCodec : IsCodec toy
toy-IsCodec = record {
  reads_back = λ id small. rw (untally-tally id);
  plain_uuid = has-tally;
  plain_signature = λ m. has-tally (untally m);
}

abbrev token : AuthToken
token = generate toy 1000 2 3

in_time : verify toy 1300 token ≡ granted tt
in_time = verify-generate toy 1300 1000 2 3 (omega arith)

authenticate-generate_example :
    (authenticate toy 1200 (text (auth_line (to_text toy token)) ∷ []) ≡ ([], admitted 2 3))
    × (authenticate toy 1200 (ping "hi" ∷ text (auth_line (to_text toy token)) ∷ [])
        ≡ (pong "hi" ∷ [], admitted 2 3))
authenticate-generate_example =
    authenticate-generate toy 1200 1000 2 3 "hi" [] toy-IsCodec (omega arith) (omega arith)
      (omega arith) (omega arith)

authenticate-Vouched_example : FirstVouches toy 1200 (text (auth_line (to_text toy token)) ∷ []) 2 3
authenticate-Vouched_example =
    authenticate-Vouched toy 1200 (text (auth_line (to_text toy token)) ∷ []) 2 3
      (ap (λ (r : List Reply × Outcome). r.1) authenticate-generate_example.0)
