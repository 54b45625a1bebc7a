-- ===== src/Db/Teams.antt =====
-- src/collaboration/server/db.rs: teams and their invite codes.
use Prim.Native.String.{char_at}
use x_videos_dowloads.Prelude.{
  ℕ, zero, suc, ◌+◌, String, [], ◌∷◌, ◌++◌, Option, none, some, Result, ok, err, any, find, ◌==◌,
  str_eq, if◌then◌else◌,
}
use x_videos_dowloads.Types.{Team}
use x_videos_dowloads.Db.Schema.{Database, query}

-- `CHARSET`
abbrev pub charset : String
charset = "0123456789ABCDEFGHIJKLMNOPQRSTUVWXYZabcdefghijklmnopqrstuvwxyz!@#$%^&*"

-- The characters drawn at the positions from `i` on.
unfoldable pub code_from : ℕ → ℕ → (ℕ → ℕ) → String
code_from zero i draw = String.[]
code_from (suc n) i draw = String.◌∷◌ (char_at charset (draw i)) (code_from n (i + 1) draw)

-- `generate_invite_code`; `draw i` is the i-th `rng.gen_range(0..CHARSET.len())`.
unfoldable pub generate_invite_code : (ℕ → ℕ) → String
unfolding code_from
generate_invite_code draw = code_from 16 0 draw

-- `Database::create_team`
unfoldable pub create_team :
    Option String → (fresh_id now : ℕ) → (ℕ → ℕ) → String → Database → Result Team × Database
create_team (some message) fresh_id now draw name db = (err message, db)
create_team none fresh_id now draw name db =
    let code = generate_invite_code draw in
    let team : Team = record { id = fresh_id; name = name; invite_code = code; created_at = now } in
    if any (λ (t : Team). t.id == fresh_id) db.teams
    then (err "UNIQUE constraint failed: teams.id", db)
    else if any (λ (t : Team). str_eq t.invite_code code) db.teams
    then (err "UNIQUE constraint failed: teams.invite_code", db)
    else (ok team, record db { teams = db.teams ++ team ∷ [] })

-- `Database::get_team_by_code`
unfoldable pub get_team_by_code : Option String → String → Database → Result (Option Team)
get_team_by_code fault invite_code db =
    query fault (find (λ (t : Team). str_eq t.invite_code invite_code) db.teams)
