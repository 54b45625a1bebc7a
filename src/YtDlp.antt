-- ===== src/YtDlp.antt =====
-- src/yt_dlp.rs: the command line of yt-dlp, and what is read of its output. A cookie file exists or
-- not; the place that is drawn in the list of browsers is an argument, and so is the JSON that
-- `serde_json` reads.
pub mod Json
pub mod Info
pub mod Tests
use x_videos_dowloads.Prelude.{
  ℕ, zero, suc, String, Bool, true, false, ◌&&◌, ◌||◌, List, [], ◌∷◌, ◌++◌, Option, none, some,
  if◌then◌else◌,
}

pub record AntiBotConfig : Type 0 where
  pub enabled : Bool
  pub user_agent : Option String
  pub cookie_file : Option String
  pub proxy : Option String
  pub skip_ssl_verify : Bool

-- `AntiBotConfig::default`
abbrev pub default_anti_bot : AntiBotConfig
default_anti_bot = record {
  enabled = true;
  user_agent = none;
  cookie_file = none;
  proxy = none;
  skip_ssl_verify = false;
}

-- `YtDlp::with_user_agent`, `YtDlp::with_cookie_file`, `YtDlp::with_proxy`, each where the value is
-- given.
abbrev pub with_user_agent : Option String → AntiBotConfig → AntiBotConfig
with_user_agent none c = c
with_user_agent (some user_agent) c = record c { user_agent = some user_agent }

abbrev pub with_cookie_file : Option String → AntiBotConfig → AntiBotConfig
with_cookie_file none c = c
with_cookie_file (some cookie_file) c = record c { cookie_file = some cookie_file }

abbrev pub with_proxy : Option String → AntiBotConfig → AntiBotConfig
with_proxy none c = c
with_proxy (some proxy) c = record c { proxy = some proxy }

abbrev pub user_agents : List String
user_agents =
    "Mozilla/5.0 (Windows NT 10.0; Win64; x64) AppleWebKit/537.36 (KHTML, like Gecko) Chrome/131.0.0.0 Safari/537.36"
    ∷ "Mozilla/5.0 (Macintosh; Intel Mac OS X 10_15_7) AppleWebKit/537.36 (KHTML, like Gecko) Chrome/131.0.0.0 Safari/537.36"
    ∷ "Mozilla/5.0 (Windows NT 10.0; Win64; x64; rv:133.0) Gecko/20100101 Firefox/133.0"
    ∷ "Mozilla/5.0 (Macintosh; Intel Mac OS X 10.15; rv:133.0) Gecko/20100101 Firefox/133.0"
    ∷ "Mozilla/5.0 (X11; Linux x86_64) AppleWebKit/537.36 (KHTML, like Gecko) Chrome/131.0.0.0 Safari/537.36"
    ∷ "Mozilla/5.0 (Windows NT 10.0; Win64; x64) AppleWebKit/537.36 (KHTML, like Gecko) Chrome/130.0.0.0 Safari/537.36"
    ∷ "Mozilla/5.0 (Macintosh; Intel Mac OS X 10_15_7) AppleWebKit/605.1.15 (KHTML, like Gecko) Version/17.0 Safari/605.1.15"
    ∷ []

abbrev pub choose : ℕ → List String → String
choose zero (a ∷ rest) = a
choose (suc n) (a ∷ rest) = choose n rest
choose n [] = ""

-- `get_user_agent`
abbrev pub get_user_agent : (draw : ℕ) → AntiBotConfig → String
get_user_agent draw c = elim c.user_agent [
  | some user_agent ↦ user_agent
  | none ↦ choose draw user_agents
]

abbrev pub option : (name : String) → Option String → List String
option name none = []
option name (some value) = name ∷ value ∷ []

abbrev pub flag : Bool → (name : String) → List String
flag true name = name ∷ []
flag false name = []

-- The cookie file, if it is set and exists.
abbrev pub cookies : (exists : String → Bool) → Option String → Option String
cookies exists none = none
cookies exists (some file) = if exists file then some file else none

-- The options against the detection of bots, of `get_video_info`.
abbrev pub anti_bot_args : (exists : String → Bool) (draw : ℕ) → AntiBotConfig → List String
anti_bot_args exists draw c =
    "--user-agent" ∷ get_user_agent draw c ∷ option "--cookies" (cookies exists c.cookie_file)
    ++ option "--proxy" c.proxy
    ++ flag c.skip_ssl_verify "--no-check-certificate"

-- The arguments of `get_video_info`.
unfoldable pub info_args :
    (exists : String → Bool) (draw : ℕ) → AntiBotConfig → (url : String) → List String
info_args exists draw c url =
    ("--dump-json" ∷ "--no-playlist" ∷ "--retries" ∷ "10" ∷ "--fragment-retries" ∷ "10"
      ∷ "--retry-sleep" ∷ "5" ∷ "--socket-timeout" ∷ "120" ∷ "--http-chunk-size" ∷ "10M" ∷ url ∷ [])
    ++ (if c.enabled then anti_bot_args exists draw c else [])

abbrev pub format_args : (format : Option String) → List String
format_args (some f) = "-f" ∷ f ∷ []
format_args none = "-f" ∷ "bestvideo[ext=mp4]+bestaudio[ext=m4a]/best[ext=mp4]/best" ∷ []

abbrev pub audio_args : (audio_only : Bool) → List String
audio_args true = "-x" ∷ "--audio-format" ∷ "mp3" ∷ []
audio_args false = []

abbrev pub subtitle_args : (subtitles : Bool) → List String
subtitle_args true = "--write-subs" ∷ "--sub-lang" ∷ "en,zh-Hans,zh-Hant" ∷ []
subtitle_args false = []

-- The options of `build_download_args`, in front of the URL.
unfoldable pub download_options :
    (exists : String → Bool) (draw : ℕ)
    → AntiBotConfig
    → (output_path : String) (format : Option String) (audio_only subtitles : Bool) → List String
download_options exists draw c output_path format audio_only subtitles =
    ("--no-warnings" ∷ "--newline" ∷ "-o" ∷ output_path ∷ "--concurrent-fragments" ∷ "4"
      ∷ "--fragment-retries" ∷ "10" ∷ "--retries" ∷ "10" ∷ "--socket-timeout" ∷ "60"
      ∷ "--no-abort-on-error" ∷ [])
    ++ flag c.skip_ssl_verify "--no-check-certificate"
    ++ format_args format
    ++ audio_args audio_only
    ++ subtitle_args subtitles
    ++ ("--user-agent" ∷ get_user_agent draw c ∷ [])
    ++ option "--cookies" (cookies exists c.cookie_file)
    ++ option "--proxy" c.proxy

-- `build_download_args`
unfoldable pub build_download_args :
    (exists : String → Bool) (draw : ℕ)
    → AntiBotConfig
    → (url output_path : String) (format : Option String) (audio_only subtitles : Bool)
    → List String
unfolding download_options
build_download_args exists draw c url output_path format audio_only subtitles =
    download_options exists draw c output_path format audio_only subtitles ++ url ∷ []
