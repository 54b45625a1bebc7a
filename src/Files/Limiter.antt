-- ===== src/Files/Limiter.antt =====
-- src/collaboration/transfer/http_server.rs: `RateLimiter`. An address and an `Instant` are
-- numbers; the clock counts nanoseconds, and `duration_since` of a later instant is 0.
use x_videos_dowloads.Prelude.{
  ℕ, ◌-◌, ◌*◌, Bool, true, false, List, [], ◌∷◌, ◌++◌, Option, none, some, ltb, leb, ◌==◌,
  if◌then◌else◌, retain, unwrap_or, length,
}

pub record RateLimiter : Type 0 where
  pub window_secs : ℕ
  pub max_requests : ℕ
  pub requests : ℕ → Option (List ℕ)

-- `RateLimiter::new`
abbrev pub new_limiter : (window_secs max_requests : ℕ) → RateLimiter
new_limiter window_secs max_requests = record {
  window_secs = window_secs;
  max_requests = max_requests;
  requests = λ ip. none;
}

-- `now.duration_since(*t) < window`
abbrev pub is_recent : (window_secs now t : ℕ) → Bool
is_recent window_secs now t = ltb (now - t) (window_secs * 1_000_000_000)

abbrev pub stamps : RateLimiter → ℕ → List ℕ
stamps l ip = unwrap_or (l.requests ip) []

abbrev pub write_stamps : ℕ → List ℕ → RateLimiter → RateLimiter
write_stamps ip ts l = record l { requests = λ j. if j == ip then some ts else l.requests j }

-- `RateLimiter::is_allowed`
unfoldable pub is_allowed : (now ip : ℕ) → RateLimiter → Bool × RateLimiter
is_allowed now ip l =
    let kept = retain (is_recent l.window_secs now) (stamps l ip) in
    if leb l.max_requests (length kept)
    then (false, write_stamps ip kept l)
    else (true, write_stamps ip (kept ++ now ∷ []) l)

-- An entry without a recent request is dropped.
abbrev pub unless_empty : List ℕ → Option (List ℕ)
unless_empty [] = none
unless_empty (t ∷ ts) = some (t ∷ ts)

abbrev pub clean : (window_secs now : ℕ) → Option (List ℕ) → Option (List ℕ)
clean window_secs now none = none
clean window_secs now (some ts) = unless_empty (retain (is_recent window_secs now) ts)

-- `RateLimiter::cleanup`
unfoldable pub cleanup : ℕ → RateLimiter → RateLimiter
cleanup now l = record l { requests = λ ip. clean l.window_secs now (l.requests ip) }
