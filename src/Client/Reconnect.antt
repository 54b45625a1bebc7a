-- ===== src/Client/Reconnect.antt =====
-- src/collaboration/client/ws.rs: how a reconnection ends, if it does, and how long it waits.
use x_videos_dowloads.Prelude.{
  ℕ, zero, suc, ◌+◌, ◌<◌, ◌≡◌, ◌⊎◌, refl, true, false, Bool, Option, none, some, Result, ok, err,
  inl, inr, arith,
}
use x_videos_dowloads.Auth.{Codec}
use x_videos_dowloads.Client.{
  Client, Link, refused, cut_at_auth, cut_at_register, hangs, hangs_at_register, opened, connected,
  failed, reconnecting, from_u64, backoff_secs, init_ws_connection, attempts, reconnect,
  max_reconnect_attempts,
}

-- All the waiting that is left.
unfoldable pub total_backoff : (left attempt : ℕ) → ℕ
total_backoff zero attempt = 0
total_backoff (suc left) attempt = backoff_secs attempt + total_backoff left (suc attempt)

-- Whether a connection is opened, where an attempt returns at all.
abbrev pub opens : Link → Option Bool
opens refused = some false
opens cut_at_auth = some false
opens (cut_at_register now) = some false
opens hangs = none
opens (hangs_at_register now) = none
opens (opened now) = some true

-- The `n` attempts from `attempt` on meet an error.
abbrev pub AreRefused : (links : ℕ → Link) (n attempt : ℕ) → Type 0
AreRefused links zero attempt = Unit
AreRefused links (suc n) attempt =
    (opens (links attempt) ≡ some false) × AreRefused links n (suc attempt)

-- How `left` attempts from `attempt` on go: after `n` errors one never returns, or it opens the
-- connection, or all meet an error.
abbrev pub Ended :
    (links : ℕ → Link) (left attempt : ℕ) → Option (Result (Unit {0})) × Client × ℕ → Type 0
Ended links left attempt (result, c, waited) =
    ((n : ℕ) × (n < left)
      × AreRefused links n attempt
      × (opens (links (attempt + n)) ≡ none)
      × (result ≡ none)
      × (from_u64 c.state ≡ reconnecting (attempt + n))
      × (waited ≡ total_backoff (suc n) attempt))
    ⊎ ((n : ℕ) × (n < left)
        × AreRefused links n attempt
        × (opens (links (attempt + n)) ≡ some true)
        × (result ≡ some (ok tt))
        × (from_u64 c.state ≡ connected)
        × (waited ≡ total_backoff (suc n) attempt))
    ⊎ (AreRefused links left attempt
        × (result ≡ some (err "达到最大重连次数"))
        × (from_u64 c.state ≡ failed)
        × (waited ≡ total_backoff left attempt))

shown : (attempt : ℕ) → from_u64 (4 + attempt) ≡ reconnecting attempt
shown attempt = let four : 4 + attempt ≡ suc (suc (suc (suc attempt))) = omega arith in rw four

init-cases :
    (codec : Codec) (link : Link) (c : Client)
    → let (result, after) = init_ws_connection codec link c in
      ((opens link ≡ none) × (result ≡ none) × (after.state ≡ c.state))
      ⊎ ((opens link ≡ some true) × (result ≡ some (ok tt)) × (after.state ≡ 2))
      ⊎ ((opens link ≡ some false) × (result ≡ some (err "io")))
unfolding init_ws_connection
init-cases codec refused c = inr (inr (refl, refl))
init-cases codec cut_at_auth c = inr (inr (refl, refl))
init-cases codec (cut_at_register now) c = inr (inr (refl, refl))
init-cases codec hangs c = inl (refl, refl, refl)
init-cases codec (hangs_at_register now) c = inl (refl, refl, refl)
init-cases codec (opened now) c = inr (inl (refl, refl, refl))

-- One attempt more, before those that are left.
later-Ended :
    (links : ℕ → Link) (left attempt : ℕ) (result : Option (Result (Unit {0}))) (c : Client)
    (waited : ℕ)
    → opens (links attempt) ≡ some false
    → Ended links left (suc attempt) (result, c, waited)
    → Ended links (suc left) attempt (result, c, backoff_secs attempt + waited)
unfolding total_backoff
later-Ended links left attempt result c waited rejected h = elim h [
  | inl (n, few, all, stuck, returned, state, time) ↦
      let next : suc attempt + n ≡ attempt + suc n = omega arith in
      inl (
        suc n,
        omega arith,
        (rejected, all),
        rw (← next) stuck,
        returned,
        rw (← next) state,
        rw time,
      )
  | inr (inl (n, few, all, good, returned, state, time)) ↦
      let next : suc attempt + n ≡ attempt + suc n = omega arith in
      inr (inl (suc n, omega arith, (rejected, all), rw (← next) good, returned, state, rw time))
  | inr (inr (all, returned, state, time)) ↦ inr (inr ((rejected, all), returned, state, rw time))
]

attempts-Ended :
    (codec : Codec) (links : ℕ → Link) (left attempt : ℕ) (c : Client)
    → Ended links left attempt (attempts codec links left attempt c)
unfolding attempts total_backoff
attempts-Ended codec links zero attempt c = inr (inr (tt, refl, refl, refl))
attempts-Ended codec links (suc left) attempt c =
    let trying : Client = record c { state = 4 + attempt; writes = false } in
    let step = init_ws_connection codec (links attempt) trying in
    let here : attempt + 0 ≡ attempt = omega arith in
    let now : backoff_secs attempt + 0 ≡ backoff_secs attempt = omega arith in
    elim (init-cases codec (links attempt) trying) [
      | inl (stuck, returned, state) ↦
          rw (attempts, returned)
            (inl
              (0, omega arith, tt, rw here stuck, refl, rw (here, state) (shown attempt), rw now))
      | inr (inl (good, returned, state)) ↦
          rw (attempts, returned)
            (inr (inl (0, omega arith, tt, rw here good, refl, rw state, rw now)))
      | inr (inr (rejected, returned)) ↦
          let more = attempts codec links left (suc attempt) step.1 in
          rw (attempts, returned)
            (later-Ended links left attempt more.0 more.1 more.2 rejected
              (attempts-Ended codec links left (suc attempt) step.1))
    ]

-- How a reconnection goes, whatever its ten attempts meet. Where the first `n` of them meet an error
-- and the next one never returns, it does not return either, and the state stays `Reconnecting` with
-- the number of that attempt; where the next one is opened, the result is `Ok` and the state is
-- `Connected`; where all ten meet an error, it returns an error, in the state `Failed`. It sleeps
-- exactly the backoffs of the attempts that were made, 181 seconds for all ten.
pub reconnect-Ended :
    (codec : Codec) (links : ℕ → Link) (c : Client)
    → Ended links 10 1 (reconnect codec links c) × (total_backoff 10 1 ≡ 181)
unfolding reconnect total_backoff
reconnect-Ended codec links c = (attempts-Ended codec links max_reconnect_attempts 1 c, refl)
