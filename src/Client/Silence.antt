-- ===== src/Client/Silence.antt =====
-- src/collaboration/client/ws.rs: what the subscribers of a client receive.
use x_videos_dowloads.Prelude.{
  ℕ, zero, suc, ◌+◌, ◌<◌, ◌≡◌, ◌≢◌, refl, String, Bool, true, false, List, [], ◌∷◌, ◌++◌, Option,
  none, some, Option-cases, Result-cases, inl, inr, length, length-append, arith,
}
use x_videos_dowloads.Types.{ServerMessage, ClientMessage}
use x_videos_dowloads.Auth.{Codec}
use x_videos_dowloads.Client.{
  Client, Link, refused, cut_at_auth, cut_at_register, hangs, hangs_at_register, opened,
  authenticated, init_ws_connection, new_client, connect, broadcast, read_to, send_if, channel,
  subscribed, attempts, reconnect, max_reconnect_attempts, Event, arrives, sends, breaks,
  reconnects, on_event, run,
}

-- The reader is not on the channel of the subscribers.
abbrev pub Apart : (msg_tx : ℕ) → Option ℕ → Type 0
Apart msg_tx none = Unit
Apart msg_tx (some n) = n ≢ msg_tx

-- The channel of the subscribers is there, it is empty, and the read loop sends to another one.
pub record Silent (c : Client) : Type 0 where
  pub there : c.msg_tx < length c.channels
  pub empty : subscribed c ≡ []
  pub apart : Apart c.msg_tx c.reader

channel-append :
    (n : ℕ) (cs more : List (List ServerMessage))
    → n < length cs
    → channel n (cs ++ more) ≡ channel n cs
unfolding channel
channel-append n [] more h = absurd (omega arith)
channel-append zero (c ∷ cs) more h = refl
channel-append (suc n) (c ∷ cs) more h = channel-append n cs more (omega arith)

channel-broadcast :
    (n k : ℕ) (m : ServerMessage) (cs : List (List ServerMessage))
    → n ≢ k
    → channel k (broadcast n m cs) ≡ channel k cs
unfolding channel broadcast
channel-broadcast n k m [] h = refl
channel-broadcast zero zero m (c ∷ cs) h = absurd (h refl)
channel-broadcast zero (suc k) m (c ∷ cs) h = refl
channel-broadcast (suc n) zero m (c ∷ cs) h = refl
channel-broadcast (suc n) (suc k) m (c ∷ cs) h = channel-broadcast n k m cs (ground arith)

length-broadcast :
    (n : ℕ) (m : ServerMessage) (cs : List (List ServerMessage))
    → length (broadcast n m cs) ≡ length cs
unfolding broadcast
length-broadcast n m [] = refl
length-broadcast zero m (c ∷ cs) = refl
length-broadcast (suc n) m (c ∷ cs) = rw (length-broadcast n m cs)

new-Silent :
    (server_url : String) (team_id device_id : ℕ) (device_name : String)
    → Silent (new_client server_url team_id device_id device_name)
unfolding channel
new-Silent server_url team_id device_id device_name = record {
  there = omega arith;
  empty = refl;
  apart = tt;
}

authenticated-Silent :
    (codec : Codec) (now : ℕ) (c : Client) → Silent c → Silent (authenticated codec now c)
authenticated-Silent codec now c h = record {
  there = omega (arith, h.there, length-append c.channels ([] ∷ []));
  empty = rw (channel-append c.msg_tx c.channels ([] ∷ []) h.there) h.empty;
  apart = h.apart;
}

init-Silent :
    (codec : Codec) (link : Link) (c : Client)
    → Silent c
    → Silent (init_ws_connection codec link c).1
unfolding init_ws_connection
init-Silent codec refused c h = h
init-Silent codec cut_at_auth c h = h
init-Silent codec (cut_at_register now) c h = authenticated-Silent codec now c h
init-Silent codec hangs c h = h
init-Silent codec (hangs_at_register now) c h = authenticated-Silent codec now c h
init-Silent codec (opened now) c h = record {
  there = omega (arith, h.there, length-append c.channels ([] ∷ []));
  empty = rw (channel-append c.msg_tx c.channels ([] ∷ []) h.there) h.empty;
  apart = let inside = h.there in ground arith;
}

attempts-Silent :
    (codec : Codec) (links : ℕ → Link) (left attempt : ℕ) (c : Client)
    → Silent c
    → Silent (attempts codec links left attempt c).1
unfolding attempts
attempts-Silent codec links zero attempt c h = record {
  there = h.there;
  empty = h.empty;
  apart = h.apart;
}
attempts-Silent codec links (suc left) attempt c h =
    let trying : Client = record c { state = 4 + attempt; writes = false } in
    let step = init_ws_connection codec (links attempt) trying in
    let here : Silent step.1 =
      init-Silent codec (links attempt) trying
        (record { there = h.there; empty = h.empty; apart = h.apart }) in
    elim (Option-cases step.0) [
      | inl stuck ↦ rw (attempts, stuck) here
      | inr (returned, at) ↦ elim (Result-cases returned) [
        | inl (u, success) ↦ rw (attempts, at, success) here
        | inr (e, failure) ↦
            rw (attempts, at, failure) (attempts-Silent codec links left (suc attempt) step.1 here)
      ]
    ]

read_to-Silent :
    (r : Option ℕ) (m : ServerMessage) (c : Client)
    → Apart c.msg_tx r
    → Silent c
    → Silent (read_to r m c)
read_to-Silent none m c other h = h
read_to-Silent (some n) m c other h = record {
  there = rw (length-broadcast n m c.channels) h.there;
  empty = rw (channel-broadcast n c.msg_tx m c.channels other) h.empty;
  apart = h.apart;
}

send_if-Silent :
    (writes : Bool) (m : ClientMessage) (c : Client) → Silent c → Silent (send_if writes m c).1
send_if-Silent true m c h = record { there = h.there; empty = h.empty; apart = h.apart }
send_if-Silent false m c h = h

on_event-Silent : (codec : Codec) (e : Event) (c : Client) → Silent c → Silent (on_event codec e c)
unfolding on_event reconnect
on_event-Silent codec (arrives m) c h = read_to-Silent c.reader m c h.apart h
on_event-Silent codec (sends m) c h = send_if-Silent c.writes m c h
on_event-Silent codec breaks c h = record { there = h.there; empty = h.empty; apart = h.apart }
on_event-Silent codec (reconnects links) c h =
    attempts-Silent codec links max_reconnect_attempts 1 c h

run-Silent : (codec : Codec) (es : List Event) (c : Client) → Silent c → Silent (run codec es c)
unfolding run
run-Silent codec [] c h = h
run-Silent codec (e ∷ es) c h =
    run-Silent codec es (on_event codec e c) (on_event-Silent codec e c h)

-- Whatever link a client is connected over, and whatever then arrives from the server, is sent,
-- breaks or reconnects: nothing is ever sent to those who subscribe to its messages.
pub run-subscribed :
    (codec : Codec) (link : Link) (server_url : String) (team_id device_id : ℕ)
    (device_name : String) (es : List Event)
    → subscribed (run codec es (connect codec link server_url team_id device_id device_name).1) ≡ []
unfolding connect
run-subscribed codec link server_url team_id device_id device_name es =
    (run-Silent codec es (connect codec link server_url team_id device_id device_name).1 (
      init-Silent codec link (new_client server_url team_id device_id device_name)
        (new-Silent server_url team_id device_id device_name))).empty
