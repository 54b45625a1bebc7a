-- ===== src/Client/Tests.antt =====
-- src/collaboration/client/ws.rs on a server that announces a file, and on one that is away.
use x_videos_dowloads.Prelude.{ℕ, zero, suc, ◌≡◌, refl, List, [], ◌∷◌}
use x_videos_dowloads.Types.{ServerMessage, file_available, heartbeat}
use x_videos_dowloads.Auth.Tests.{toy}
use x_videos_dowloads.Chunks.Tests.{honest}
use x_videos_dowloads.Client.{
  Link, refused, hangs, opened, new_client, Event, arrives, sends, breaks, reconnects, connect, run,
  subscribed, attempts, reconnect, broadcast, init_ws_connection,
}
use x_videos_dowloads.Client.Silence.{run-subscribed}
use x_videos_dowloads.Client.Reconnect.{Ended, total_backoff, reconnect-Ended}
use x_videos_dowloads.Client.Files.{file_handler, file_handler-idle}

abbrev announced : ServerMessage
announced = file_available 5 3 "10.0.0.2" 8080 "a.mp4" 5

-- The server answers at the second attempt.
abbrev second_time : ℕ → Link
second_time zero = refused
second_time (suc zero) = refused
second_time (suc (suc n)) = opened 1000

abbrev events : List Event
events =
    arrives announced
    ∷ sends (heartbeat 3)
    ∷ breaks
    ∷ reconnects second_time
    ∷ arrives announced
    ∷ []

run-subscribed_example :
    subscribed (run toy events (connect toy (opened 1000) "ws://localhost:9000" 2 3 "A").1) ≡ []
run-subscribed_example = run-subscribed toy (opened 1000) "ws://localhost:9000" 2 3 "A" events

-- The messages are there, in the channels of the two connections.
lost :
    (run toy events (connect toy (opened 1000) "ws://localhost:9000" 2 3 "A").1).channels
    ≡ [] ∷ (announced ∷ []) ∷ (announced ∷ []) ∷ []
unfolding run connect reconnect attempts broadcast init_ws_connection
lost = refl

file_handler-idle_example :
    file_handler
      (λ ip port task_id. honest)
      "/videos"
      (subscribed (run toy events (connect toy (opened 1000) "ws://localhost:9000" 2 3 "A").1))
      []
    ≡ []
file_handler-idle_example =
    file_handler-idle (λ ip port task_id. honest) "/videos" [] toy (opened 1000)
      "ws://localhost:9000" 2 3 "A" events

-- The third attempt never returns.
abbrev third_time : ℕ → Link
third_time (suc (suc (suc n))) = hangs
third_time _ = refused

reconnect-Ended_example :
    Ended third_time 10 1 (reconnect toy third_time (new_client "ws://localhost:9000" 2 3 "A"))
    × (total_backoff 10 1 ≡ 181)
reconnect-Ended_example = reconnect-Ended toy third_time (new_client "ws://localhost:9000" 2 3 "A")
