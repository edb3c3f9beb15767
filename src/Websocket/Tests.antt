-- ===== src/Websocket/Tests.antt =====
-- Runs of the hub of backend/internal/websocket/hub.go on two clients of one user.
use open_music_player.Prelude.{ℕ, ◌≡◌, refl, false, some, [], ◌∷◌, keep, if◌then◌else◌, codes, pos}
use open_music_player.Websocket.Hub.{
  ProgressMessage, Channel, Hub, new_hub, register, unregister, broadcast, add_client, member,
  has_room,
}
use open_music_player.Websocket.Deliver.{sent}
use open_music_player.Websocket.Safety.{
  IsSound, Reachable, started, registered, never_panics, broadcast_delivers,
}

-- All clients are user 7's.
abbrev user_of : ℕ → ℕ
user_of p = 7

abbrev idle : ℕ → Channel
idle p = record { buffer = []; closed = false }

one_client-Reachable : Reachable user_of (register user_of 1 (new_hub idle))
one_client-Reachable = registered 1 started refl

abbrev message : ProgressMessage
message = record {
  kind = codes "progress";
  job_id = 3;
  user_id = 7;
  status = codes "downloading";
  progress = pos 40;
  error = [];
  track_title = [];
  artist_name = [];
}

never_panics_example :
    let hub = register user_of 1 (new_hub idle) in
    IsSound user_of hub
    × ((p : ℕ) → (after : Hub) × (unregister user_of p hub ≡ some after))
    × ((m : ProgressMessage) → (after : Hub) × (broadcast m hub ≡ some after))
never_panics_example = never_panics user_of (register user_of 1 (new_hub idle)) one_client-Reachable

registers : (register user_of 1 (new_hub idle)).clients 7 ≡ some (1 ∷ [])
unfolding register add_client member
registers = refl

broadcast_delivers_example :
    let hub = register user_of 1 (new_hub idle) in
    (after : Hub) × (broadcast message hub ≡ some after)
    × (after.clients 7 ≡ some (keep (λ p. has_room (hub.channels p)) (1 ∷ [])))
    × ((q : ℕ)
        → after.channels q
          ≡ (if member (1 ∷ []) q then sent message (hub.channels q) else hub.channels q))
broadcast_delivers_example =
    broadcast_delivers user_of message (register user_of 1 (new_hub idle)) (1 ∷ [])
      (never_panics user_of (register user_of 1 (new_hub idle)) one_client-Reachable).0 registers
