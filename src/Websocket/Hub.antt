-- ===== src/Websocket/Hub.antt =====
-- backend/internal/websocket/hub.go: the cases of Run as steps on the hub. A client is its pointer, a
-- number; its field userID never changes. A panic, on a send to or a close of a closed channel, is
-- `none`.
use open_music_player.Prelude.{
  ℕ, Bool, true, false, Option, none, some, List, [], ◌∷◌, ◌++◌, if◌then◌else◌, ltb, ◌==◌, length,
  keep, not, Text, ℤ,
}

-- `kind` is its field Type.
pub record ProgressMessage : Type 0 where
  pub kind : Text
  pub job_id : ℕ
  pub user_id : ℕ
  pub status : Text
  pub progress : ℤ
  pub error : Text
  pub track_title : Text
  pub artist_name : Text

-- A client's `send`, whose capacity is 256.
pub record Channel : Type 0 where
  pub buffer : List ProgressMessage
  pub closed : Bool

abbrev pub capacity : ℕ
capacity = 256

-- `clients`, and the channels of all clients.
pub record Hub : Type 0 where
  pub clients : ℕ → Option (List ℕ)
  pub channels : ℕ → Channel

-- NewHub, with whatever channels the clients will bring.
abbrev pub new_hub : (ℕ → Channel) → Hub
new_hub channels = record { clients = λ u. none; channels = channels }

abbrev pub update {ℓ} : {A : Type ℓ} → (ℕ → A) → ℕ → A → ℕ → A
update f k v j = if j == k then v else f j

unfoldable pub member : List ℕ → ℕ → Bool
member [] q = false
member (p ∷ ps) q = elim (q == p) [ true ↦ true | false ↦ member ps q ]

-- `clients[client] = true`
unfoldable pub add_client : List ℕ → ℕ → List ℕ
unfolding member
add_client ps q = if member ps q then ps else q ∷ ps

abbrev pub or_empty : Option (List ℕ) → List ℕ
or_empty none = []
or_empty (some ps) = ps

abbrev pub without_client : List ℕ → ℕ → List ℕ
without_client ps q = keep (λ p. not (p == q)) ps

abbrev pub unless_empty : List ℕ → Option (List ℕ)
unless_empty [] = none
unless_empty (p ∷ ps) = some (p ∷ ps)

-- `close(client.send)`
unfoldable pub close_send : (ℕ → Channel) → ℕ → Option (ℕ → Channel)
close_send channels p = elim (channels p).closed [
  | true ↦ none
  | false ↦ some (update channels p (record (channels p) { closed = true }))
]

unfoldable pub has_room : Channel → Bool
has_room channel = ltb (length channel.buffer) capacity

-- The loop of a broadcast over the user's clients: those that stay, and the channels.
unfoldable pub deliver : ProgressMessage → List ℕ → (ℕ → Channel) → Option (List ℕ × (ℕ → Channel))
unfolding has_room
deliver m [] channels = some ([], channels)
deliver m (p ∷ ps) channels = elim (channels p).closed [
  | true ↦ none
  | false ↦ elim (has_room (channels p)) [
    | true ↦
        elim (deliver m ps
          (update channels p (record (channels p) { buffer = (channels p).buffer ++ (m ∷ []) }))) [
            | none ↦ none
            | some (kept, after) ↦ some (p ∷ kept, after)
          ]
    | false ↦ deliver m ps (update channels p (record (channels p) { closed = true }))
  ]
]

unfoldable pub broadcast : ProgressMessage → Hub → Option Hub
broadcast m hub = elim (hub.clients m.user_id) [
  | none ↦ some hub
  | some ps ↦ elim (deliver m ps hub.channels) [
    | none ↦ none
    | some (kept, after) ↦
        some (record { clients = update hub.clients m.user_id (some kept); channels = after })
  ]
]

abbrev pub rest_of : List ProgressMessage → List ProgressMessage
rest_of [] = []
rest_of (m ∷ ms) = ms

-- WritePump of client.go takes a message from its channel.
unfoldable pub drain : ℕ → Hub → Hub
drain p hub =
    let channel = hub.channels p in
    record hub {
      channels = update hub.channels p (record channel { buffer = rest_of channel.buffer });
    }

-- ClientCount
unfoldable pub client_count : Hub → ℕ → ℕ
client_count hub user = length (or_empty (hub.clients user))

module _ (user_of : ℕ → ℕ) where
  unfoldable pub register : ℕ → Hub → Hub
  unfolding add_client
  register p hub = record hub {
    clients =
        update hub.clients (user_of p) (some (add_client (or_empty (hub.clients (user_of p))) p));
  }

  unfoldable pub unregister : ℕ → Hub → Option Hub
  unfolding close_send
  unregister p hub = elim (hub.clients (user_of p)) [
    | none ↦ some hub
    | some ps ↦ elim (member ps p) [
      | false ↦ some hub
      | true ↦ elim (close_send hub.channels p) [
        | none ↦ none
        | some channels ↦ some (record {
          clients = update hub.clients (user_of p) (unless_empty (without_client ps p));
          channels = channels;
        })
      ]
    ]
  ]
