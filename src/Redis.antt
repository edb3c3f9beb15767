-- ===== src/Redis.antt =====
-- The Redis client (github.com/redis/go-redis/v9), which the backend calls and does not implement:
-- single values under string keys, as backend/internal/queue/queue.go uses it.
pub mod Memory
pub mod Queueing
pub mod QueueMemory
use open_music_player.Prelude.{Bool, true, false, Option, none, some, ◌≡◌, ◌≢◌, ◌⊎◌, Text}

-- `missing` is redis.Nil, `fault` any other error.
pub data Reply (V : Type 0) : Type 0 where
  found : V → Reply V
  missing : Reply V
  fault : Reply V

abbrev pub reply_of : {V : Type 0} → Option V → Reply V
reply_of none = missing
reply_of (some v) = found v

-- Values stand for their JSON text. Each call may fail; it returns the server after it.
pub record KeyValue (V : Type 0) : Type 1 where
  pub Server : Type 0
  pub get : Server → Text → Server × Reply V
  pub put : Server → Text → V → Server × Bool
  pub del : Server → Text → Server × Bool

-- The documented behaviour that the code relies on, while no other client writes and no entry
-- expires: `content` is what the server holds. A read may fail, and otherwise returns the content;
-- a write that reports success has happened; one that reports a failure may have happened.
pub record KeyValueLaws {V : Type 0} (redis : KeyValue V) : Type 0 where
  pub content : redis.Server → Text → Option V
  pub get_reply :
      (s : redis.Server) (k : Text)
      → ((redis.get s k).1 ≡ fault) ⊎ ((redis.get s k).1 ≡ reply_of (content s k))
  pub get_keeps : (s : redis.Server) (k j : Text) → content (redis.get s k).0 j ≡ content s j
  pub put_stores :
      (s : redis.Server) (k : Text) (v : V)
      → (redis.put s k v).1 ≡ true
      → content (redis.put s k v).0 k ≡ some v
  pub put_fails :
      (s : redis.Server) (k : Text) (v : V)
      → (redis.put s k v).1 ≡ false
      → (content (redis.put s k v).0 k ≡ some v) ⊎ (content (redis.put s k v).0 k ≡ content s k)
  pub put_others :
      (s : redis.Server) (k j : Text) (v : V) → j ≢ k → content (redis.put s k v).0 j ≡ content s j
  pub del_removes :
      (s : redis.Server) (k : Text) → (redis.del s k).1 ≡ true → content (redis.del s k).0 k ≡ none
  pub del_fails :
      (s : redis.Server) (k : Text)
      → (redis.del s k).1 ≡ false
      → (content (redis.del s k).0 k ≡ none) ⊎ (content (redis.del s k).0 k ≡ content s k)
  pub del_others :
      (s : redis.Server) (k j : Text) → j ≢ k → content (redis.del s k).0 j ≡ content s j
