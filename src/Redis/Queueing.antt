-- ===== src/Redis/Queueing.antt =====
-- The Redis client as backend/internal/download/queue.go uses it: values under keys, lists of texts,
-- a transaction that sets a value and pushes its ID, and publishing.
use open_music_player.Prelude.{
  Bool, true, false, some, List, [], ◌∷◌, ◌++◌, ◌≡◌, ◌≢◌, ◌⊎◌, Text, text_eq, if◌then◌else◌,
}
use open_music_player.Redis.{KeyValue, KeyValueLaws, Reply, found, missing, fault, reply_of}

pub record Queueing (V : Type 0) : Type 1 where
  pub values : KeyValue V
  -- LPush
  pub push : values.Server → Text → Text → values.Server × Bool
  -- BRPop
  pub pop : values.Server → Text → values.Server × Reply Text
  -- LPos: whether the list has the text.
  pub find : values.Server → Text → Text → values.Server × Reply (Unit {0})
  -- TxPipeline with Set and LPush, then Exec.
  pub put_push : values.Server → Text → V → Text → Text → values.Server × Bool
  pub publish : values.Server → Text → V → values.Server × Bool

unfoldable pub listed : Text → List Text → Bool
listed x [] = false
listed x (y ∷ ys) = elim (text_eq y x) [ true ↦ true | false ↦ listed x ys ]

-- `items` is what a list holds, the newest first. A call that reports a failure may have happened,
-- as a whole.
pub record QueueingLaws {V : Type 0} (redis : Queueing V) : Type 0 where
  pub stored : KeyValueLaws redis.values
  pub items : redis.values.Server → Text → List Text
  pub get_items :
      (s : redis.values.Server) (k l : Text) → items (redis.values.get s k).0 l ≡ items s l
  pub put_items :
      (s : redis.values.Server) (k l : Text) (v : V)
      → items (redis.values.put s k v).0 l ≡ items s l
  pub del_items :
      (s : redis.values.Server) (k l : Text) → items (redis.values.del s k).0 l ≡ items s l
  pub push_pushes :
      (s : redis.values.Server) (l x : Text)
      → (redis.push s l x).1 ≡ true
      → items (redis.push s l x).0 l ≡ x ∷ items s l
  pub push_fails :
      (s : redis.values.Server) (l x : Text)
      → (redis.push s l x).1 ≡ false
      → (items (redis.push s l x).0 l ≡ x ∷ items s l) ⊎ (items (redis.push s l x).0 l ≡ items s l)
  pub push_content :
      (s : redis.values.Server) (l x k : Text)
      → stored.content (redis.push s l x).0 k ≡ stored.content s k
  pub pop_found :
      (s : redis.values.Server) (l x : Text)
      → (redis.pop s l).1 ≡ found x
      → items s l ≡ items (redis.pop s l).0 l ++ (x ∷ [])
  pub pop_missing :
      (s : redis.values.Server) (l : Text)
      → (redis.pop s l).1 ≡ missing
      → items (redis.pop s l).0 l ≡ items s l
  pub pop_content :
      (s : redis.values.Server) (l k : Text)
      → stored.content (redis.pop s l).0 k ≡ stored.content s k
  pub find_reply :
      (s : redis.values.Server) (l x : Text)
      → ((redis.find s l x).1 ≡ fault)
        ⊎ ((redis.find s l x).1 ≡ (if listed x (items s l) then found tt else missing))
  pub find_items :
      (s : redis.values.Server) (l x m : Text) → items (redis.find s l x).0 m ≡ items s m
  pub find_content :
      (s : redis.values.Server) (l x k : Text)
      → stored.content (redis.find s l x).0 k ≡ stored.content s k
  pub put_push_happens :
      (s : redis.values.Server) (k : Text) (v : V) (l x : Text)
      → (redis.put_push s k v l x).1 ≡ true
      → (stored.content (redis.put_push s k v l x).0 k ≡ some v)
        × (items (redis.put_push s k v l x).0 l ≡ x ∷ items s l)
  pub put_push_fails :
      (s : redis.values.Server) (k : Text) (v : V) (l x : Text)
      → (redis.put_push s k v l x).1 ≡ false
      → ((stored.content (redis.put_push s k v l x).0 k ≡ some v)
          × (items (redis.put_push s k v l x).0 l ≡ x ∷ items s l))
        ⊎ ((stored.content (redis.put_push s k v l x).0 k ≡ stored.content s k)
            × (items (redis.put_push s k v l x).0 l ≡ items s l))
  pub put_push_others :
      (s : redis.values.Server) (k : Text) (v : V) (l x j : Text)
      → j ≢ k
      → stored.content (redis.put_push s k v l x).0 j ≡ stored.content s j
  pub publish_items :
      (s : redis.values.Server) (c : Text) (v : V) (l : Text)
      → items (redis.publish s c v).0 l ≡ items s l
  pub publish_content :
      (s : redis.values.Server) (c : Text) (v : V) (k : Text)
      → stored.content (redis.publish s c v).0 k ≡ stored.content s k

-- No call reports an error, as while the connection holds.
pub record IsReliable {V : Type 0} {redis : Queueing V} (laws : QueueingLaws redis) : Type 0 where
  pub gets :
      (s : redis.values.Server) (k : Text)
      → (redis.values.get s k).1 ≡ reply_of (laws.stored.content s k)
  pub puts : (s : redis.values.Server) (k : Text) (v : V) → (redis.values.put s k v).1 ≡ true
  pub pushes : (s : redis.values.Server) (l x : Text) → (redis.push s l x).1 ≡ true
  pub finds :
      (s : redis.values.Server) (l x : Text)
      → (redis.find s l x).1 ≡ (if listed x (laws.items s l) then found tt else missing)
  pub publishes : (s : redis.values.Server) (c : Text) (v : V) → (redis.publish s c v).1 ≡ true
