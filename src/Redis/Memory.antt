-- ===== src/Redis/Memory.antt =====
-- A server in memory that never fails: the concrete Redis at which the theorems are applied.
use open_music_player.Prelude.{
  ◌≡◌, ◌≢◌, refl, inl, inr, true, Option, none, some, arith, Text, text_eq, text_eq_iff,
  if◌then◌else◌,
}
use open_music_player.Redis.{KeyValue, KeyValueLaws, reply_of}

abbrev pub write : {V : Type 0} → (Text → Option V) → Text → Option V → Text → Option V
write s k v j = if text_eq j k then v else s j

abbrev pub memory : (V : Type 0) → KeyValue V
memory V = record {
  Server = Text → Option V;
  get = λ s k. (s, reply_of (s k));
  put = λ s k v. (write s k (some v), true);
  del = λ s k. (write s k none, true);
}

pub write_self : {V : Type 0} (s : Text → Option V) (k : Text) (v : Option V) → write s k v k ≡ v
write_self s k v = ground (arith, text_eq_iff k k)

pub write_ne :
    {V : Type 0} (s : Text → Option V) (k j : Text) (v : Option V) → j ≢ k → write s k v j ≡ s j
write_ne s k j v h = ground (arith, text_eq_iff j k)

abbrev pub memory-laws : (V : Type 0) → KeyValueLaws (memory V)
memory-laws V = record {
  content = λ s. s;
  get_reply = λ s k. inr refl;
  get_keeps = λ s k j. refl;
  put_stores = λ s k v h. write_self s k (some v);
  put_fails = λ s k v h. inl (write_self s k (some v));
  put_others = λ s k j v. write_ne s k j (some v);
  del_removes = λ s k h. write_self s k none;
  del_fails = λ s k h. inl (write_self s k none);
  del_others = λ s k j. write_ne s k j none;
}
