-- ===== src/Redis/QueueMemory.antt =====
-- A server in memory with values and lists that never fails: the concrete Redis at which the theorems
-- on the download queue are applied.
use open_music_player.Prelude.{
  ◌≡◌, refl, ap, ◌∙◌, inl, inr, true, Option, none, some, List, [], ◌∷◌, ◌++◌, arith, Text, text_eq,
  text_eq_iff, if◌then◌else◌, Option-cases,
}
use open_music_player.Redis.{KeyValue, KeyValueLaws, Reply, found, missing, reply_of}
use open_music_player.Redis.Memory.{write, write_self, write_ne}
use open_music_player.Redis.Queueing.{Queueing, QueueingLaws, IsReliable, listed}

abbrev pub Contents : Type 0 → Type 0
Contents V = (Text → Option V) × (Text → List Text)

abbrev pub write_list : (Text → List Text) → Text → List Text → Text → List Text
write_list s l xs m = if text_eq m l then xs else s m

pub write_list_self : (s : Text → List Text) (l : Text) (xs : List Text) → write_list s l xs l ≡ xs
write_list_self s l xs = ground (arith, text_eq_iff l l)

-- A list without its last text, and that text.
abbrev pub split_last : List Text → Option (List Text × Text)
split_last [] = none
split_last (x ∷ xs) = elim (split_last xs) [
  | none ↦ some ([], x)
  | some (rest, last) ↦ some (x ∷ rest, last)
]

abbrev pub pop_split :
    {V : Type 0} → Contents V → Text → Option (List Text × Text) → Contents V × Reply Text
pop_split (values, lists) l none = ((values, lists), missing)
pop_split (values, lists) l (some (rest, last)) = ((values, write_list lists l rest), found last)

abbrev pub values_memory : (V : Type 0) → KeyValue V
values_memory V = record {
  Server = Contents V;
  get = λ s k. (s, reply_of (s.0 k));
  put = λ s k v. ((write s.0 k (some v), s.1), true);
  del = λ s k. ((write s.0 k none, s.1), true);
}

abbrev pub queue_memory : (V : Type 0) → Queueing V
queue_memory V = record {
  values = values_memory V;
  push = λ s l x. ((s.0, write_list s.1 l (x ∷ s.1 l)), true);
  pop = λ s l. pop_split s l (split_last (s.1 l));
  find = λ s l x. (s, if listed x (s.1 l) then found tt else missing);
  put_push = λ s k v l x. ((write s.0 k (some v), write_list s.1 l (x ∷ s.1 l)), true);
  publish = λ s c v. (s, true);
}

abbrev pub values_memory-laws : (V : Type 0) → KeyValueLaws (values_memory V)
values_memory-laws V = record {
  content = λ s. s.0;
  get_reply = λ s k. inr refl;
  get_keeps = λ s k j. refl;
  put_stores = λ s k v h. write_self s.0 k (some v);
  put_fails = λ s k v h. inl (write_self s.0 k (some v));
  put_others = λ s k j v. write_ne s.0 k j (some v);
  del_removes = λ s k h. write_self s.0 k none;
  del_fails = λ s k h. inl (write_self s.0 k none);
  del_others = λ s k j. write_ne s.0 k j none;
}

split_last-append :
    (xs rest : List Text) (last : Text)
    → split_last xs ≡ some (rest, last)
    → xs ≡ rest ++ (last ∷ [])
split_last-append [] rest last h = absurd (cc h)
split_last-append (x ∷ xs) rest last h = elim (Option-cases (split_last xs)) [
  | inl nothing ↦ ground (arith, nothing, h, split_last-none xs nothing)
  | inr ((tail, end), e) ↦ ground (arith, e, h, split_last-append xs tail end e)
]
  where
    split_last-none : (xs : List Text) → split_last xs ≡ none → xs ≡ []
    split_last-none [] e = refl
    split_last-none (y ∷ ys) e = elim (Option-cases (split_last ys)) [
      | inl n ↦ absurd (ground (arith, n, e))
      | inr (p, s) ↦ absurd (ground (arith, s, e))
    ]

module _ {V : Type 0} (values : Text → Option V) (lists : Text → List Text) (l : Text) where
  pub pop_split-found :
      (split : Option (List Text × Text)) (x : Text)
      → split_last (lists l) ≡ split
      → (pop_split (values, lists) l split).1 ≡ found x
      → lists l ≡ (pop_split (values, lists) l split).0.1 l ++ (x ∷ [])
  pop_split-found none x e h = absurd (cc h)
  pop_split-found (some (rest, last)) x e h =
      split_last-append (lists l) rest last e ∙ ground (arith, write_list_self lists l rest, h)

  pub pop_split-missing :
      (split : Option (List Text × Text))
      → (pop_split (values, lists) l split).1 ≡ missing
      → (pop_split (values, lists) l split).0.1 l ≡ lists l
  pop_split-missing none h = refl
  pop_split-missing (some (rest, last)) h = absurd (cc h)

  pub pop_split-values :
      (split : Option (List Text × Text)) → (pop_split (values, lists) l split).0.0 ≡ values
  pop_split-values none = refl
  pop_split-values (some (rest, last)) = refl

abbrev pub queue_memory-laws : (V : Type 0) → QueueingLaws (queue_memory V)
queue_memory-laws V = record {
  stored = values_memory-laws V;
  items = λ s. s.1;
  get_items = λ s k l. refl;
  put_items = λ s k l v. refl;
  del_items = λ s k l. refl;
  push_pushes = λ s l x h. write_list_self s.1 l (x ∷ s.1 l);
  push_fails = λ s l x h. inl (write_list_self s.1 l (x ∷ s.1 l));
  push_content = λ s l x k. refl;
  pop_found = λ s l x. pop_split-found s.0 s.1 l (split_last (s.1 l)) x refl;
  pop_missing = λ s l. pop_split-missing s.0 s.1 l (split_last (s.1 l));
  pop_content = λ s l k. ap (λ f. f k) (pop_split-values s.0 s.1 l (split_last (s.1 l)));
  find_reply = λ s l x. inr refl;
  find_items = λ s l x m. refl;
  find_content = λ s l x k. refl;
  put_push_happens = λ s k v l x h. (write_self s.0 k (some v), write_list_self s.1 l (x ∷ s.1 l));
  put_push_fails =
      λ s k v l x h. inl (write_self s.0 k (some v), write_list_self s.1 l (x ∷ s.1 l));
  put_push_others = λ s k v l x j. write_ne s.0 k j (some v);
  publish_items = λ s c v l. refl;
  publish_content = λ s c v k. refl;
}

abbrev pub queue_memory-IsReliable : (V : Type 0) → IsReliable (queue_memory-laws V)
queue_memory-IsReliable V = record {
  gets = λ s k. refl;
  puts = λ s k v. refl;
  pushes = λ s l x. refl;
  finds = λ s l x. refl;
  publishes = λ s c v. refl;
}
