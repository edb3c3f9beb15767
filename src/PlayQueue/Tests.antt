-- ===== src/PlayQueue/Tests.antt =====
-- Runs of the playback queue of backend/internal/queue/queue.go on concrete queues.
use mathlib.Core.List.{Perm}
use open_music_player.Prelude.{
  ◌<◌, ℕ, ◌≡◌, ◌≢◌, refl, inl, inr, true, false, List, [], ◌∷◌, some, arith, codes, text_eq,
  trim_space, atoi, length, get_elem?, pos,
}
use open_music_player.PlayQueue.Types.{
  SourceCandidate, QueueItem, QueueState, ok, err, invalid_position, queued,
}
use open_music_player.PlayQueue.Edit.{
  Clock, write_at, insert_at, resolve_insert_position, recalculate_item, recalculate_from, finish,
  track_item, source_item, insert_item, current_after_remove, remove_at, current_after_move,
  move_item, reorder_at, find_item, retry_state,
}
use open_music_player.PlayQueue.Splice.{cut_at}
use open_music_player.PlayQueue.Recalculate.{identities}
use open_music_player.PlayQueue.Current.{
  IsValid, current, finish-IsValid, insert_item_keeps_current, insert_first_loses_current,
}
use open_music_player.PlayQueue.Remove.{remove_at_lem}
use open_music_player.PlayQueue.Move.{moved, reorder_at_lem, reorder_at_back}
use open_music_player.PlayQueue.ById.{retry_state_lem}

abbrev pub clock : Clock
clock = record { recalculated_at = 11; saved_at = 12 }

abbrev pub queue_of : List QueueItem → ℕ → QueueState
queue_of items i = finish clock items i

abbrev pub one : QueueItem
one = track_item (codes "i1") (pos 1) 10

abbrev pub two : QueueItem
two = track_item (codes "i2") (pos 2) 10

abbrev pub three : QueueItem
three = track_item (codes "i3") (pos 3) 10

abbrev pub playing_two : QueueState
playing_two = queue_of (one ∷ two ∷ three ∷ []) 1

pub playing_two-IsValid : IsValid playing_two
playing_two-IsValid = finish-IsValid clock (one ∷ two ∷ three ∷ []) 1 (inr (omega arith))

-- The whole of the pure code, for tests by computation.
abbrev pub four : QueueItem
four = track_item (codes "i4") (pos 4) 10

abbrev after_four : QueueState
after_four = queue_of (four ∷ one ∷ two ∷ three ∷ []) 2

inserts_first : insert_item clock playing_two four (codes " 0 ") ≡ ok after_four
unfolding insert_item resolve_insert_position trim_space atoi text_eq insert_at write_at finish
    recalculate_from recalculate_item track_item
inserts_first = refl

refuses_words : insert_item clock playing_two four (codes "soon") ≡ err invalid_position
unfolding insert_item resolve_insert_position trim_space atoi text_eq finish recalculate_from
    track_item
refuses_words = refl

insert_item_keeps_current_example : (current after_four ≡ current playing_two) × IsValid after_four
insert_item_keeps_current_example =
    insert_item_keeps_current clock playing_two four (codes " 0 ") after_four
      (unfold finish recalculate_from in omega arith) inserts_first

abbrev nothing_queued : QueueState
nothing_queued = queue_of [] 0

zero_index : atoi (trim_space (codes "0")) ≡ some (pos 0)
unfolding atoi trim_space
zero_index = refl

insert_first_loses_current_example :
    (after : QueueState) × (insert_item clock nothing_queued four (codes "0") ≡ ok after)
    × (length after.items ≡ 1)
    × (after.current_position ≡ 1)
    × ¬ IsValid after
insert_first_loses_current_example =
    insert_first_loses_current clock nothing_queued four (codes "0")
      (finish-IsValid clock [] 0 (inl (refl, refl))) (unfold finish recalculate_from in refl)
      zero_index

abbrev without_two : QueueState
without_two = queue_of (one ∷ three ∷ []) 1

removes_two : remove_at clock playing_two (pos 1) ≡ ok without_two
unfolding remove_at current_after_remove finish recalculate_from recalculate_item track_item text_eq
removes_two = refl

remove_at_lem_example :
    IsValid without_two
    × (identities without_two.items ≡ cut_at 1 (identities playing_two.items))
    × (1 ≢ playing_two.current_position → current without_two ≡ current playing_two)
    × (1 ≡ playing_two.current_position
        → 2 < length playing_two.items
        → current without_two ≡ get_elem? (identities playing_two.items) 2)
    × (1 ≡ playing_two.current_position
        → 2 ≡ length playing_two.items
        → without_two.current_position ≡ 0)
remove_at_lem_example =
    remove_at_lem clock playing_two 1 without_two playing_two-IsValid removes_two

abbrev two_last : QueueState
two_last = queue_of (one ∷ three ∷ two ∷ []) 2

moves_two : reorder_at clock playing_two (pos 1) (pos 2) ≡ ok (two_last, true)
unfolding reorder_at move_item current_after_move insert_at write_at finish recalculate_from
    recalculate_item track_item text_eq
moves_two = refl

moves_back : reorder_at clock two_last (pos 2) (pos 1) ≡ ok (playing_two, true)
unfolding reorder_at move_item current_after_move insert_at write_at finish recalculate_from
    recalculate_item track_item text_eq
moves_back = refl

reorder_at_lem_example :
    IsValid two_last
    × (identities two_last.items ≡ moved 1 2 (identities playing_two.items))
    × Perm (identities two_last.items) (identities playing_two.items)
    × (get_elem? (identities two_last.items) 2 ≡ get_elem? (identities playing_two.items) 1)
    × (current two_last ≡ current playing_two)
reorder_at_lem_example =
    reorder_at_lem clock playing_two 1 2 two_last true playing_two-IsValid moves_two

reorder_at_back_example :
    (identities playing_two.items ≡ identities playing_two.items)
    × (current playing_two ≡ current playing_two)
reorder_at_back_example =
    reorder_at_back clock clock playing_two 1 2 two_last playing_two true true playing_two-IsValid
      moves_two moves_back

abbrev pub candidate : SourceCandidate
candidate = record {
  candidate_id = codes "c1";
  provider = codes "youtube";
  source_id = codes "v1";
  source_url = codes "https://example.com/v1";
  title = codes "Song";
  artist = [];
  album = [];
  uploader = [];
  duration_ms = 1000;
  thumbnail_url = [];
  downloadable = true;
  metadata = codes "{}";
}

abbrev pub pending : QueueItem
pending = source_item (codes "s1") candidate (codes "job1") 10

abbrev pub with_pending : QueueState
with_pending = queue_of (one ∷ pending ∷ []) 0

finds_pending : find_item (codes "s1") with_pending.items ≡ some (recalculate_item 11 1 pending)
unfolding find_item finish recalculate_from recalculate_item track_item source_item text_eq
finds_pending = refl

retry_state_lem_example :
    (after : QueueState) × (retry_state 20 21 with_pending (codes "s1") ≡ ok (after, codes "job1"))
    × (identities after.items ≡ identities with_pending.items)
    × (after.current_position ≡ 0)
    × (retried : QueueItem) × (find_item (codes "s1") after.items ≡ some retried)
    × (retried.playback_state ≡ queued)
    × (retried.progress ≡ 0)
    × (retried.can_play ≡ false)
    × (retried.can_retry ≡ false)
unfolding recalculate_item source_item finish
retry_state_lem_example =
    retry_state_lem 20 21 with_pending (codes "s1") (recalculate_item 11 1 pending) finds_pending
      (λ e. cc e)
