-- ===== src/PlayQueue/ServiceTests.antt =====
-- Runs of the methods of the queue service against a server in memory.
use open_music_player.Prelude.{
  ◌≡◌, refl, ◌⊎◌, [], ◌∷◌, Option, none, some, arith, Text, codes, text_eq, pos, trim_space,
}
use open_music_player.Redis.Memory.{memory, memory-laws}
use open_music_player.PlayQueue.Types.{QueueState, ok, err, store_failure}
use open_music_player.PlayQueue.Edit.{
  insert_at, write_at, resolve_insert_position, insert_item, recalculate_item, recalculate_from,
  finish, track_item, source_item, find_item, has_source, current_after_remove, remove_at,
}
use open_music_player.PlayQueue.Consistent.{IsConsistent}
use open_music_player.PlayQueue.Service.{
  get_queue, save_result, ensure_source_candidate, remove_queue_item, locate, remove_from_queue,
}
use open_music_player.PlayQueue.Kept.{AllConsistent}
use open_music_player.PlayQueue.Stored.{Reported, adds, perform, perform_lem}
use open_music_player.PlayQueue.Intent.{ensure_twice}
use open_music_player.PlayQueue.Tests.{
  clock, queue_of, one, three, candidate, pending, playing_two, playing_two-IsValid,
}

abbrev user : Text
user = codes "u"

abbrev empty_server : Text → Option QueueState
empty_server k = none

empty_server-AllConsistent : AllConsistent (memory-laws QueueState) empty_server
empty_server-AllConsistent k state e = absurd (cc e)

perform_lem_example : Reported (memory-laws QueueState) user (
    perform
      (memory QueueState)
      empty_server
      user
      (adds (pos 1) (codes "last") (codes "i1") 10 clock))
perform_lem_example =
    perform_lem (memory-laws QueueState) empty_server user
      (adds (pos 1) (codes "last") (codes "i1") 10 clock) empty_server-AllConsistent

abbrev added : QueueState
added = queue_of (pending ∷ []) 0

ensures_once :
    (ensure_source_candidate
      (memory QueueState)
      empty_server
      user
      (codes "s1")
      candidate
      (codes "job1")
      (codes "last")
      10
      clock).1
    ≡ ok added
unfolding ensure_source_candidate get_queue save_result insert_item resolve_insert_position
    insert_at write_at finish recalculate_from recalculate_item source_item has_source text_eq
    trim_space
ensures_once = refl

ensure_twice_example :
    let first =
      ensure_source_candidate
        (memory QueueState)
        empty_server
        user
        (codes "s1")
        candidate
        (codes "job1")
        (codes "last")
        10
        clock in
    let second =
      ensure_source_candidate
        (memory QueueState)
        first.0
        user
        (codes "s1")
        candidate
        (codes "job1")
        (codes "next")
        20
        clock in
    ((second.1 ≡ ok added) ⊎ (second.1 ≡ err store_failure)) × ((k : Text) → second.0 k ≡ first.0 k)
ensure_twice_example =
    ensure_twice (memory-laws QueueState) empty_server user (codes "s1") candidate (codes "job1")
      (codes "last") 10 clock (codes "next") 20 clock added empty_server-AllConsistent ensures_once

abbrev server_with_three : Text → Option QueueState
server_with_three k = some playing_two

playing_two-IsConsistent : IsConsistent playing_two
playing_two-IsConsistent = record {
  numbered = playing_two-IsValid.numbered;
  settled = playing_two-IsValid.settled;
  bounded = unfold finish recalculate_from in omega arith;
}

abbrev left : QueueState
left = queue_of (one ∷ three ∷ []) 1

removes_by_id :
    (remove_queue_item (memory QueueState) server_with_three user (codes "i2") 10 clock).1 ≡ ok left
unfolding remove_queue_item locate remove_from_queue get_queue save_result find_item remove_at
    current_after_remove finish recalculate_from recalculate_item track_item text_eq
removes_by_id = refl
