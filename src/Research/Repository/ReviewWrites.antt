-- ===== src/Research/Repository/ReviewWrites.antt =====
-- backend/internal/research/postgres_repository.go: Review is made of the writes.
use open_music_player.Prelude.{ℕ, inl, inr, Text, Option-cases}
use open_music_player.Research.Types.{ReviewInput}
use open_music_player.Research.Repository.Sql.{select_where}
use open_music_player.Research.Repository.Tables.{
  event_reviewed, ReviewRow, Db, Repository, Holds, bind-Holds, Holds-returned,
}
use open_music_player.Research.Repository.Review.{
  create_research_decision, replay_review, new_review, review, of_review, review_row, keyed_review,
}
use open_music_player.Research.Repository.Writes.{Write, unchanged, ◌then◌, Writes-trans}
use open_music_player.Research.Repository.OwnerWrites.{Written}

module _ (r : Repository) where
  decision-Writes :
      (id : Text) (row : ReviewRow) (db : Db)
      → Holds (Written r db) (create_research_decision id row db)
  unfolding create_research_decision
  decision-Writes id row db =
      bind-Holds (Written r db) _ _ (λ chosen h. Write.review db db.reviews _ then unchanged _)

  replay_review-Writes :
      (decision_id job_id : Text) (input : ReviewInput) (existing : ReviewRow) (db : Db)
      → Holds (Written r db) (replay_review decision_id job_id input existing db)
  unfolding replay_review
  replay_review-Writes decision_id job_id input existing db =
      bind-Holds (Written r db) _ _ (λ same h.
        elim (Option-cases (select_where (of_review existing.id) db.decisions)) [
          | inl undecided ↦ rw (undecided) (decision-Writes decision_id existing db)
          | inr (decision, there) ↦ rw (there) (unchanged db)
        ])

  new_review-Writes :
      (review_id decision_id job_id owner_id : Text) (number : ℕ) (input : ReviewInput) (db : Db)
      → Holds (Written r db) (new_review review_id decision_id job_id owner_id number input db)
  unfolding new_review
  new_review-Writes review_id decision_id job_id owner_id number input db =
      bind-Holds (Written r db) _ _ (λ revision h0. bind-Holds (Written r db) _ _ (λ chosen h1.
        bind-Holds (Written r db) _ _ (λ decided h2. bind-Holds (Written r db) _ _ (λ after logged.
          Write.review db _ db.decisions
          then Writes-trans r _ decided.0 after
              (Holds-returned (Written r _) _ decided h2 (
                decision-Writes decision_id (review_row review_id job_id revision.id owner_id input)
                  _))
              (Write.append decided.0 after job_id event_reviewed _ logged then unchanged after)))))

  pub review-Writes :
      (review_id decision_id job_id owner_id : Text) (input : ReviewInput) (db : Db)
      → Holds (Written r db) (review r review_id decision_id job_id owner_id input db)
  unfolding review
  review-Writes review_id decision_id job_id owner_id input db =
      bind-Holds (Written r db) _ _ (λ valid h0. bind-Holds (Written r db) _ _ (λ loaded h1.
        elim (Option-cases
          (select_where (keyed_review owner_id input.idempotency_key) db.reviews)) [
            | inl new ↦
                rw (new) (new_review-Writes review_id decision_id job_id owner_id _ input db)
            | inr (existing, there) ↦
                rw (there) (replay_review-Writes decision_id job_id input existing db)
          ]))
