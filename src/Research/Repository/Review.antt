-- ===== src/Research/Repository/Review.antt =====
-- backend/internal/research/postgres_repository.go: Review. The UUIDs of the review and of the decision
-- are arguments; an empty reason is a NULL one.
use open_music_player.Prelude.{
  ℕ, Bool, true, false, not, ◌&&◌, ◌||◌, none, some, [], ◌∷◌, ◌++◌, if◌then◌else◌, ◌==◌, Text,
  text_eq,
}
use open_music_player.Research.Types.{
  ReviewAction, review_accepted, review_overridden, unknown_action, ReviewInput, CandidateSnapshot,
  RevisionPayload, RawPayload, invalid_review,
}
use open_music_player.Research.State.{validate_review}
use open_music_player.Research.Repository.Sql.{select_where}
use open_music_player.Research.Repository.Tables.{
  event_reviewed, EventPayload, ReviewRow, DecisionRow, RevisionRow, Db, Repository, state_error,
  not_found, idempotency_conflict, Answer, returned, failed, ◌>>=◌, ◌>>◌, require, or_fail, checked,
}
use open_music_player.Research.Repository.Queries.{append_event, no_payload}
use open_music_player.Research.Repository.Loads.{load_job, is_dark}

abbrev pub owned_revision : Text → Text → RevisionRow → Bool
owned_revision revision_id owner_id v = text_eq v.id revision_id && text_eq v.user_id owner_id

-- Which candidate an action may name, beside the recommended one.
unfoldable pub refused_choice : ReviewAction → Text → Text → Bool
refused_choice review_accepted candidate recommended = not (text_eq candidate recommended)
refused_choice review_overridden candidate recommended = text_eq candidate recommended
refused_choice (unknown_action s) candidate recommended = false

abbrev pub first_recommendation : RawPayload → Answer (Text × RevisionPayload)
first_recommendation none = failed (state_error invalid_review)
first_recommendation (some payload) = elim payload.recommendations [
  | [] ↦ failed (state_error invalid_review)
  | recommended ∷ others ↦ returned (recommended.candidate_id, payload)
]

-- The recommended candidate, and the selected one.
unfoldable pub research_review_candidate :
    Db → Text → Text → Text → ReviewAction → Answer (Text × CandidateSnapshot)
unfolding refused_choice
research_review_candidate db owner_id revision_id candidate_id action = do
  row ← or_fail (select_where (owned_revision revision_id owner_id) db.revisions) not_found
  (recommended, payload) ← first_recommendation row.result_snapshot
  selected ←
      or_fail (select_where (λ c. text_eq c.candidate_id candidate_id) payload.candidates)
        (state_error invalid_review)
  require (not (not selected.downloadable || refused_choice action candidate_id recommended))
      (state_error invalid_review)
  returned (recommended, selected)

-- The decision of a review that is stored.
unfoldable pub create_research_decision : Text → ReviewRow → Db → Answer (Db × DecisionRow)
unfolding research_review_candidate
create_research_decision id row db = do
  (recommended, selected) ←
      research_review_candidate db row.user_id row.revision_id row.candidate_id row.action
  let decision : DecisionRow = record {
    id = id;
    research_review_id = row.id;
    user_id = row.user_id;
    selected_candidate_id = row.candidate_id;
    recommended_candidate_id = recommended;
    action = row.action;
    reason = row.reason;
    selected_candidate = selected;
  }
  returned (record db { decisions = db.decisions ++ (decision ∷ []) }, decision)

abbrev pub same_action : ReviewAction → ReviewAction → Bool
same_action review_accepted review_accepted = true
same_action review_overridden review_overridden = true
same_action (unknown_action s) (unknown_action t) = text_eq s t
same_action _ _ = false

abbrev pub same_review : Text → ReviewInput → ReviewRow → Bool
same_review job_id input row =
    text_eq row.job_id job_id
    && text_eq row.candidate_id input.candidate_id
    && same_action row.action input.action
    && text_eq row.reason input.reason

abbrev pub of_review : Text → DecisionRow → Bool
of_review review_id d = text_eq d.research_review_id review_id

-- A review from before there were decisions gets its decision now.
unfoldable pub replay_review :
    Text → Text → ReviewInput → ReviewRow → Db → Answer (Db × DecisionRow)
unfolding create_research_decision
replay_review decision_id job_id input existing db = do
  require (same_review job_id input existing) idempotency_conflict
  elim (select_where (of_review existing.id) db.decisions) [
    | some decision ↦ returned (db, decision)
    | none ↦ create_research_decision decision_id existing db
  ]

abbrev pub numbered_revision : Text → Text → ℕ → RevisionRow → Bool
numbered_revision job_id owner_id number v =
    text_eq v.job_id job_id && text_eq v.user_id owner_id && v.revision_number == number

abbrev pub add_review : ReviewRow → Db → Db
add_review row db = record db { reviews = db.reviews ++ (row ∷ []) }

abbrev pub review_row : Text → Text → Text → Text → ReviewInput → ReviewRow
review_row review_id job_id revision_id owner_id input = record {
  id = review_id;
  job_id = job_id;
  revision_id = revision_id;
  user_id = owner_id;
  candidate_id = input.candidate_id;
  action = input.action;
  reason = input.reason;
  idempotency_key = input.idempotency_key;
}

-- The output of a dark launch drives no decision.
unfoldable pub new_review :
    Text → Text → Text → Text → ℕ → ReviewInput → Db → Answer (Db × DecisionRow)
unfolding research_review_candidate create_research_decision append_event
new_review review_id decision_id job_id owner_id number input db = do
  revision ←
      or_fail (select_where (numbered_revision job_id owner_id number) db.revisions) not_found
  research_review_candidate db owner_id revision.id input.candidate_id input.action
  let row = review_row review_id job_id revision.id owner_id input
  (decided, decision) ← create_research_decision decision_id row (add_review row db)
  let payload : EventPayload = record no_payload {
    revision_id = some revision.id;
    revision = some number;
  }
  after ← append_event job_id event_reviewed payload decided
  returned (after, decision)

abbrev pub keyed_review : Text → Text → ReviewRow → Bool
keyed_review owner_id key row = text_eq row.user_id owner_id && text_eq row.idempotency_key key

unfoldable pub review :
    Repository → Text → Text → Text → Text → ReviewInput → Db → Answer (Db × DecisionRow)
unfolding load_job replay_review new_review
review r review_id decision_id job_id owner_id input db = do
  checked (validate_review input)
  (job, degradation) ← load_job db job_id owner_id
  let dark = is_dark job.assignment && not r.surface_deep_agent_revisions
  let number = if dark then 1 else job.latest_revision
  elim (select_where (keyed_review owner_id input.idempotency_key) db.reviews) [
    | some existing ↦ replay_review decision_id job_id input existing db
    | none ↦ new_review review_id decision_id job_id owner_id number input db
  ]
