-- ===== src/Research/Repository/Tables.antt =====
-- backend/internal/research/postgres_repository.go and repository.go: the rows, the repository's
-- configuration, its errors and results. Instants are counted in nanoseconds from the epoch; the
-- columns that only record when a row changed are left out.
use open_music_player.Prelude.{
  ℕ, zero, suc, ◌≡◌, refl, ap, subst, Bool, true, false, Option, none, some, List, Text, ℤ, pos,
  negsuc,
}
use open_music_player.Research.Types.{
  JobStatus, RunStatus, RevisionStage, VariantAssignment, DegradationCode, Degradation, Job,
  TerminalTelemetry, CandidateSnapshot, RawPayload, StateError, ok, err, ReviewAction,
}
use open_music_player.Research.Types

pub data FailureKind : Type 0 where
  failure_transient failure_terminal failure_safety failure_validation failure_timeout : FailureKind

pub data EventKind : Type 0 where
  event_created event_revision_appended event_claimed event_lease_renewed event_lease_recovered :
      EventKind
  event_degraded event_cancel_requested event_cancelled event_retried event_completed : EventKind
  event_reviewed event_runner_terminal : EventKind

pub data RevisionKind : Type 0 where
  revision_baseline revision_enhancement : RevisionKind

pub record JobRow : Type 0 where
  pub id : Text
  pub user_id : Text
  pub idempotency_key : Text
  pub request_hash : Text
  pub retry_safe : Bool
  pub assignment : VariantAssignment
  pub status : JobStatus
  pub cancel_requested : Bool
  pub degradation_code : Option DegradationCode
  pub failure_class : Option FailureKind
  pub attempt_count : ℕ
  pub max_attempts : ℕ
  pub next_attempt_at : Option ℕ
  pub latest_revision_number : ℕ
  pub event_sequence : ℕ
  pub created_at : ℕ

pub record RunRow : Type 0 where
  pub id : Text
  pub job_id : Text
  pub user_id : Text
  pub attempt : ℕ
  pub status : RunStatus
  pub lease_owner : Text
  pub lease_token : Text
  pub lease_until : ℕ
  pub failure_class : Option FailureKind
  pub failure_code : Option DegradationCode
  pub retryable : Bool
  pub slot_released : Bool
  pub terminal_telemetry : Option TerminalTelemetry

pub record RevisionRow : Type 0 where
  pub id : Text
  pub job_id : Text
  pub user_id : Text
  pub run_id : Option Text
  pub kind : RevisionKind
  pub revision_number : ℕ
  pub stage : RevisionStage
  pub result_snapshot : RawPayload

-- An absent field is `none`.
pub record EventPayload : Type 0 where
  pub run_id : Option Text
  pub revision_id : Option Text
  pub revision : Option ℕ
  pub degradation : Option Degradation
  pub telemetry : Option TerminalTelemetry

pub record EventRow : Type 0 where
  pub job_id : Text
  pub sequence : ℕ
  pub kind : EventKind
  pub payload : EventPayload

pub record ReviewRow : Type 0 where
  pub id : Text
  pub job_id : Text
  pub revision_id : Text
  pub user_id : Text
  pub candidate_id : Text
  pub action : ReviewAction
  pub reason : Text
  pub idempotency_key : Text

-- A SourceSelectionDecision of a review.
pub record DecisionRow : Type 0 where
  pub id : Text
  pub research_review_id : Text
  pub user_id : Text
  pub selected_candidate_id : Text
  pub recommended_candidate_id : Text
  pub action : ReviewAction
  pub reason : Text
  pub selected_candidate : CandidateSnapshot

-- `budgets` by user and day, `slots` by user: the tables whose primary keys those are.
pub record Db : Type 0 where
  pub jobs : List JobRow
  pub runs : List RunRow
  pub revisions : List RevisionRow
  pub events : List EventRow
  pub budgets : Text → ℕ → Option ℕ
  pub slots : Text → Option ℕ
  pub reviews : List ReviewRow
  pub decisions : List DecisionRow

pub record Repository : Type 0 where
  pub daily_units_per_attempt : ℕ
  pub daily_limit : ℕ
  pub max_concurrent_runs_per_user : ℕ
  pub surface_deep_agent_revisions : Bool

abbrev pub positive_or : ℕ → ℤ → ℕ
positive_or standard (pos zero) = standard
positive_or standard (pos (suc n)) = suc n
positive_or standard (negsuc n) = standard

-- The limits of a PostgresRepositoryConfig.
unfoldable pub new_postgres_repository : ℤ → ℤ → ℤ → Bool → Repository
new_postgres_repository units limit concurrent surface = record {
  daily_units_per_attempt = positive_or 1 units;
  daily_limit = positive_or 10 limit;
  max_concurrent_runs_per_user = positive_or 1 concurrent;
  surface_deep_agent_revisions = surface;
}

pub record Revision : Type 0 where
  pub id : Text
  pub job_id : Text
  pub number : ℕ
  pub kind : RevisionKind
  pub payload : RawPayload

pub record Snapshot : Type 0 where
  pub job : Job
  pub revisions : List Revision
  pub latest_degradation : Option Degradation
  pub latest_terminal_telemetry : Option TerminalTelemetry
  pub surface_deep_agent_revisions : Bool

pub record Run : Type 0 where
  pub id : Text
  pub job_id : Text
  pub worker_id : Text
  pub lease_token : Text
  pub status : RunStatus
  pub attempt : ℕ
  pub lease_expires_at : ℕ

pub record Claim : Type 0 where
  pub snapshot : Snapshot
  pub run : Run

-- `no_rows` is sql.ErrNoRows where the code does not replace it, `constraint_violation` a statement
-- that a key or a check of the schema refuses.
pub data RepositoryError : Type 0 where
  state_error : StateError → RepositoryError
  not_found lease_lost no_job_available idempotency_conflict no_rows constraint_violation :
      RepositoryError

pub data Answer {ℓ} (A : Type ℓ) : Type ℓ where
  returned : A → Answer A
  failed : RepositoryError → Answer A

infixl 5 ◌>>=◌ ◌>>◌
unfoldable pub ◌>>=◌ {ℓ κ} : {A : Type ℓ} {B : Type κ} → Answer A → (A → Answer B) → Answer B
returned a >>= k = k a
failed e >>= k = failed e

abbrev pub ◌>>◌ {ℓ κ} : {A : Type ℓ} {B : Type κ} → Answer A → Answer B → Answer B
m >> k = m >>= λ _. k

abbrev pub require : Bool → RepositoryError → Answer (Unit {0})
require true e = returned tt
require false e = failed e

abbrev pub or_fail {ℓ} : {A : Type ℓ} → Option A → RepositoryError → Answer A
or_fail none e = failed e
or_fail (some a) e = returned a

-- What a unique key asks of the row that a SELECT finds under it.
abbrev pub unused {ℓ} : {A : Type ℓ} → Option A → Answer (Unit {0})
unused none = returned tt
unused (some a) = failed constraint_violation

abbrev pub checked {ℓ} : {A : Type ℓ} → Types.Result A → Answer A
checked (ok a) = returned a
checked (err e) = failed (state_error e)

-- What holds of every value returned.
abbrev pub Holds {ℓ κ} : {A : Type ℓ} → (A → Type κ) → Answer A → Type κ
Holds P (returned a) = P a
Holds P (failed e) = Unit

pub returned_inj {ℓ} : {A : Type ℓ} {a b : A} → returned a ≡ returned b → a ≡ b
returned_inj h = cc h

module _ {ℓ κ ν} {A : Type ℓ} {B : Type κ} (P : B → Type ν) where
  pub bind-Holds :
      (m : Answer A) (k : A → Answer B)
      → ((a : A) → m ≡ returned a → Holds P (k a))
      → Holds P (m >>= k)
  unfolding ◌>>=◌
  bind-Holds (returned a) k h = h a refl
  bind-Holds (failed e) k h = tt

module _ {ℓ κ} {A : Type ℓ} (P : A → Type κ) where
  pub returned-Holds : (m : Answer A) → ((a : A) → m ≡ returned a → P a) → Holds P m
  returned-Holds (returned a) h = h a refl
  returned-Holds (failed e) h = tt

  pub Holds-returned : (m : Answer A) (a : A) → m ≡ returned a → Holds P m → P a
  Holds-returned (returned b) a h p = subst P (returned_inj h) p
  Holds-returned (failed e) a h p = absurd (cc h)

module _ {ℓ κ} {A : Type ℓ} {B : Type κ} where
  pub bind-returned :
      (m : Answer A) (k : A → Answer B) (b : B)
      → (m >>= k) ≡ returned b
      → (a : A) × (m ≡ returned a) × (k a ≡ returned b)
  unfolding ◌>>=◌
  bind-returned (returned a) k b h = (a, refl, h)
  bind-returned (failed e) k b h = absurd (cc h)

  pub bind-eq : (m : Answer A) (k : A → Answer B) (a : A) → m ≡ returned a → (m >>= k) ≡ k a
  unfolding ◌>>=◌
  bind-eq (returned b) k a h = ap k (returned_inj h)
  bind-eq (failed e) k a h = absurd (cc h)

  pub bind-failed :
      (m : Answer A) (k : A → Answer B) (e : RepositoryError) → m ≡ failed e → (m >>= k) ≡ failed e
  unfolding ◌>>=◌
  bind-failed (returned b) k e h = absurd (cc h)
  bind-failed (failed e') k e h = let same : e' ≡ e = cc h in ap failed same
