-- ===== src/Research/Degrade.antt =====
-- backend/internal/research/state.go: the degradations.
use open_music_player.Prelude.{
  ◌≡◌, refl, ◌⊎◌, inl, inr, Bool, true, false, not, ◌&&◌, [], some, arith, Text, text_eq,
  text_eq_iff, text_eq_refl, Bool-cases, Option-cases,
}
use open_music_player.Research.Types.{DegradationCode, lease_expired, Degradation, Job, ok}
use open_music_player.Research.State.{
  degradation_retryable, degradation_message, validate_degradation, public_degradation,
  effective_degradation, can_retry, is_lease_expired, differ,
}

message_cases :
    (message public : Text)
    → (not (text_eq message []) && not (text_eq message public)) ≡ false
    → (message ≡ []) ⊎ (message ≡ public)
message_cases message public h = elim (Bool-cases (text_eq message [])) [
  | inl none_given ↦ inl ((text_eq_iff message []).0 none_given)
  | inr given ↦ inr ((text_eq_iff message public).0 (ground (arith, given, h)))
]

retryable_cases :
    (retryable own : Bool) (code : DegradationCode)
    → (differ retryable own && not (is_lease_expired code && not own)) ≡ false
    → (own ≡ retryable) ⊎ ((code ≡ lease_expired) × (own ≡ false))
retryable_cases true true code h = inl refl
retryable_cases false false code h = inl refl
retryable_cases false true lease_expired h = absurd (cc h)
retryable_cases true false lease_expired h = inr (refl, refl)
retryable_cases _ _ code h = absurd (ground (arith, h))

differ_self : (b : Bool) → differ b b ≡ false
differ_self true = refl
differ_self false = refl

public_valid :
    (code : DegradationCode) (retryable : Bool)
    → degradation_retryable code ≡ some retryable
    → validate_degradation (public_degradation code) ≡ ok tt
unfolding validate_degradation public_degradation
public_valid code retryable listed =
    ground (arith, listed, differ_self retryable, text_eq_refl (degradation_message code))

-- A degradation that ValidateDegradation accepts has a code whose public degradation it accepts, no
-- message or that one's, and that one's retryable flag, except that an expired lease may also be
-- final.
pub validate_degradation_lem :
    (d : Degradation)
    → (validate_degradation d ≡ ok tt
        → (validate_degradation (public_degradation d.code) ≡ ok tt)
          × ((d.message ≡ []) ⊎ (d.message ≡ (public_degradation d.code).message))
          × ((d.retryable ≡ (public_degradation d.code).retryable)
              ⊎ ((d.code ≡ lease_expired) × (d.retryable ≡ false))))
unfolding validate_degradation public_degradation
validate_degradation_lem d h = elim (Option-cases (degradation_retryable d.code)) [
  | inl absent ↦ absurd (ground (arith, absent, h))
  | inr (retryable, listed) ↦ (
    public_valid d.code retryable listed,
    message_cases d.message (degradation_message d.code) (ground (arith, listed, h)),
    rw (listed, public_degradation)
        (retryable_cases retryable d.retryable d.code (ground (arith, listed, h))),
  )
]

-- Where the attempts are used up effectiveDegradation only clears a flag that CanRetry would not have
-- honoured: a job can be retried after either degradation or after none.
pub can_retry-effective_degradation :
    (job : Job) (d : Degradation)
    → can_retry job (some (effective_degradation job d)) ≡ can_retry job (some d)
unfolding can_retry effective_degradation
can_retry-effective_degradation job d = ground arith
