-- ===== src/Research/Rollout.antt =====
-- backend/internal/research/rollout.go: the assignment of variants. `digest` gives the first eight
-- bytes of SHA-256 as a number.
use open_music_player.Prelude.{
  ℕ, ◌+◌, ◌/◌, ◌%◌, Bool, false, not, ◌&&◌, ◌||◌, [], ◌∷◌, ◌++◌, if◌then◌else◌, ltb, Text, codes,
  text_eq, ℤ, pos, negsuc, ltb_ℤ,
}
use open_music_player.Research.Types.{
  VariantAssignment, VariantAssignmentInput, bounded_agent_dark_launch, direct_structured_judge,
  deterministic_only, default_variant_cohort,
}

-- `cohort_bps` is DeepAgentCohortBPS.
pub record RolloutConfig : Type 0 where
  pub research_enabled : Bool
  pub direct_judge_enabled : Bool
  pub deep_agent_enabled : Bool
  pub deep_agent_dark_launch : Bool
  pub cohort_bps : ℤ

-- NewRolloutVariantAssigner: whether it accepts the config.
unfoldable pub accepts_config : RolloutConfig → Bool
accepts_config cfg =
    not (ltb_ℤ cfg.cohort_bps (pos 0) || ltb_ℤ (pos 10000) cfg.cohort_bps)
    && (if cfg.deep_agent_enabled
        then cfg.deep_agent_dark_launch
        else not cfg.deep_agent_dark_launch)

abbrev pub deterministic_assignment : VariantAssignment
deterministic_assignment = record { variant = deterministic_only; cohort = default_variant_cohort }

abbrev digit : ℕ → ℕ
digit n = b'0' + n % 10

-- `%04d` of a number below 100000.
unfoldable pub four_digits : ℕ → Text
four_digits n =
    let low = digit (n / 1000) ∷ digit (n / 100) ∷ digit (n / 10) ∷ digit n ∷ [] in
    if ltb n 10000 then low else digit (n / 10000) ∷ low

-- Only a config with a positive number assigns it.
unfoldable pub deep_cohort : ℤ → Text
unfolding four_digits
deep_cohort (pos n) = codes "deep-bps-" ++ four_digits n
deep_cohort (negsuc n) = codes "deep-bps-"

module _ (digest : Text → ℕ) where
  unfoldable pub rollout_cohort_bps : Text → ℕ
  rollout_cohort_bps hash = digest (codes "omp-research-rollout-v1:" ++ hash) % 10000

  unfoldable pub deep_eligible : RolloutConfig → VariantAssignmentInput → Bool
  unfolding rollout_cohort_bps
  deep_eligible cfg input =
      if not cfg.deep_agent_enabled
        || not cfg.deep_agent_dark_launch
        || not (ltb_ℤ cfg.cohort_bps (pos 0) || ltb_ℤ (pos 0) cfg.cohort_bps)
        || text_eq input.request_hash []
      then false
      else ltb_ℤ (pos (rollout_cohort_bps input.request_hash)) cfg.cohort_bps

  unfoldable pub assign : RolloutConfig → VariantAssignmentInput → VariantAssignment
  unfolding deep_eligible deep_cohort
  assign cfg input =
      if not cfg.research_enabled
      then deterministic_assignment
      else if deep_eligible cfg input
      then record { variant = bounded_agent_dark_launch; cohort = deep_cohort cfg.cohort_bps }
      else if cfg.direct_judge_enabled
      then record { variant = direct_structured_judge; cohort = default_variant_cohort }
      else deterministic_assignment
