-- ===== src/Research/Variants.antt =====
-- backend/internal/research/state.go and rollout.go: normalised and assigned variants.
use open_music_player.Prelude.{
  ℕ, ◌≤◌, ◌≡◌, ◌≢◌, refl, sym, inl, inr, true, false, [], ◌∷◌, arith, if◌then◌else◌, Text, text_eq,
  text_eq_iff, pos, Bool-cases,
}
use open_music_player.Research.Types.{
  Variant, no_variant, deterministic_only, direct_structured_judge, bounded_agent_dark_launch,
  unknown_variant, VariantAssignment, VariantAssignmentInput, default_variant_cohort, ok,
}
use open_music_player.Research.State.{
  known_variant, cohort_token, token_rest, has_part, has_prefix, secret_like, bad_cohort,
  is_default, normalize_variant_assignment,
}
use open_music_player.Research.Rollout.{RolloutConfig, rollout_cohort_bps, deep_eligible, assign}

normal :
    (variant : Variant) (cohort : Text)
    → known_variant variant ≡ true
    → bad_cohort cohort ≡ false
    → normalize_variant_assignment (record { variant = variant; cohort = cohort })
      ≡ ok (record { variant = variant; cohort = cohort })
unfolding normalize_variant_assignment known_variant bad_cohort cohort_token
normal no_variant cohort known good = absurd (cc known)
normal (unknown_variant x) cohort known good = absurd (cc known)
normal v [] known good = absurd (cc good)
normal deterministic_only (c ∷ s) known good = unfold text_eq in ground (arith, good)
normal direct_structured_judge (c ∷ s) known good = unfold text_eq in ground (arith, good)
normal bounded_agent_dark_launch (c ∷ s) known good = unfold text_eq in ground (arith, good)

default_cohort_good : bad_cohort default_variant_cohort ≡ false
unfolding bad_cohort cohort_token token_rest has_part has_prefix secret_like
default_cohort_good = refl

abbrev cohort_of : VariantAssignment → Text
cohort_of a = if text_eq a.cohort [] then default_variant_cohort else a.cohort

normalize-cases :
    (a b : VariantAssignment)
    → normalize_variant_assignment a ≡ ok b
    → (known_variant b.variant ≡ true) × (bad_cohort b.cohort ≡ false)
unfolding normalize_variant_assignment
normalize-cases a b h = elim (Bool-cases (is_default a)) [
  | inl empty ↦
      let same : record { variant = deterministic_only; cohort = default_variant_cohort } ≡ b =
        ground (arith, empty, h) in
      rw (sym same) (unfold known_variant in refl, default_cohort_good)
  | inr given ↦ elim (Bool-cases (known_variant a.variant)) [
    | inr unknown ↦ absurd (ground (arith, given, unknown, h))
    | inl known ↦ elim (Bool-cases (bad_cohort (cohort_of a))) [
      | inl bad ↦ absurd (ground (arith, given, known, bad, h))
      | inr good ↦
          let same : record { variant = a.variant; cohort = cohort_of a } ≡ b =
            ground (arith, given, known, good, h) in
          rw (sym same) (known, good)
    ]
  ]
]

-- What NormalizeVariantAssignment returns has a listed variant and an accepted cohort, and is
-- returned as it is by a second call.
pub normalize_twice :
    (a b : VariantAssignment)
    → normalize_variant_assignment a ≡ ok b
    → (known_variant b.variant ≡ true)
      × (bad_cohort b.cohort ≡ false)
      × (normalize_variant_assignment b ≡ ok b)
normalize_twice a b h =
    let (known, good) = normalize-cases a b h in (known, good, normal b.variant b.cohort known good)

eligible_grows :
    (digest : Text → ℕ) (cfg : RolloutConfig) (n m : ℕ) (input : VariantAssignmentInput)
    → n ≤ m
    → deep_eligible digest (record cfg { cohort_bps = pos n }) input ≡ true
    → deep_eligible digest (record cfg { cohort_bps = pos m }) input ≡ true
unfolding deep_eligible
eligible_grows digest cfg n m input le h = ground (arith, le, h)

assign-deep :
    (digest : Text → ℕ) (cfg : RolloutConfig) (input : VariantAssignmentInput)
    → (assign digest cfg input).variant ≡ bounded_agent_dark_launch
    → (cfg.research_enabled ≡ true) × (deep_eligible digest cfg input ≡ true)
unfolding assign
assign-deep digest cfg input h = elim (Bool-cases cfg.research_enabled) [
  | inr off ↦ absurd (ground (arith, off, h))
  | inl on ↦ elim (Bool-cases (deep_eligible digest cfg input)) [
    | inl eligible ↦ (on, eligible)
    | inr other ↦ elim (Bool-cases cfg.direct_judge_enabled) [
      | inl direct ↦ absurd (ground (arith, on, other, direct, h))
      | inr plain ↦ absurd (ground (arith, on, other, plain, h))
    ]
  ]
]

assign_eligible :
    (digest : Text → ℕ) (cfg : RolloutConfig) (input : VariantAssignmentInput)
    → cfg.research_enabled ≡ true
    → deep_eligible digest cfg input ≡ true
    → (assign digest cfg input).variant ≡ bounded_agent_dark_launch
unfolding assign
assign_eligible digest cfg input on eligible = ground (arith, on, eligible)

-- Raising DeepAgentCohortBPS takes the bounded agent from no request that has it.
pub assign_grows :
    (digest : Text → ℕ) (cfg : RolloutConfig) (n m : ℕ) (input : VariantAssignmentInput)
    → n ≤ m
    → (assign digest (record cfg { cohort_bps = pos n }) input).variant ≡ bounded_agent_dark_launch
    → (assign digest (record cfg { cohort_bps = pos m }) input).variant ≡ bounded_agent_dark_launch
assign_grows digest cfg n m input le h =
    let (on, eligible) = assign-deep digest (record cfg { cohort_bps = pos n }) input h in
    assign_eligible digest (record cfg { cohort_bps = pos m }) input on
      (eligible_grows digest cfg n m input le eligible)

-- With research, the deep agent and its dark launch on and 10000 basis points, every request with a
-- hash gets the bounded agent.
pub assign_whole :
    (digest : Text → ℕ) (cfg : RolloutConfig) (input : VariantAssignmentInput)
    → cfg.research_enabled ≡ true
    → cfg.deep_agent_enabled ≡ true
    → cfg.deep_agent_dark_launch ≡ true
    → cfg.cohort_bps ≡ pos 10000
    → input.request_hash ≢ []
    → (assign digest cfg input).variant ≡ bounded_agent_dark_launch
assign_whole digest cfg input on deep dark whole hash = assign_eligible digest cfg input on (
    unfold deep_eligible rollout_cohort_bps in
    ground (arith, deep, dark, whole, hash, text_eq_iff input.request_hash []))
