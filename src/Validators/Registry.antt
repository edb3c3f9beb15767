-- ===== src/Validators/Registry.antt =====
-- backend/internal/validators: validator.go and registry.go. A validator is a record of functions.
use open_music_player.Prelude.{Bool, false, List, [], ◌∷◌, ◌++◌, map, if◌then◌else◌, Text, codes}
use open_music_player.Validators.Youtube.{SourceType, source_unknown, ValidationResult}

pub record Validator : Type 0 where
  pub source_type : SourceType
  pub can_handle : Text → Bool
  pub validate : Text → ValidationResult

pub record Registry : Type 0 where
  pub validators : List Validator

abbrev pub new_registry : Registry
new_registry = record { validators = [] }

abbrev pub register : Validator → Registry → Registry
register v r = record { validators = r.validators ++ (v ∷ []) }

abbrev pub validate_with : List Validator → Text → ValidationResult
validate_with [] url = record {
  valid = false;
  source_type = source_unknown;
  media_id = [];
  media_type = [];
  url = url;
  canonical = [];
  error = codes "unsupported URL format";
}
validate_with (v ∷ vs) url = if v.can_handle url then v.validate url else validate_with vs url

abbrev pub validate_url : Registry → Text → ValidationResult
validate_url r = validate_with r.validators

abbrev pub get_supported_sources : Registry → List SourceType
get_supported_sources r = map (λ v. v.source_type) r.validators

-- With the YouTube and the SoundCloud validator.
abbrev pub default_registry : Validator → Validator → Registry
default_registry youtube soundcloud = register soundcloud (register youtube new_registry)
