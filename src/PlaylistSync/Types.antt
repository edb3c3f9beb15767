-- ===== src/PlaylistSync/Types.antt =====
-- backend/internal/playlistsync/types.go: the structs, the errors and ValidateComplete.
-- `url.ParseRequestURI` is a parameter: what it makes of a text, or nothing if it fails.
use open_music_player.Prelude.{
  ◌≡◌, refl, ◌⊎◌, inl, inr, ℕ, Bool, false, not, ◌&&◌, ◌||◌, Option, none, some, List, [], ◌∷◌,
  Text, text_eq, trim_space, if◌then◌else◌, ℤ, pos, ltb_ℤ,
}

pub record SourceMetadata : Type 0 where
  pub title : Text
  pub description : Text
  pub owner : Text

pub record Source : Type 0 where
  pub provider : Text
  pub playlist_id : Text
  pub canonical_url : Text
  pub metadata : SourceMetadata

pub record EntryMetadata : Type 0 where
  pub title : Text
  pub artist : Text
  pub album : Text
  pub uploader : Text
  pub duration_ms : ℤ
  pub thumbnail_url : Text
  pub unavailable : Bool
  pub error : Text

pub record Entry : Type 0 where
  pub stable_id : Text
  pub source_url : Text
  pub metadata : EntryMetadata

pub record Snapshot : Type 0 where
  pub source : Source
  pub complete : Bool
  pub entries : List Entry

pub record SourceEntryMapping : Type 0 where
  pub stable_entry_id : Text
  pub track_id : Option ℤ
  pub position : ℤ

pub record SkippedDuplicate : Type 0 where
  pub stable_entry_id : Text
  pub first_position : ℕ
  pub duplicate_position : ℕ

pub record ReconciliationPlan : Type 0 where
  pub source : Source
  pub additions : List Entry
  pub membership_removals : List SourceEntryMapping
  pub ordered_entry_ids : List Text
  pub reordered : Bool
  pub skipped_duplicates : List SkippedDuplicate
  pub noop : Bool

-- `Result` of the source.
pub record Summary : Type 0 where
  pub noop : Bool
  pub added : ℕ
  pub removed : ℕ
  pub reordered : Bool
  pub reused : ℕ
  pub skipped_duplicates : ℕ

-- The package's errors, then those that the adapter and the store return.
pub data SyncError : Type 0 where
  incomplete_snapshot invalid_snapshot invalid_mappings invalid_playlist_id : SyncError
  missing_adapter missing_store adapter_error store_error : SyncError

pub data Checked {ℓ} (A : Type ℓ) : Type ℓ where
  ok : A → Checked A
  err : SyncError → Checked A

infixl 5 ◌>>=◌ ◌>>◌
abbrev pub ◌>>=◌ {ℓ κ} : {A : Type ℓ} {B : Type κ} → Checked A → (A → Checked B) → Checked B
ok a >>= f = f a
err e >>= f = err e

abbrev pub ◌>>◌ {ℓ} : {B : Type ℓ} → Checked (Unit {0}) → Checked B → Checked B
m >> k = m >>= λ _. k

pub Checked-cases {ℓ} :
    {A : Type ℓ} (r : Checked A) → ((a : A) × (r ≡ ok a)) ⊎ ((e : SyncError) × (r ≡ err e))
Checked-cases (ok a) = inl (a, refl)
Checked-cases (err e) = inr (e, refl)

unfoldable pub invalid_source_text : Text → Bool
invalid_source_text value = text_eq (trim_space value) [] || not (text_eq (trim_space value) value)

-- The scheme and the host of a parsed URL.
abbrev pub UrlParser : Type 0
UrlParser = Text → Option (Text × Text)

unfoldable pub is_absolute_url : UrlParser → Text → Bool
is_absolute_url parse value = elim (parse value) [
  | none ↦ false
  | some (scheme, host) ↦ not (text_eq scheme []) && not (text_eq host [])
]

unfoldable pub entry_fails : UrlParser → Entry → Bool
entry_fails parse entry =
    (invalid_source_text entry.stable_id || ltb_ℤ entry.metadata.duration_ms (pos 0))
    || (not (text_eq entry.source_url []) && not (is_absolute_url parse entry.source_url))

unfoldable pub validate_entries : UrlParser → List Entry → Checked (Unit {0})
validate_entries parse [] = ok tt
validate_entries parse (entry ∷ rest) =
    if entry_fails parse entry then err invalid_snapshot else validate_entries parse rest

unfoldable pub validate_complete : UrlParser → Snapshot → Checked (Unit {0})
validate_complete parse snapshot =
    let source = snapshot.source in
    if not snapshot.complete
    then err incomplete_snapshot
    else if invalid_source_text source.provider
        || invalid_source_text source.playlist_id
        || invalid_source_text source.canonical_url
        || not (is_absolute_url parse source.canonical_url)
    then err invalid_snapshot
    else validate_entries parse snapshot.entries
