-- ===== src/Sync/Text.antt =====
-- internal/store/synctables.go and internal/blob/store.go: the checks on texts, ids and digests.
use Prim.Native.Char.{code}
use vive_cserver.Base.{
  ℕ, String, len, count, Bool, true, false, ◌&&◌, ◌||◌, Option, none, some, ltb, leb, ◌==◌, str_eq,
  if◌then◌else◌,
}
use vive_cserver.Sync.Failure.{
  Failure, too_large, invalid, id_empty, nul_character, longer_than, digest_length, not_a_digest,
}

abbrev pub max_id_chars : ℕ
max_id_chars = 512

abbrev pub max_name_chars : ℕ
max_name_chars = 512

abbrev pub max_preview_chars : ℕ
max_preview_chars = 4096

-- strings.ContainsRune(value, 0)
unfoldable pub contains_nul : String → Bool
contains_nul String.[] = false
contains_nul (String.◌∷◌ c s) = code c == 0 || contains_nul s

unfoldable pub validate_sync_text : String → String → ℕ → Option Failure
validate_sync_text field value max_chars =
    if contains_nul value
    then some (invalid (nul_character field))
    else if ltb max_chars (count value)
    then some (too_large (longer_than field max_chars))
    else none

unfoldable pub validate_entity_id : String → Option Failure
unfolding validate_sync_text
validate_entity_id id =
    if str_eq id "" then some (invalid id_empty) else validate_sync_text "id" id max_id_chars

abbrev pub digest_chars : ℕ
digest_chars = 64

-- '0'..'9' or 'a'..'f'
pub is_hex : ℕ → Bool
is_hex c = (leb b'0' c && leb c b'9') || (leb b'a' c && leb c b'f')

pub all_hex : String → Bool
unfolding is_hex
all_hex String.[] = true
all_hex (String.◌∷◌ c s) = is_hex (code c) && all_hex s

-- A character outside ASCII is no hex digit, nor is any of its bytes.
unfoldable pub validate_digest : String → Option Failure
unfolding all_hex
validate_digest digest =
    if len digest == digest_chars
    then (if all_hex digest then none else some (invalid not_a_digest))
    else some (invalid (digest_length (len digest)))
