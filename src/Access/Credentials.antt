-- ===== src/Access/Credentials.antt =====
-- internal/auth/credentials.go, internal/auth/token.go and internal/httpapi/credentials.go: the
-- checks on what a caller sends.
use Prim.Native.Char.{code}
use vive_cserver.Base.{
  ℕ, ◌+◌, String, len, str_eq, Bool, ◌&&◌, Option, none, some, ltb, leb, ◌==◌, if◌then◌else◌,
}

-- strings.TrimSpace, strings.ToLower, the address that net/mail's ParseAddress finds, and
-- pgtype.UUID's Scan with the canonical text
pub record Texts : Type 0 where
  pub trim_space : String → String
  pub to_lower : String → String
  pub parse_address : String → Option String
  pub parse_uuid : String → Option String

-- An error with its text, or the text to use.
pub data Checked : Type 0 where
  bad : String → Checked
  good : String → Checked

abbrev pub max_email_chars : ℕ
max_email_chars = 320

abbrev pub min_password_chars : ℕ
min_password_chars = 8

abbrev pub max_password_chars : ℕ
max_password_chars = 1024

-- NormaliseEmail
abbrev pub normalise_email : Texts → String → Checked
normalise_email texts raw =
    let trimmed = texts.trim_space raw in
    if str_eq trimmed ""
    then bad "an email address is required"
    else if ltb max_email_chars (len trimmed)
    then bad "email address is too long"
    else elim (texts.parse_address trimmed) [
      | none ↦ bad "email address is not valid"
      | some address ↦ good (texts.to_lower address)
    ]

-- ValidatePassword
abbrev pub validate_password : String → Option String
validate_password password =
    if ltb (len password) min_password_chars
    then some "password must be at least 8 characters"
    else if ltb max_password_chars (len password)
    then some "password must be at most 1024 characters"
    else none

-- validateDeviceName
abbrev pub validate_device_name : Texts → String → Checked
validate_device_name texts raw =
    let trimmed = texts.trim_space raw in
    if str_eq trimmed ""
    then bad "a device name is required"
    else if ltb 128 (len trimmed)
    then bad "device name is too long"
    else good trimmed

-- validatePlatform
abbrev pub validate_platform : Texts → String → Checked
validate_platform texts raw =
    let trimmed = texts.trim_space raw in
    if ltb 64 (len trimmed) then bad "platform is too long" else good trimmed

-- an ASCII letter in lower case
abbrev pub fold : ℕ → ℕ
fold c = if leb b'A' c && leb c b'Z' then c + 32 else c

-- The rest of a text behind a prefix, with `same` to compare two characters
unfoldable pub behind : (ℕ → ℕ → Bool) → String → String → Option String
behind same String.[] s = some s
behind same (String.◌∷◌ p prefix) String.[] = none
behind same (String.◌∷◌ p prefix) (String.◌∷◌ c s) =
    let rest = behind same prefix s in if same (code p) (code c) then rest else none

abbrev pub nonempty : String → Option String
nonempty s = if str_eq s "" then none else some s

-- ParseBearerToken. strings.EqualFold compares the seven bytes of the scheme; no letter of it folds
-- with one outside ASCII.
abbrev pub parse_bearer_token : Texts → String → Option String
parse_bearer_token texts header =
    if leb (len header) 7 then none else elim (behind (λ a b. fold a == fold b) "Bearer " header) [
      | none ↦ none
      | some rest ↦ nonempty (texts.trim_space rest)
    ]

abbrev pub token_prefix : String
token_prefix = "vive_"

abbrev pub admin_session_token_prefix : String
admin_session_token_prefix = "vive_admin_"

-- ParseAdminSessionToken
abbrev pub parse_admin_session_token : String → Option String
parse_admin_session_token candidate = elim (behind ◌==◌ admin_session_token_prefix candidate) [
  | none ↦ none
  | some rest ↦ if str_eq rest "" then none else some candidate
]
