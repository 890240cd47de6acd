-- ===== src/Sync/Failure.antt =====
-- What a validation of internal/store reports: the message, one constructor for each format string,
-- and whether the error wraps `ErrTooLarge`.
use vive_cserver.Base.{ℕ, String, Bool, true, false, Option, none, some, List, [], ◌∷◌}
use vive_cserver.Base.Int.{ℤ}

pub data Message : Type 0 where
  -- ValidateEntityID, validateSyncText
  id_empty : Message
  nul_character : String → Message
  longer_than : String → ℕ → Message
  -- fields that must be given, or must not be negative
  must_not_be_empty : String → Message
  must_not_be_negative : String → Message
  -- payload sizes
  larger_than : String → ℕ → Message
  more_than : String → ℕ → Message
  -- digests
  digest_length : ℕ → Message
  not_a_digest : Message
  doc_digest_mismatch : Message
  size_mismatch : ℤ → ℤ → Message
  -- collectExtraFields
  not_a_readable_object : Message
  extra_not_storable : Message
  -- "groupId: %w" and the like
  prefixed : String → Message → Message

pub data Failure : Type 0 where
  too_large : Message → Failure
  invalid : Message → Failure

-- fmt.Errorf("text: %w", err), which keeps what `err` wraps
abbrev pub prefix_failure : String → Failure → Failure
prefix_failure text (too_large m) = too_large (prefixed text m)
prefix_failure text (invalid m) = invalid (prefixed text m)

abbrev pub prefix_with : String → Option Failure → Option Failure
prefix_with text none = none
prefix_with text (some f) = some (prefix_failure text f)

abbrev pub fail_if : Bool → Failure → Option Failure
fail_if true f = some f
fail_if false f = none

-- A ladder of `if err := check; err != nil { return err }`.
abbrev pub first_failure : List (Option Failure) → Option Failure
first_failure [] = none
first_failure (some f ∷ rest) = some f
first_failure (none ∷ rest) = first_failure rest
