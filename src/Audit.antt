-- ===== src/Audit.antt =====
-- The scrubbing of audit entries (backend/app/services/audit.py), over JSON values. `str.lower` is a
-- parameter.
pub mod Scrubbing
mod Tests
use ai_recruitment.Common.{
  ℕ, Bool, true, false, not, ◌||◌, ◌&&◌, List, [], ◌∷◌, ◌++◌, ◌==◌, any, if◌then◌else◌,
}
use ai_recruitment.Common.Text.{Text, codes, text_eq}

mutual
  -- The JSON values that changes are made of.
  pub data Json : Type 0 where
    null : Json
    bool : Bool → Json
    number : ℕ → Json
    text : Text → Json
    array : Items → Json
    object : Fields → Json

  pub data Items : Type 0 where
    no_items : Items
    item : Json → Items → Items

  pub data Fields : Type 0 where
    no_fields : Fields
    field : Text → Json → Fields → Fields

-- `s.startswith(prefix)`
unfoldable pub starts_with : Text → Text → Bool
starts_with [] s = true
starts_with (a ∷ prefix) [] = false
starts_with (a ∷ prefix) (c ∷ s) = a == c && starts_with prefix s

-- `marker in s`
unfoldable pub contains : Text → Text → Bool
unfolding starts_with
contains marker [] = starts_with marker []
contains marker (c ∷ s) = starts_with marker (c ∷ s) || contains marker s

-- `s.endswith(suffix)`
unfoldable pub ends_with : Text → Text → Bool
ends_with suffix [] = text_eq suffix []
ends_with suffix (c ∷ s) = text_eq suffix (c ∷ s) || ends_with suffix s

abbrev pub sensitive_value_markers : List Text
sensitive_value_markers =
    codes "password"
    ∷ codes "token"
    ∷ codes "authorization"
    ∷ codes "cookie"
    ∷ codes "secret"
    ∷ codes "api_key"
    ∷ codes "bearer"
    ∷ codes "enc:v1:"
    ∷ []

abbrev pub sensitive_key_names : List Text
sensitive_key_names =
    codes "password"
    ∷ codes "token"
    ∷ codes "secret"
    ∷ codes "api_key"
    ∷ codes "access_key"
    ∷ codes "secret_key"
    ∷ codes "authorization"
    ∷ codes "cookie"
    ∷ codes "ciphertext"
    ∷ codes "secret_ciphertext"
    ∷ codes "bearer"
    ∷ []

abbrev pub redacted : Text
redacted = codes "[redacted]"

-- `lowered in _AUDIT_KEY_NAME_LIST_KEYS`
unfoldable pub is_name_list : Text → Bool
is_name_list lowered =
    text_eq lowered (codes "secret_keys_updated") || text_eq lowered (codes "updated_keys")

-- `_key_is_sensitive`, of the lower-case key
unfoldable pub key_is_sensitive : Text → Bool
unfolding is_name_list ends_with
key_is_sensitive lowered =
    not (is_name_list lowered)
    && (any (text_eq lowered) sensitive_key_names
        || any (λ name. ends_with (95 ∷ name) lowered) sensitive_key_names)

unfoldable pub has_marker : Text → Bool
unfolding contains
has_marker lowered = any (λ marker. contains marker lowered) sensitive_value_markers

module _ (lower : Text → Text) where
  unfoldable mutual
    -- `_scrub_value`, with `skip_value_markers`
    pub scrub_value : Bool → Json → Json
    scrub_value skip Json.null = Json.null
    scrub_value skip (Json.bool b) = Json.bool b
    scrub_value skip (Json.number n) = Json.number n
    scrub_value skip (Json.text s) =
        if not skip && has_marker (lower s) then Json.text redacted else Json.text s
    scrub_value skip (Json.array xs) = Json.array (scrub_items skip xs)
    scrub_value skip (Json.object fs) = Json.object (scrub_fields fs)

    pub scrub_items : Bool → Items → Items
    scrub_items skip no_items = no_items
    scrub_items skip (item x xs) = item (scrub_value skip x) (scrub_items skip xs)

    pub scrub_fields : Fields → Fields
    scrub_fields no_fields = no_fields
    scrub_fields (field key x fs) =
        let named = scrub_value true x in
        let plain = scrub_value false x in
        field key
          (if is_name_list (lower key)
            then named
            else if key_is_sensitive (lower key)
            then Json.text redacted
            else plain)
          (scrub_fields fs)
