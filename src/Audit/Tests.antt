-- ===== src/Audit/Tests.antt =====
-- Concrete audit entries.
use ai_recruitment.Common.{◌≡◌, ◌↔◌, refl, true, false}
use ai_recruitment.Common.Text.{Text, codes, text_eq}
use ai_recruitment.Audit.{
  Json, no_items, item, no_fields, field, redacted, has_marker, contains, starts_with, ends_with,
  is_name_list, key_is_sensitive, scrub_value,
}
use ai_recruitment.Audit.Scrubbing.{is_clean, scrub_value-clean}

-- On texts that are lower-case already.
abbrev lower : Text → Text
lower s = s

abbrev entry : Json
entry = Json.object (
    field (codes "smtp_password") (Json.number 7) (
      field (codes "updated_keys") (Json.array (item (Json.text (codes "secret")) no_items))
        (field (codes "note") (Json.text (codes "the token is lost")) no_fields)))

entry_scrubbed :
    scrub_value lower false entry
    ≡ Json.object (
        field (codes "smtp_password") (Json.text redacted) (
          field
            (codes "updated_keys")
            (Json.array (item (Json.text (codes "secret")) no_items))
            (field (codes "note") (Json.text redacted) no_fields)))
unfolding scrub_value is_name_list key_is_sensitive ends_with has_marker contains starts_with
    text_eq
entry_scrubbed = refl

scrub_value-clean_example :
    (is_clean lower false (scrub_value lower false entry) ≡ true)
    × ((scrub_value lower false entry ≡ entry) ↔ (is_clean lower false entry ≡ true))
    × (scrub_value lower false (scrub_value lower false entry) ≡ scrub_value lower false entry)
unfolding has_marker contains starts_with
scrub_value-clean_example = scrub_value-clean lower entry refl
