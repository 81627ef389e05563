-- ===== src/Audit/Scrubbing.antt =====
-- What scrubbing (backend/app/services/audit.py) leaves in an audit entry.
use ai_recruitment.Common.{
  ◌≡◌, ◌↔◌, refl, ap, sym, Bool, true, false, not, ◌&&◌, ◌||◌, if◌then◌else◌, Bool-cases, inl, inr,
  arith,
}
use ai_recruitment.Common.Text.{Text, text_eq, text_eq_iff}
use ai_recruitment.Audit.{
  Json, Items, Fields, no_items, item, no_fields, field, redacted, is_name_list, key_is_sensitive,
  has_marker, scrub_value, scrub_items, scrub_fields,
}

abbrev pub is_redacted : Json → Bool
is_redacted (Json.text s) = text_eq s redacted
is_redacted _ = false

is_redacted-eq : (v : Json) → is_redacted v ≡ true → v ≡ Json.text redacted
is_redacted-eq (Json.text s) h =
    let same : s ≡ redacted = (text_eq_iff s redacted).0 h in ap Json.text same
is_redacted-eq Json.null h = ground (arith, h)
is_redacted-eq (Json.bool b) h = ground (arith, h)
is_redacted-eq (Json.number n) h = ground (arith, h)
is_redacted-eq (Json.array xs) h = ground (arith, h)
is_redacted-eq (Json.object fs) h = ground (arith, h)

module _ (lower : Text → Text) where
  unfoldable mutual
    -- A value that may be recorded: no text holds a marker, but in lists of key names, and a
    -- sensitive key holds nothing but the placeholder.
    pub is_clean : Bool → Json → Bool
    is_clean skip Json.null = true
    is_clean skip (Json.bool b) = true
    is_clean skip (Json.number n) = true
    is_clean skip (Json.text s) = skip || not (has_marker (lower s))
    is_clean skip (Json.array xs) = are_clean skip xs
    is_clean skip (Json.object fs) = fields_clean fs

    pub are_clean : Bool → Items → Bool
    are_clean skip no_items = true
    are_clean skip (item x xs) = is_clean skip x && are_clean skip xs

    pub fields_clean : Fields → Bool
    fields_clean no_fields = true
    fields_clean (field key x fs) =
        let named = is_clean true x in
        let plain = is_clean false x in
        (if is_name_list (lower key)
          then named
          else if key_is_sensitive (lower key)
          then is_redacted x
          else plain)
        && fields_clean fs

  mutual
    unfolding is_clean scrub_value are_clean scrub_items fields_clean scrub_fields

    value_same : (skip : Bool) (v : Json) → is_clean skip v ≡ true → scrub_value lower skip v ≡ v
    value_same skip Json.null h = refl
    value_same skip (Json.bool b) h = refl
    value_same skip (Json.number n) h = refl
    value_same skip (Json.text s) h = ground (arith, h)
    value_same skip (Json.array xs) h = ap Json.array (items_same skip xs h)
    value_same skip (Json.object fs) h = ap Json.object (fields_same fs h)

    items_same :
        (skip : Bool) (xs : Items) → are_clean skip xs ≡ true → scrub_items lower skip xs ≡ xs
    items_same skip no_items h = refl
    items_same skip (item x xs) h = ground (arith, h, value_same skip x, items_same skip xs)

    fields_same : (fs : Fields) → fields_clean fs ≡ true → scrub_fields lower fs ≡ fs
    fields_same no_fields h = refl
    fields_same (field key x fs) h = elim (Bool-cases (is_name_list (lower key))) [
      | inl y ↦ ground (arith, y, h, value_same true x, fields_same fs)
      | inr n ↦ elim (Bool-cases (key_is_sensitive (lower key))) [
        | inl y ↦ ground (arith, n, y, h, is_redacted-eq x, fields_same fs)
        | inr m ↦ ground (arith, n, m, h, value_same false x, fields_same fs)
      ]
    ]

  module _ (lower_same : has_marker (lower redacted) ≡ false) where
    mutual
      unfolding is_clean scrub_value are_clean scrub_items fields_clean scrub_fields

      value-clean : (skip : Bool) (v : Json) → is_clean skip (scrub_value lower skip v) ≡ true
      value-clean skip Json.null = refl
      value-clean skip (Json.bool b) = refl
      value-clean skip (Json.number n) = refl
      value-clean skip (Json.text s) = ground (arith, lower_same)
      value-clean skip (Json.array xs) = items-clean skip xs
      value-clean skip (Json.object fs) = clean_fields fs

      items-clean : (skip : Bool) (xs : Items) → are_clean skip (scrub_items lower skip xs) ≡ true
      items-clean skip no_items = refl
      items-clean skip (item x xs) = ground (arith, value-clean skip x, items-clean skip xs)

      clean_fields : (fs : Fields) → fields_clean (scrub_fields lower fs) ≡ true
      clean_fields no_fields = refl
      clean_fields (field key x fs) = elim (Bool-cases (is_name_list (lower key))) [
        | inl y ↦ ground (arith, y, value-clean true x, clean_fields fs)
        | inr n ↦ elim (Bool-cases (key_is_sensitive (lower key))) [
          | inl y ↦ ground (arith, n, y, clean_fields fs, (text_eq_iff redacted redacted).1 refl)
          | inr m ↦ ground (arith, n, m, value-clean false x, clean_fields fs)
        ]
      ]

-- What scrubbing records is clean: no text in it holds a marker of a secret, but in lists of key
-- names, and a sensitive key holds the placeholder alone. The values that scrubbing leaves alone are
-- exactly the clean ones, so scrubbing again changes nothing. The placeholder in lower case must hold
-- no marker.
pub scrub_value-clean :
    (lower : Text → Text) (v : Json)
    → has_marker (lower redacted) ≡ false
    → (is_clean lower false (scrub_value lower false v) ≡ true)
      × ((scrub_value lower false v ≡ v) ↔ (is_clean lower false v ≡ true))
      × (scrub_value lower false (scrub_value lower false v) ≡ scrub_value lower false v)
scrub_value-clean lower v h =
    let c = value-clean lower h false v in
    (
      c,
      (λ e. rw (sym e) c, value_same lower false v),
      value_same lower false (scrub_value lower false v) c,
    )
