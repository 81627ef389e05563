-- ===== src/Crypto.antt =====
-- backend/app/services/crypto.py. Fernet is a third-party cipher: a parameter.
pub mod RoundTrip
mod Tests
use ai_recruitment.Common.{
  Bool, true, false, ◌&&◌, Option, none, some, [], ◌∷◌, ◌++◌, ◌==◌, if◌then◌else◌, Result, ok, err,
}
use ai_recruitment.Common.Text.{Text, codes, is_empty}

-- `Fernet(key)`: `decrypt` answers `none` where the library raises.
pub record Fernet : Type 0 where
  pub encrypt : Text → Text
  pub decrypt : Text → Option Text

pub data EncryptionError : Type 0 where
  key_not_usable unsupported_version ciphertext_invalid : EncryptionError

abbrev pub cipher_prefix : Text
cipher_prefix = codes "enc:v1:"

-- `_load_fernet`: `none` stands for a key that is missing or invalid.
pub load_fernet : Option Fernet → Result EncryptionError Fernet
load_fernet none = err key_not_usable
load_fernet (some f) = ok f

encrypt_with : Text → Result EncryptionError Fernet → Result EncryptionError Text
encrypt_with plain (ok f) = ok (cipher_prefix ++ f.encrypt plain)
encrypt_with plain (err e) = err e

some_text : Result EncryptionError Text → Result EncryptionError (Option Text)
some_text (ok t) = ok (some t)
some_text (err e) = err e

-- `encrypt_secret`; the empty text has no ciphertext.
unfoldable pub encrypt_secret : Option Fernet → Option Text → Result EncryptionError (Option Text)
unfolding load_fernet encrypt_with some_text
encrypt_secret key none = ok none
encrypt_secret key (some plain) =
    if is_empty plain then ok none else some_text (encrypt_with plain (load_fernet key))

-- `cipher.startswith(prefix)`, with the text behind the prefix.
after_prefix : Text → Text → Option Text
after_prefix [] s = some s
after_prefix (c ∷ p) [] = none
after_prefix (c ∷ p) (d ∷ s) = let rest = after_prefix p s in if c == d then rest else none

or_invalid : Option Text → Result EncryptionError (Option Text)
or_invalid none = err ciphertext_invalid
or_invalid (some t) = ok (some t)

decrypt_with : Text → Result EncryptionError Fernet → Result EncryptionError (Option Text)
decrypt_with raw (ok f) = or_invalid (f.decrypt raw)
decrypt_with raw (err e) = err e

decrypt_raw : Option Fernet → Option Text → Result EncryptionError (Option Text)
decrypt_raw key none = err unsupported_version
decrypt_raw key (some raw) = decrypt_with raw (load_fernet key)

-- `decrypt_secret`
unfoldable pub decrypt_secret : Option Fernet → Option Text → Result EncryptionError (Option Text)
unfolding load_fernet after_prefix or_invalid decrypt_with decrypt_raw
decrypt_secret key none = ok none
decrypt_secret key (some cipher) =
    if is_empty cipher then ok none else decrypt_raw key (after_prefix cipher_prefix cipher)

-- `_encrypt_required` of backend/app/services/offers.py: the column is not nullable, so the empty
-- text is encrypted too.
unfoldable pub encrypt_required : Option Fernet → Text → Result EncryptionError Text
unfolding encrypt_secret encrypt_with
encrypt_required key plain = elim (encrypt_secret key (some plain)) [
  | ok (some cipher) ↦ ok cipher
  | ok none ↦ encrypt_with plain (load_fernet key)
  | err e ↦ err e
]

-- `_decrypt_required` of backend/app/services/offers.py
unfoldable pub decrypt_required : Option Fernet → Text → Result EncryptionError Text
unfolding decrypt_secret
decrypt_required key cipher =
    if is_empty cipher then ok [] else elim (decrypt_secret key (some cipher)) [
      | ok (some plain) ↦ ok plain
      | ok none ↦ ok []
      | err e ↦ err e
    ]
