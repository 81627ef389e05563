-- ===== src/Crypto/Tests.antt =====
-- Concrete runs of the encryption helpers.
use ai_recruitment.Common.{◌≡◌, refl, false, some, ok}
use ai_recruitment.Common.Text.{Text, codes, is_empty}
use ai_recruitment.Crypto.{Fernet, encrypt_required, decrypt_required}
use ai_recruitment.Crypto.RoundTrip.{decrypt_required-encrypt_required}
use mathlib.Core.List.{reverse}

-- A cipher that inverts itself.
abbrev mirror : Fernet
mirror = record { encrypt = λ s. reverse s; decrypt = λ s. some (reverse s) }

decrypt_required-encrypt_required_example :
    (cipher : Text) × (encrypt_required (some mirror) (codes "hi") ≡ ok cipher)
    × (is_empty cipher ≡ false)
    × (decrypt_required (some mirror) cipher ≡ ok (codes "hi"))
decrypt_required-encrypt_required_example =
    decrypt_required-encrypt_required mirror (codes "hi") refl
