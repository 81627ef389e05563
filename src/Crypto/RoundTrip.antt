-- ===== src/Crypto/RoundTrip.antt =====
-- What is encrypted can be read back (backend/app/services/crypto.py and offers.py).
use ai_recruitment.Common.{◌≡◌, refl, false, some, [], ◌∷◌, ◌++◌, arith, ok}
use ai_recruitment.Common.Text.{Text, is_empty}
use ai_recruitment.Crypto.{Fernet, cipher_prefix, after_prefix, encrypt_required, decrypt_required}

after_prefix-append : (p s : Text) → after_prefix p (p ++ s) ≡ some s
unfolding after_prefix
after_prefix-append [] s = refl
after_prefix-append (c ∷ p) s = ground (arith, after_prefix-append p s)

-- Whatever the text, also the empty one, a ciphertext that `encrypt_required` makes is accepted by
-- `decrypt_required` and gives the text back, for a usable key whose cipher inverts itself.
pub decrypt_required-encrypt_required :
    (f : Fernet) (plain : Text)
    → f.decrypt (f.encrypt plain) ≡ some plain
    → (cipher : Text) × (encrypt_required (some f) plain ≡ ok cipher)
      × (is_empty cipher ≡ false)
      × (decrypt_required (some f) cipher ≡ ok plain)
unfolding encrypt_required decrypt_required
decrypt_required-encrypt_required f [] h =
    (cipher_prefix ++ f.encrypt [], refl, refl, ground (arith, h))
decrypt_required-encrypt_required f (c ∷ s) h =
    (cipher_prefix ++ f.encrypt (c ∷ s), refl, refl, ground (arith, h))
