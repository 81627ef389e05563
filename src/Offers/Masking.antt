-- ===== src/Offers/Masking.antt =====
-- backend/app/services/mail_masking.py
use ai_recruitment.Common.{not, ◌||◌, Option, none, some, [], ◌∷◌, ◌++◌, ◌==◌, if◌then◌else◌, elem}
use ai_recruitment.Common.Text.{Text, codes, is_empty, strip}

-- `text.partition("@")`, without the separator
partition : Text → Text × Text
partition [] = ([], [])
partition (c ∷ s) = let (l, d) = partition s in if c == b'@' then ([], s) else (c ∷ l, d)

mask : Text × Text → Option Text
mask ([], domain) = none
mask (c ∷ local, []) = none
mask (c ∷ local, d ∷ domain) = some (c ∷ codes "***@" ++ d ∷ domain)

unfoldable pub mask_email : Option Text → Option Text
unfolding partition mask strip
mask_email none = none
mask_email (some email) =
    if is_empty email || not (elem b'@' email) then none else mask (partition (strip email))
