-- ===== src/Transcripts/Spaces.antt =====
-- White space at the ends of a line, as the transcript parser strips it
-- (backend/app/services/transcript_parser.py).
use mathlib.Core.List.{reverse, reverse-cons}
use ai_recruitment.Common.{
  ℕ, ◌≡◌, ◌⊎◌, refl, inl, inr, Bool, true, false, ◌&&◌, [], ◌∷◌, ◌++◌, Bool-cases, arith,
}
use ai_recruitment.Common.Text.{Text, is_space, is_empty, strip, lstrip, rstrip}

-- A character that is no white space stays.
lstrip-snoc : (s : Text) (c : ℕ) → is_space c ≡ false → is_empty (lstrip (s ++ c ∷ [])) ≡ false
unfolding lstrip
lstrip-snoc [] c h = ground (arith, h)
lstrip-snoc (d ∷ s) c h = ground (arith, lstrip-snoc s c h)

is_empty-reverse : (s : Text) → is_empty s ≡ false → is_empty (reverse s) ≡ false
is_empty-reverse [] h = h
is_empty-reverse (c ∷ s) h = rw (reverse-cons c s) (is_empty-snoc (reverse s) c)
  where
    is_empty-snoc : (t : Text) (d : ℕ) → is_empty (t ++ d ∷ []) ≡ false
    is_empty-snoc [] d = refl
    is_empty-snoc (x ∷ t) d = refl

-- A text that starts with no white space is not stripped to nothing.
rstrip_solid : (c : ℕ) (s : Text) → is_space c ≡ false → is_empty (rstrip (c ∷ s)) ≡ false
unfolding rstrip
rstrip_solid c s h =
    is_empty-reverse (lstrip (reverse (c ∷ s)))
      (rw (reverse-cons c s) (lstrip-snoc (reverse s) c h))

pub strip_solid : (c : ℕ) (s : Text) → is_space c ≡ false → is_empty (strip (c ∷ s)) ≡ false
unfolding strip lstrip
strip_solid c s h = rw h (rstrip_solid c s h)

-- A text of white space alone.
unfoldable pub all_space : Text → Bool
all_space [] = true
all_space (c ∷ s) = is_space c && all_space s

lstrip-cases :
    (s : Text)
    → ((all_space s ≡ true) × (lstrip s ≡ []))
      ⊎ ((c : ℕ) × (r : Text) × (all_space s ≡ false) × (lstrip s ≡ c ∷ r) × (is_space c ≡ false))
unfolding all_space lstrip
lstrip-cases [] = inl (refl, refl)
lstrip-cases (c ∷ s) = elim (Bool-cases (is_space c)) [
  | inr n ↦ inr (c, s, ground (arith, n), ground (arith, n), n)
  | inl y ↦ elim (lstrip-cases s) [
    | inl (a, l) ↦ inl (ground (arith, y, a), ground (arith, y, l))
    | inr (d, r, a, l, n) ↦ inr (d, r, ground (arith, y, a), ground (arith, y, l), n)
  ]
]

rstrip_nothing : is_empty (rstrip []) ≡ true
unfolding rstrip lstrip
rstrip_nothing = refl

-- `not s.strip()` holds exactly of white space.
pub strip-all_space : (s : Text) → is_empty (strip s) ≡ all_space s
unfolding strip
strip-all_space s = elim (lstrip-cases s) [
  | inl (a, l) ↦ rw (a, l) rstrip_nothing
  | inr (c, r, a, l, n) ↦ rw (a, l) (rstrip_solid c r n)
]
