-- ===== src/Transcripts/Lines.antt =====
-- Newlines in transcripts (backend/app/services/transcript_parser.py).
use ai_recruitment.Common.{
  ℕ, ◌≡◌, refl, ap, Bool, true, false, List, [], ◌∷◌, ◌++◌, ◌==◌, if◌then◌else◌, elem, arith,
}
use ai_recruitment.Common.Text.{Text}

-- `text.replace("\r\n", "\n").replace("\r", "\n")`, in one pass
unfoldable pub normalize_newlines : Text → Text
normalize_newlines [] = []
normalize_newlines (c ∷ []) = (if c == 13 then 10 else c) ∷ []
normalize_newlines (c ∷ d ∷ s) =
    let rest = normalize_newlines (d ∷ s) in
    if c == 13 then (if d == 10 then rest else 10 ∷ rest) else c ∷ rest

-- The first line and the others.
unfoldable pub cons_line : ℕ → List Text → List Text
cons_line c [] = (c ∷ []) ∷ []
cons_line c (l ∷ ls) = (c ∷ l) ∷ ls

-- `text.split("\n")`
unfoldable pub split_lines : Text → List Text
unfolding cons_line
split_lines [] = [] ∷ []
split_lines (c ∷ s) = let rest = split_lines s in if c == 10 then [] ∷ rest else cons_line c rest

-- `"\n".join(lines)`
unfoldable pub join_lines : List Text → Text
join_lines [] = []
join_lines (l ∷ []) = l
join_lines (l ∷ m ∷ ls) = l ++ 10 ∷ join_lines (m ∷ ls)

-- A text without carriage returns is left as it is.
pub normalize_newlines_same : (s : Text) → elem 13 s ≡ false → normalize_newlines s ≡ s
unfolding normalize_newlines
normalize_newlines_same [] h = refl
normalize_newlines_same (c ∷ []) h = ground (arith, h)
normalize_newlines_same (c ∷ d ∷ s) h = ground (arith, h, normalize_newlines_same (d ∷ s))

-- No line has a newline in it.
unfoldable pub are_lines : List Text → Bool
are_lines [] = true
are_lines (l ∷ ls) = if elem 10 l then false else are_lines ls

split_lines-append :
    (l s : Text) → elem 10 l ≡ false → split_lines (l ++ 10 ∷ s) ≡ l ∷ split_lines s
unfolding split_lines cons_line
split_lines-append [] s h = refl
split_lines-append (c ∷ l) s h = ground (arith, h, split_lines-append l s)

split_lines_one : (l : Text) → elem 10 l ≡ false → split_lines l ≡ l ∷ []
unfolding split_lines cons_line
split_lines_one [] h = refl
split_lines_one (c ∷ l) h = ground (arith, h, split_lines_one l)

-- Splitting undoes joining.
pub split_lines-join_lines :
    (l : Text) (ls : List Text)
    → are_lines (l ∷ ls) ≡ true
    → split_lines (join_lines (l ∷ ls)) ≡ l ∷ ls
unfolding join_lines are_lines
split_lines-join_lines l [] h = split_lines_one l (ground (arith, h))
split_lines-join_lines l (m ∷ ls) h =
    rw (split_lines-append l (join_lines (m ∷ ls)) (ground (arith, h)))
      (ap (λ x. l ∷ x) (split_lines-join_lines m ls (ground (arith, h))))
