-- ===== src/Transcripts/Stamps.antt =====
-- Which lines have a time stamp out of range, and what parsing does with them
-- (backend/app/services/transcript_parser.py).
use ai_recruitment.Common.{
  ℕ, ◌≡◌, refl, inl, inr, Bool, true, false, ◌||◌, ◌&&◌, Option, none, some, List, [], ◌∷◌, any,
  ltb, is_some, ok, err, Option-cases, Result-cases, arith, if◌then◌else◌,
}
use ai_recruitment.Common.Text.{Text, is_empty, strip}
use ai_recruitment.Transcripts.{TranscriptError, invalid_timestamp}
use ai_recruitment.Transcripts.Labels.{
  TimeToken, LabeledLine, match_labeled_line, match_range, match_lone, time_to_ms,
}
use ai_recruitment.Transcripts.Parser.{
  Parsing, append_segment, unlabeled_line, parse_line, parse_lines,
}

-- More than 59 seconds, or more than 59 minutes beside hours.
unfoldable pub out_of_range : TimeToken → Bool
out_of_range t = ltb 59 t.seconds || (is_some t.hours && ltb 59 t.minutes)

time_to_ms-out_of_range :
    (t : TimeToken) (e : TranscriptError) → time_to_ms t ≡ err e → out_of_range t ≡ true
unfolding time_to_ms out_of_range
time_to_ms-out_of_range t e h = ground (arith, h)

time_to_ms-in_range : (t : TimeToken) (ms : ℕ) → time_to_ms t ≡ ok ms → out_of_range t ≡ false
unfolding time_to_ms out_of_range
time_to_ms-in_range t ms h = ground (arith, h)

module _ (digit_value : ℕ → Option ℕ) where
  -- A line that is not blank and whose time range has a stamp out of range.
  unfoldable pub is_misstamped : Text → Bool
  is_misstamped l = if is_empty (strip l) then false else elim (match_range digit_value l) [
    | none ↦ false
    | some (from, to, body) ↦ out_of_range from || out_of_range to
  ]

  match_labeled_line-misstamped :
      (l : Text) (e : TranscriptError)
      → is_empty (strip l) ≡ false
      → match_labeled_line digit_value l ≡ err e
      → is_misstamped l ≡ true
  unfolding match_labeled_line is_misstamped
  match_labeled_line-misstamped l e b h = elim (Option-cases (match_range digit_value l)) [
    | inl n ↦ elim (Option-cases (match_lone digit_value l)) [
      | inl m ↦ ground (arith, n, m, h)
      | inr (body, m) ↦ ground (arith, n, m, h)
    ]
    | inr ((from, to, body), w) ↦ elim (Result-cases (time_to_ms from)) [
      | inr (x, y) ↦ ground (arith, b, w, time_to_ms-out_of_range from x y)
      | inl (i, y) ↦ elim (Result-cases (time_to_ms to)) [
        | inr (x, z) ↦ ground (arith, b, w, time_to_ms-out_of_range to x z)
        | inl (j, z) ↦ ground (arith, w, y, z, h)
      ]
    ]
  ]

  match_labeled_line-stamped :
      (l : Text) (o : Option LabeledLine)
      → match_labeled_line digit_value l ≡ ok o
      → is_misstamped l ≡ false
  unfolding match_labeled_line is_misstamped
  match_labeled_line-stamped l o h = elim (Option-cases (match_range digit_value l)) [
    | inl n ↦ ground (arith, n)
    | inr ((from, to, body), w) ↦ elim (Result-cases (time_to_ms from)) [
      | inr (x, y) ↦ ground (arith, w, y, h)
      | inl (i, y) ↦ elim (Result-cases (time_to_ms to)) [
        | inr (x, z) ↦ ground (arith, w, y, z, h)
        | inl (j, z) ↦ ground (arith, w, time_to_ms-in_range from i y, time_to_ms-in_range to j z)
      ]
    ]
  ]

  parse_line-misstamped :
      (l : Text) (p : Parsing)
      → parse_line digit_value l p ≡ err invalid_timestamp
      → is_misstamped l ≡ true
  unfolding parse_line unlabeled_line append_segment
  parse_line-misstamped l p h = elim (Result-cases (match_labeled_line digit_value l)) [
    | inr (x, y) ↦ ground (arith, match_labeled_line-misstamped l x, y, h)
    | inl (o, y) ↦ ground (arith, y, h)
  ]

  parse_line-stamped :
      (l : Text) (p q : Parsing) → parse_line digit_value l p ≡ ok q → is_misstamped l ≡ false
  unfolding parse_line is_misstamped
  parse_line-stamped l p q h = elim (Result-cases (match_labeled_line digit_value l)) [
    | inr (x, y) ↦ ground (arith, y, h)
    | inl (o, y) ↦ ground (arith, match_labeled_line-stamped l o y)
  ]

  -- An error of the time stamps has such a line.
  pub parse_lines-misstamped :
      (ls : List Text) (p : Parsing)
      → parse_lines digit_value ls p ≡ err invalid_timestamp
      → any is_misstamped ls ≡ true
  unfolding parse_lines
  parse_lines-misstamped [] p h = ground (arith, h)
  parse_lines-misstamped (l ∷ ls) p h = elim (Result-cases (parse_line digit_value l p)) [
    | inr (y, w) ↦ ground (arith, parse_line-misstamped l p, w, h)
    | inl (v, w) ↦ ground (arith, parse_lines-misstamped ls v, w, h)
  ]

  -- Lines that parse have no such line among them.
  pub parse_lines-stamped :
      (ls : List Text) (p q : Parsing)
      → parse_lines digit_value ls p ≡ ok q
      → any is_misstamped ls ≡ false
  unfolding parse_lines
  parse_lines-stamped [] p q h = refl
  parse_lines-stamped (l ∷ ls) p q h = elim (Result-cases (parse_line digit_value l p)) [
    | inr (y, w) ↦ ground (arith, w, h)
    | inl (v, w) ↦ ground (arith, parse_line-stamped l p v w, parse_lines-stamped ls v q, w, h)
  ]
