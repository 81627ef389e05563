-- ===== src/Transcripts/Blank.antt =====
-- When a transcript is empty, and which errors parsing it can have
-- (backend/app/services/transcript_parser.py).
use ai_recruitment.Common.{
  ℕ, ◌≡◌, ◌↔◌, ◌⊎◌, refl, inl, inr, Bool, true, false, ◌&&◌, Option, List, [], ◌∷◌, ◌++◌, ◌==◌,
  length, any, ltb, ok, err, Bool-cases, Option-cases, Result-cases, arith,
}
use ai_recruitment.Common.Text.{Text, is_space, is_empty, strip}
use ai_recruitment.Transcripts.{
  TranscriptError, empty_content, text_too_long, segment_limit, invalid_timestamp, max_text_chars,
  ParsedSegment, ParsedTranscript,
}
use ai_recruitment.Transcripts.Lines.{normalize_newlines, split_lines, cons_line}
use ai_recruitment.Transcripts.Spaces.{all_space, strip-all_space}
use ai_recruitment.Transcripts.Labels.{
  TimeToken, match_labeled_line, match_range, match_lone, time_to_ms,
}
use ai_recruitment.Transcripts.Stamps.{is_misstamped, parse_lines-misstamped, parse_lines-stamped}
use ai_recruitment.Transcripts.Parser.{
  Parsing, start, append_segment, continue_last, unlabeled_line, parse_line, parse_lines, parsed,
  parse_transcript, no_segments,
}

-- Whether every line is blank.
unfoldable pub all_blank : List Text → Bool
all_blank [] = true
all_blank (l ∷ ls) = is_empty (strip l) && all_blank ls

all_blank-cons_line :
    (c : ℕ) (ls : List Text) → all_blank (cons_line c ls) ≡ is_space c && all_blank ls
unfolding all_blank cons_line all_space
all_blank-cons_line c [] = rw (strip-all_space (c ∷ [])) (ground arith)
all_blank-cons_line c (l ∷ ls) = rw (strip-all_space (c ∷ l), strip-all_space l) (ground arith)

-- A text is white space exactly if its lines are blank.
all_blank-split_lines : (s : Text) → all_blank (split_lines s) ≡ all_space s
unfolding all_blank split_lines all_space is_space
all_blank-split_lines [] = rw (strip-all_space []) (ground arith)
all_blank-split_lines (c ∷ s) = elim (Bool-cases (c == 10)) [
  | inl y ↦ ground (arith, y, strip-all_space [], all_blank-split_lines s)
  | inr n ↦ ground (arith, n, all_blank-cons_line c (split_lines s), all_blank-split_lines s)
]

-- The errors of a line are its time stamps and the limit.
unfoldable pub IsLineError : TranscriptError → Type 0
IsLineError e = (e ≡ segment_limit) ⊎ (e ≡ invalid_timestamp)

time_to_ms-err :
    (t : TimeToken) (e : TranscriptError) → time_to_ms t ≡ err e → e ≡ invalid_timestamp
unfolding time_to_ms
time_to_ms-err t e h = ground (arith, h)

no_segments-append :
    (segments : List ParsedSegment) (s : ParsedSegment) → no_segments (segments ++ s ∷ []) ≡ false
no_segments-append [] s = refl
no_segments-append (t ∷ segments) s = refl

no_segments-continue_last :
    (l : Text) (segments : List ParsedSegment)
    → no_segments (continue_last l segments) ≡ no_segments segments
unfolding continue_last
no_segments-continue_last l [] = refl
no_segments-continue_last l (s ∷ []) = refl
no_segments-continue_last l (s ∷ t ∷ rest) = refl

module _ (digit_value : ℕ → Option ℕ) where
  -- A line that is not blank makes a segment or continues one; a blank one changes none.
  parse_line-solid :
      (l : Text) (p q : Parsing)
      → parse_line digit_value l p ≡ ok q
      → no_segments q.segments ≡ no_segments p.segments && is_empty (strip l)
  unfolding parse_line unlabeled_line append_segment
  parse_line-solid l p q h = elim (Bool-cases (is_empty (strip l))) [
    | inl y ↦ ground (arith, y, h)
    | inr n ↦ elim (Result-cases (match_labeled_line digit_value l)) [
      | inr (x, y) ↦ ground (arith, n, y, h)
      | inl (o, y) ↦
          ground
            (arith, n, y, h, no_segments-append p.segments, no_segments-continue_last l p.segments)
    ]
  ]

  parse_lines-solid :
      (ls : List Text) (p q : Parsing)
      → parse_lines digit_value ls p ≡ ok q
      → no_segments q.segments ≡ no_segments p.segments && all_blank ls
  unfolding parse_lines all_blank
  parse_lines-solid [] p q h = ground (arith, h)
  parse_lines-solid (l ∷ ls) p q h = elim (Result-cases (parse_line digit_value l p)) [
    | inr (y, w) ↦ ground (arith, w, h)
    | inl (v, w) ↦ ground (arith, parse_line-solid l p v w, parse_lines-solid ls v q, w, h)
  ]

  match_labeled_line-err :
      (l : Text) (e : TranscriptError)
      → match_labeled_line digit_value l ≡ err e
      → e ≡ invalid_timestamp
  unfolding match_labeled_line
  match_labeled_line-err l e h = elim (Option-cases (match_range digit_value l)) [
    | inl n ↦ elim (Option-cases (match_lone digit_value l)) [
      | inl m ↦ ground (arith, n, m, h)
      | inr (b, m) ↦ ground (arith, n, m, h)
    ]
    | inr ((from, to, body), w) ↦ elim (Result-cases (time_to_ms from)) [
      | inr (x, y) ↦ ground (arith, w, y, h, time_to_ms-err from x y)
      | inl (a, y) ↦ elim (Result-cases (time_to_ms to)) [
        | inr (x, z) ↦ ground (arith, w, y, z, h, time_to_ms-err to x z)
        | inl (b, z) ↦ ground (arith, w, y, z, h)
      ]
    ]
  ]

  parse_line-err :
      (l : Text) (p : Parsing) (e : TranscriptError)
      → parse_line digit_value l p ≡ err e
      → IsLineError e
  unfolding parse_line unlabeled_line append_segment IsLineError
  parse_line-err l p e h = elim (Result-cases (match_labeled_line digit_value l)) [
    | inr (x, y) ↦ inr (ground (arith, match_labeled_line-err l x y, y, h))
    | inl (o, y) ↦ inl (ground (arith, y, h))
  ]

  parse_lines-err :
      (ls : List Text) (p : Parsing) (e : TranscriptError)
      → parse_lines digit_value ls p ≡ err e
      → IsLineError e
  unfolding parse_lines
  parse_lines-err [] p e h = ground (arith, h)
  parse_lines-err (l ∷ ls) p e h = elim (Result-cases (parse_line digit_value l p)) [
    | inr (y, w) ↦ parse_line-err l p e (ground (arith, w, h))
    | inl (v, w) ↦ parse_lines-err ls v e (ground (arith, w, h))
  ]

  parse_transcript-errors :
      (text : Text)
      → ((parse_transcript digit_value text ≡ err empty_content)
          ↔ (is_empty (strip (normalize_newlines text)) ≡ true))
        × ((parse_transcript digit_value text ≡ err text_too_long) ↔ (
            (is_empty (strip (normalize_newlines text)) ≡ false)
            × (ltb max_text_chars (length (normalize_newlines text)) ≡ true)))
        × ((e : TranscriptError)
            → parse_transcript digit_value text ≡ err e
            → (e ≡ empty_content) ⊎ (e ≡ text_too_long) ⊎ IsLineError e)
  unfolding parse_transcript parsed start IsLineError
  parse_transcript-errors text =
      let s = normalize_newlines text in
      elim (Result-cases (parse_lines digit_value (split_lines s) start)) [
        | inr (x, w) ↦
            let k = parse_lines-err (split_lines s) start x w in
            (
              (λ h. ground (arith, w, k, h), λ h. ground (arith, h)),
              (
                λ h. (ground (arith, w, k, h), ground (arith, w, k, h)),
                λ (h, l). ground (arith, h, l),
              ),
              λ e h. elim (Bool-cases (is_empty (strip s))) [
                | inl y ↦ inl (ground (arith, y, h))
                | inr n ↦ elim (Bool-cases (ltb max_text_chars (length s))) [
                  | inl y ↦ inr (inl (ground (arith, n, y, h)))
                  | inr m ↦ let same : e ≡ x = ground (arith, n, m, w, h) in inr (inr (rw same k))
                ]
              ],
            )
        | inl (p, w) ↦
            let k = parse_lines-solid (split_lines s) start p w in
            let b = all_blank-split_lines s in
            let c = strip-all_space s in
            (
              (λ h. ground (arith, w, k, b, c, h), λ h. ground (arith, h)),
              (λ h. (ground (arith, w, h), ground (arith, w, h)), λ (h, l). ground (arith, h, l)),
              λ e h. elim (Bool-cases (is_empty (strip s))) [
                | inl y ↦ inl (ground (arith, y, h))
                | inr n ↦ elim (Bool-cases (ltb max_text_chars (length s))) [
                  | inl y ↦ inr (inl (ground (arith, n, y, h)))
                  | inr m ↦ inr (inr (inl (ground (arith, n, m, w, k, b, c, h))))
                ]
              ],
            )
      ]

  parse_transcript-misstamped :
      (text : Text)
      → parse_transcript digit_value text ≡ err invalid_timestamp
      → any (is_misstamped digit_value) (split_lines (normalize_newlines text)) ≡ true
  unfolding parse_transcript parsed
  parse_transcript-misstamped text h =
      let ls = split_lines (normalize_newlines text) in
      elim (Result-cases (parse_lines digit_value ls start)) [
        | inr (x, w) ↦ ground (arith, w, h, parse_lines-misstamped digit_value ls start)
        | inl (p, w) ↦ ground (arith, w, h)
      ]

  parse_transcript-stamped :
      (text : Text) (r : ParsedTranscript)
      → parse_transcript digit_value text ≡ ok r
      → any (is_misstamped digit_value) (split_lines (normalize_newlines text)) ≡ false
  unfolding parse_transcript parsed
  parse_transcript-stamped text r h =
      let ls = split_lines (normalize_newlines text) in
      elim (Result-cases (parse_lines digit_value ls start)) [
        | inr (x, w) ↦ ground (arith, w, h)
        | inl (p, w) ↦ parse_lines-stamped digit_value ls start p w
      ]

  -- Parsing fails as empty exactly if the text is white space, and as too long exactly if it is not
  -- and its normalized form exceeds the limit; every other failure is a time stamp out of range or
  -- the limit on segments. A failure for a time stamp has a line whose time range has a stamp out
  -- of range, and a transcript that parses has no such line.
  pub parse_transcript-err_iff :
      (text : Text)
      → ((parse_transcript digit_value text ≡ err empty_content)
          ↔ (is_empty (strip (normalize_newlines text)) ≡ true))
        × ((parse_transcript digit_value text ≡ err text_too_long) ↔ (
            (is_empty (strip (normalize_newlines text)) ≡ false)
            × (ltb max_text_chars (length (normalize_newlines text)) ≡ true)))
        × ((e : TranscriptError)
            → parse_transcript digit_value text ≡ err e
            → (e ≡ empty_content) ⊎ (e ≡ text_too_long) ⊎ IsLineError e)
        × (parse_transcript digit_value text ≡ err invalid_timestamp
            → any (is_misstamped digit_value) (split_lines (normalize_newlines text)) ≡ true)
        × ((r : ParsedTranscript)
            → parse_transcript digit_value text ≡ ok r
            → any (is_misstamped digit_value) (split_lines (normalize_newlines text)) ≡ false)
  parse_transcript-err_iff text =
      let (u, v, w) = parse_transcript-errors text in
      (u, v, w, parse_transcript-misstamped text, parse_transcript-stamped text)
