-- ===== src/Transcripts/Printing.antt =====
-- Transcripts in the labelled form are read back by `parse_transcript`
-- (backend/app/services/transcript_parser.py).
use mathlib.Core.List.{append_assoc, append-nil}
use ai_recruitment.Common.{
  ℕ, ◌+◌, ◌≤◌, ◌≡◌, ◌∙◌, ◌||◌, ap, sym, refl, true, false, Option, none, some, List, [], ◌∷◌, ◌++◌,
  map, elem, length, ok, arith,
}
use ai_recruitment.Common.Text.{Text, codes, is_space, is_empty, strip, lstrip}
use ai_recruitment.Transcripts.{
  SpeakerRole, ParsedSegment, ParsedTranscript, max_segments, max_text_chars,
}
use ai_recruitment.Transcripts.Lines.{
  normalize_newlines, split_lines, join_lines, are_lines, normalize_newlines_same,
  split_lines-join_lines,
}
use ai_recruitment.Transcripts.Spaces.{strip_solid}
use ai_recruitment.Transcripts.Labels.{
  Label, LabeledLine, match_labeled_line, match_range, match_lone, match_speaker_body, match_word,
  time_token, one_or_two_digits, expect, literal,
}
use ai_recruitment.Transcripts.Segments.{length-snoc}
use ai_recruitment.Transcripts.Parser.{
  Parsing, start, add_rule, segment_of, append_segment, parse_line, parse_lines, parsed,
  parse_transcript, no_segments,
}

-- Who speaks, and what.
pub data Utterance : Type 0 where
  interviewer candidate : Text → Utterance

unfoldable pub print_line : Utterance → Text
print_line (Utterance.interviewer t) = codes "面试官：" ++ t
print_line (Utterance.candidate t) = codes "候选人：" ++ t

unfoldable pub label_of : Utterance → Label
label_of (Utterance.interviewer t) = record {
  key = codes "interviewer";
  name = codes "面试官";
  role = SpeakerRole.interviewer;
  text = t;
  rule = codes "interviewer_label";
}
label_of (Utterance.candidate t) = record {
  key = codes "candidate";
  name = codes "候选人";
  role = SpeakerRole.candidate;
  text = t;
  rule = codes "candidate_label";
}

unfoldable pub line_of : Utterance → LabeledLine
line_of u = record { label = label_of u; start_ms = none; end_ms = none }

-- The segments of the utterances, numbered from the given number on.
unfoldable pub segments_of : ℕ → List Utterance → List ParsedSegment
segments_of n [] = []
segments_of n (u ∷ us) = segment_of n (line_of u) ∷ segments_of (n + 1) us

abbrev pub said : Utterance → Text
said (Utterance.interviewer t) = t
said (Utterance.candidate t) = t

-- Text on one line, without white space at its ends.
pub record IsTidy (t : Text) : Type 0 where
  pub stripped : strip t ≡ t
  pub no_newline : elem 10 t ≡ false
  pub no_return : elem 13 t ≡ false

pub data AreTidy : List Utterance → Type 0 where
  none_left : AreTidy []
  one_more : (u : Utterance) {us : List Utterance} → IsTidy (said u) → AreTidy us → AreTidy (u ∷ us)

elem-append : (k : ℕ) (s t : Text) → elem k (s ++ t) ≡ elem k s || elem k t
elem-append k [] t = refl
elem-append k (c ∷ s) t = ground (arith, elem-append k s t)

-- Tidy utterances are printed on lines.
all_lines : (us : List Utterance) → AreTidy us → are_lines (map print_line us) ≡ true
unfolding are_lines print_line
all_lines [] h = refl
all_lines (Utterance.interviewer t ∷ us) (one_more _ e h) =
    ground (arith, e.no_newline, all_lines us h)
all_lines (Utterance.candidate t ∷ us) (one_more _ e h) =
    ground (arith, e.no_newline, all_lines us h)

no_return_in : (u : Utterance) → IsTidy (said u) → elem 13 (print_line u) ≡ false
unfolding print_line
no_return_in (Utterance.interviewer t) h = ground (arith, h.no_return)
no_return_in (Utterance.candidate t) h = ground (arith, h.no_return)

no_returns : (us : List Utterance) → AreTidy us → elem 13 (join_lines (map print_line us)) ≡ false
unfolding join_lines
no_returns [] h = refl
no_returns (u ∷ []) (one_more _ e h) = no_return_in u e
no_returns (u ∷ v ∷ us) (one_more _ e h) = ground (
  arith,
  elem-append 13 (print_line u) (10 ∷ join_lines (map print_line (v ∷ us))),
  no_return_in u e,
  no_returns (v ∷ us) h,
)

strip_printed :
    (u : Utterance) (us : List Utterance)
    → is_empty (strip (join_lines (map print_line (u ∷ us)))) ≡ false
unfolding join_lines print_line is_space
strip_printed (Utterance.interviewer t) [] = strip_solid 38754 (35797 ∷ 23448 ∷ 65306 ∷ t) refl
strip_printed (Utterance.candidate t) [] = strip_solid 20505 (36873 ∷ 20154 ∷ 65306 ∷ t) refl
strip_printed (Utterance.interviewer t) (v ∷ us) =
    strip_solid 38754 (35797 ∷ 23448 ∷ 65306 ∷ t ++ 10 ∷ join_lines (map print_line (v ∷ us))) refl
strip_printed (Utterance.candidate t) (v ∷ us) =
    strip_solid 20505 (36873 ∷ 20154 ∷ 65306 ∷ t ++ 10 ∷ join_lines (map print_line (v ∷ us))) refl

length-segments_of : (n : ℕ) (us : List Utterance) → length (segments_of n us) ≡ length us
unfolding segments_of
length-segments_of n [] = refl
length-segments_of n (u ∷ us) = ground (arith, length-segments_of (n + 1) us)

module _ (digit_value : ℕ → Option ℕ)
    (no_digit : (digit_value 38754 ≡ none) × (digit_value 20505 ≡ none)) where
  match_labeled_line-print_line :
      (u : Utterance)
      → strip (said u) ≡ said u
      → match_labeled_line digit_value (print_line u) ≡ ok (some (line_of u))
  unfolding match_labeled_line match_range match_lone match_speaker_body match_word time_token
      one_or_two_digits expect literal print_line line_of label_of lstrip is_space
  match_labeled_line-print_line (Utterance.interviewer t) h = ground (arith, h, no_digit.0)
  match_labeled_line-print_line (Utterance.candidate t) h = ground (arith, h, no_digit.1)

  parse_line-print_line :
      (u : Utterance) (p : Parsing)
      → strip (said u) ≡ said u
      → parse_line digit_value (print_line u) p ≡ append_segment (line_of u) p
  unfolding parse_line print_line is_space
  parse_line-print_line (Utterance.interviewer t) p h = ground (
    arith,
    strip_solid 38754 (35797 ∷ 23448 ∷ 65306 ∷ t) refl,
    match_labeled_line-print_line (Utterance.interviewer t) h,
  )
  parse_line-print_line (Utterance.candidate t) p h = ground (
    arith,
    strip_solid 20505 (36873 ∷ 20154 ∷ 65306 ∷ t) refl,
    match_labeled_line-print_line (Utterance.candidate t) h,
  )

  parse_lines-print :
      (us : List Utterance) (p : Parsing)
      → AreTidy us
      → length p.segments + length us ≤ max_segments
      → (q : Parsing) × (parse_lines digit_value (map print_line us) p ≡ ok q)
        × (q.segments ≡ p.segments ++ segments_of (length p.segments + 1) us)
  unfolding parse_lines segments_of append_segment
  parse_lines-print [] p h l = (p, refl, sym (append-nil p.segments))
  parse_lines-print (u ∷ us) p (one_more _ t h) l =
      let s = segment_of (length p.segments + 1) (line_of u) in
      let p' : Parsing = record {
        segments = p.segments ++ s ∷ [];
        rules_order = add_rule (line_of u).label.rule p.rules_order;
        paragraph_break = false;
      } in
      let step : parse_line digit_value (print_line u) p ≡ ok p' =
        parse_line-print_line u p t.stripped ∙ ground (arith, l) in
      let more = length-snoc p.segments s in
      let (q, e, f) = parse_lines-print us p' h (omega (arith, l, more)) in
      (
        q,
        ground (arith, step, e),
        f
            ∙ append_assoc p.segments (s ∷ []) (segments_of (length (p.segments ++ s ∷ []) + 1) us)
            ∙ ap (λ n. p.segments ++ s ∷ segments_of (n + 1) us) more,
      )

  -- A transcript of utterances, one on a line with its label, each tidy and all within the limits, is
  -- parsed to just these utterances, numbered from 1, if the two first characters of the labels are no
  -- digits.
  pub parse_transcript-print :
      (u : Utterance) (us : List Utterance)
      → AreTidy (u ∷ us)
      → length (u ∷ us) ≤ max_segments
      → length (join_lines (map print_line (u ∷ us))) ≤ max_text_chars
      → (r : ParsedTranscript) × (parse_transcript digit_value
            (join_lines (map print_line (u ∷ us)))
          ≡ ok r)
        × (r.segments ≡ segments_of 1 (u ∷ us))
  unfolding parse_transcript parsed start segments_of
  parse_transcript-print u us h l m =
      let text = join_lines (map print_line (u ∷ us)) in
      let same : normalize_newlines text ≡ text =
        normalize_newlines_same text (no_returns (u ∷ us) h) in
      let lines : split_lines text ≡ map print_line (u ∷ us) =
        split_lines-join_lines (print_line u) (map print_line us) (all_lines (u ∷ us) h) in
      let (q, e, f) = parse_lines-print (u ∷ us) start h (omega (arith, l)) in
      let g : q.segments ≡ segments_of 1 (u ∷ us) = f in
      let solid : no_segments q.segments ≡ false = rw g refl in
      let size : length q.segments ≡ length (u ∷ us) = rw g (length-segments_of 1 (u ∷ us)) in
      (
        record {
          segments = q.segments;
          matched_rules = q.rules_order;
          segment_count = length q.segments;
        },
        ground (arith, same, lines, e, m, l, strip_printed u us, solid, size),
        g,
      )
