-- ===== src/Transcripts/Parser.antt =====
-- `parse_transcript` of backend/app/services/transcript_parser.py: lines become segments, in the
-- order of the text.
use ai_recruitment.Common.{
  ℕ, ◌+◌, Bool, true, false, ◌||◌, Option, none, some, List, [], ◌∷◌, ◌++◌, ltb, leb, if◌then◌else◌,
  length, any, Result, ok, err,
}
use ai_recruitment.Common.Text.{Text, codes, text_eq, is_empty, strip, rstrip}
use ai_recruitment.Transcripts.{
  TranscriptError, SpeakerRole, ParsedSegment, ParsedTranscript, max_text_chars, max_segments,
}
use ai_recruitment.Transcripts.Lines.{normalize_newlines, split_lines}
use ai_recruitment.Transcripts.Labels.{LabeledLine, match_labeled_line}

-- The local variables of the loop; `seen_rules` is the set of what `rules_order` lists.
pub record Parsing : Type 0 where
  pub segments : List ParsedSegment
  pub rules_order : List Text
  pub paragraph_break : Bool

unfoldable pub start : Parsing
start = record { segments = []; rules_order = []; paragraph_break = true }

-- `rules_order`, with a rule added that was not seen
unfoldable pub add_rule : Text → List Text → List Text
add_rule rule rules = if any (text_eq rule) rules then rules else rules ++ rule ∷ []

unfoldable pub segment_of : ℕ → LabeledLine → ParsedSegment
segment_of number line = record {
  segment_no = number;
  speaker_key = line.label.key;
  speaker_name = line.label.name;
  speaker_role = line.label.role;
  start_time_ms = line.start_ms;
  end_time_ms = line.end_ms;
  text = line.label.text;
  matched_rule = line.label.rule;
}

-- `_append_segment`, and what the loop sets after it
unfoldable pub append_segment : LabeledLine → Parsing → Result TranscriptError Parsing
unfolding add_rule segment_of
append_segment line p =
    if leb max_segments (length p.segments)
    then err TranscriptError.segment_limit
    else ok (record {
      segments = p.segments ++ segment_of (length p.segments + 1) line ∷ [];
      rules_order = add_rule line.label.rule p.rules_order;
      paragraph_break = false;
    })

-- A line without a label, as the start of a paragraph; the code strips a carriage return first.
unfoldable pub unknown_line : Text → LabeledLine
unknown_line raw_line = record {
  label = record {
    key = codes "unknown";
    name = codes "UNKNOWN";
    role = SpeakerRole.unknown;
    text = strip raw_line;
    rule = codes "unknown_fallback";
  };
  start_ms = none;
  end_ms = none;
}

-- `segments[-1]` gets another line of text.
unfoldable pub continue_last : Text → List ParsedSegment → List ParsedSegment
continue_last raw_line [] = []
continue_last raw_line (s ∷ []) = record s { text = s.text ++ 10 ∷ rstrip raw_line } ∷ []
continue_last raw_line (s ∷ t ∷ rest) = s ∷ continue_last raw_line (t ∷ rest)

abbrev pub no_segments : List ParsedSegment → Bool
no_segments [] = true
no_segments (s ∷ rest) = false

unfoldable pub unlabeled_line : Text → Parsing → Result TranscriptError Parsing
unfolding unknown_line continue_last
unlabeled_line raw_line p =
    if no_segments p.segments || p.paragraph_break
    then append_segment (unknown_line raw_line) p
    else ok (record p { segments = continue_last raw_line p.segments })

module _ (digit_value : ℕ → Option ℕ) where
  -- One turn of the loop.
  unfoldable pub parse_line : Text → Parsing → Result TranscriptError Parsing
  parse_line raw_line p =
      if is_empty (strip raw_line)
      then ok (record p { paragraph_break = true })
      else elim (match_labeled_line digit_value raw_line) [
        | err e ↦ err e
        | ok none ↦ unlabeled_line raw_line p
        | ok (some line) ↦ append_segment line p
      ]

  unfoldable pub parse_lines : List Text → Parsing → Result TranscriptError Parsing
  parse_lines [] p = ok p
  parse_lines (l ∷ ls) p = elim (parse_line l p) [ ok q ↦ parse_lines ls q | err e ↦ err e ]

  -- What the function returns after the loop.
  unfoldable pub parsed : Parsing → Result TranscriptError ParsedTranscript
  parsed p =
      if no_segments p.segments
      then err TranscriptError.empty_content
      else if ltb max_segments (length p.segments)
      then err TranscriptError.segment_limit
      else ok (record {
        segments = p.segments;
        matched_rules = p.rules_order;
        segment_count = length p.segments;
      })

  -- `parse_transcript`
  unfoldable pub parse_transcript : Text → Result TranscriptError ParsedTranscript
  unfolding start
  parse_transcript text =
      let normalized = normalize_newlines text in
      if is_empty (strip normalized)
      then err TranscriptError.empty_content
      else if ltb max_text_chars (length normalized)
      then err TranscriptError.text_too_long
      else elim (parse_lines (split_lines normalized) start) [ ok p ↦ parsed p | err e ↦ err e ]
