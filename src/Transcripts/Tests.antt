-- ===== src/Transcripts/Tests.antt =====
-- Concrete transcripts.
use ai_recruitment.Common.{
  ℕ, ◌+◌, ◌-◌, ◌≤◌, ◌≡◌, ◌↔◌, ◌⊎◌, refl, true, false, ◌&&◌, Option, none, some, List, [], ◌∷◌, map,
  leb, ltb, elem, length, any, ok, err, if◌then◌else◌, arith,
}
use ai_recruitment.Common.Text.{Text, codes, text_eq, is_empty, is_space, lstrip, rstrip, strip}
use ai_recruitment.Transcripts.{
  TranscriptError, SpeakerRole, ParsedTranscript, max_segments, max_text_chars, max_file_size,
  empty_content, text_too_long, invalid_timestamp,
}
use ai_recruitment.Transcripts.Lines.{normalize_newlines, split_lines, cons_line, join_lines}
use ai_recruitment.Transcripts.Parser.{
  parse_transcript, parse_lines, parse_line, add_rule, append_segment, continue_last, parsed,
  segment_of, start, unknown_line, unlabeled_line,
}
use ai_recruitment.Transcripts.Labels.{
  match_labeled_line, match_range, time_token, one_or_two_digits, time_rest, two_digits, body_of,
  time_to_ms, match_speaker_body, match_word, literal, match_speaker_n, after_number, digit_run,
  expect, is_letter, literal_ignorecase, match_lone, role_rule_suffix, some_spaces, last_space,
}
use ai_recruitment.Transcripts.Segments.{
  AreNumbered, are_distinct, uses_rule, parse_transcript-AreNumbered,
}
use ai_recruitment.Transcripts.Printing.{
  Utterance, AreTidy, none_left, one_more, print_line, segments_of, parse_transcript-print,
}
use ai_recruitment.Transcripts.Stamps.{is_misstamped}
use ai_recruitment.Transcripts.Blank.{IsLineError, parse_transcript-err_iff}
use ai_recruitment.Transcripts.Decoding.{
  Codecs, Encoding, SourceMethod, DecodedTranscript, decode_transcript, safe_name,
  sanitize_filename, check_name, resolve_source, is_binary, is_binaryish, decode_bytes,
  checked_text,
}
use ai_recruitment.Transcripts.Uploads.{IsSafe, decode_transcript-parse}

-- The digits of ASCII.
abbrev ascii_digit : ℕ → Option ℕ
ascii_digit c = if leb 48 c && leb c 57 then some (c - 48) else none

-- Bytes below 128 as text.
abbrev ascii : List ℕ → Option Text
ascii [] = some []
ascii (b ∷ bytes) = elim (ascii bytes) [
  | none ↦ none
  | some s ↦ (if leb b 127 then some (b ∷ s) else none)
]

abbrev ascii_lower : Text → Text
ascii_lower [] = []
ascii_lower (c ∷ s) = (if leb 65 c && leb c 90 then c + 32 else c) ∷ ascii_lower s

abbrev ascii_codecs : Codecs
ascii_codecs = record {
  lower = ascii_lower;
  utf_8 = ascii;
  utf_8_sig = λ bytes. none;
  gb18030 = λ bytes. none;
  sha256 = λ text. codes "digest";
}

-- A line with a time range, a line that goes on with it, and one with a label.
abbrev talk : Text
talk = codes "00:01 - 00:05 speaker 1: hi\nthere\n\n面试官：go"

abbrev talk_parsed : ParsedTranscript
talk_parsed = record {
  segments =
      record {
        segment_no = 1;
        speaker_key = codes "speaker_1";
        speaker_name = codes "Speaker 1";
        speaker_role = SpeakerRole.unknown;
        start_time_ms = some 1000;
        end_time_ms = some 5000;
        text = codes "hi\nthere";
        matched_rule = codes "timestamp_range_speaker_n";
      }
      ∷ record {
        segment_no = 2;
        speaker_key = codes "interviewer";
        speaker_name = codes "面试官";
        speaker_role = SpeakerRole.interviewer;
        start_time_ms = none;
        end_time_ms = none;
        text = codes "go";
        matched_rule = codes "interviewer_label";
      }
      ∷ [];
  matched_rules = codes "timestamp_range_speaker_n" ∷ codes "interviewer_label" ∷ [];
  segment_count = 2;
}

talk_ok : parse_transcript ascii_digit talk ≡ ok talk_parsed
unfolding parse_transcript strip normalize_newlines parse_lines split_lines parse_line
    match_labeled_line match_range time_token one_or_two_digits time_rest two_digits body_of
    time_to_ms match_speaker_body match_word literal match_speaker_n is_space lstrip rstrip text_eq
    after_number digit_run expect is_letter literal_ignorecase match_lone role_rule_suffix
    some_spaces cons_line add_rule append_segment continue_last parsed segment_of start unknown_line
    unlabeled_line
talk_ok = refl

parse_transcript-AreNumbered_example :
    AreNumbered 1 talk_parsed.segments
    × (talk_parsed.segment_count ≡ length talk_parsed.segments)
    × (1 ≤ length talk_parsed.segments)
    × (length talk_parsed.segments ≤ max_segments)
    × (are_distinct talk_parsed.matched_rules ≡ true)
    × ((rule : Text)
        → any (text_eq rule) talk_parsed.matched_rules ≡ any (uses_rule rule) talk_parsed.segments)
parse_transcript-AreNumbered_example =
    parse_transcript-AreNumbered ascii_digit talk talk_parsed talk_ok

abbrev question : Utterance
question = Utterance.interviewer (codes "why?")

abbrev answer : Utterance
answer = Utterance.candidate (codes "so")

question_and_answer-AreTidy : AreTidy (question ∷ answer ∷ [])
unfolding strip is_space lstrip rstrip
question_and_answer-AreTidy =
    one_more question (record { stripped = refl; no_newline = refl; no_return = refl })
      (one_more answer (record { stripped = refl; no_newline = refl; no_return = refl }) none_left)

parse_transcript-print_example :
    (r : ParsedTranscript) × (parse_transcript ascii_digit
        (join_lines (map print_line (question ∷ answer ∷ [])))
      ≡ ok r)
    × (r.segments ≡ segments_of 1 (question ∷ answer ∷ []))
unfolding join_lines print_line
parse_transcript-print_example =
    parse_transcript-print ascii_digit (refl, refl) question (answer ∷ [])
      question_and_answer-AreTidy (omega arith) (omega arith)

-- A line with a time stamp out of range and no body but white space.
abbrev late : Text
late = codes "00:99 - 00:05  "

late_fails : parse_transcript ascii_digit late ≡ err invalid_timestamp
unfolding parse_transcript strip normalize_newlines parse_lines split_lines parse_line
    match_labeled_line match_range time_token one_or_two_digits time_rest two_digits body_of
    time_to_ms is_space lstrip rstrip expect some_spaces last_space cons_line start
late_fails = refl

-- One space behind the range is no body.
late_text : (r : ParsedTranscript) × (parse_transcript ascii_digit (codes "00:99 - 00:05 ") ≡ ok r)
unfolding parse_transcript strip normalize_newlines parse_lines split_lines parse_line
    match_labeled_line match_range time_token one_or_two_digits time_rest two_digits body_of
    time_to_ms is_space lstrip rstrip expect some_spaces last_space cons_line start match_lone
    match_speaker_body match_word literal match_speaker_n text_eq after_number digit_run is_letter
    literal_ignorecase add_rule append_segment continue_last parsed segment_of unknown_line
    unlabeled_line
late_text = (_, refl)

parse_transcript-err_iff_example :
    ((parse_transcript ascii_digit late ≡ err empty_content)
      ↔ (is_empty (strip (normalize_newlines late)) ≡ true))
    × ((parse_transcript ascii_digit late ≡ err text_too_long) ↔ (
        (is_empty (strip (normalize_newlines late)) ≡ false)
        × (ltb max_text_chars (length (normalize_newlines late)) ≡ true)))
    × ((e : TranscriptError)
        → parse_transcript ascii_digit late ≡ err e
        → (e ≡ empty_content) ⊎ (e ≡ text_too_long) ⊎ IsLineError e)
    × (parse_transcript ascii_digit late ≡ err invalid_timestamp
        → any (is_misstamped ascii_digit) (split_lines (normalize_newlines late)) ≡ true)
    × ((r : ParsedTranscript)
        → parse_transcript ascii_digit late ≡ ok r
        → any (is_misstamped ascii_digit) (split_lines (normalize_newlines late)) ≡ false)
parse_transcript-err_iff_example = parse_transcript-err_iff ascii_digit late

abbrev upload : List ℕ
upload = codes "Hello\r\nall"

abbrev uploaded : DecodedTranscript
uploaded = record {
  text = codes "Hello\nall";
  encoding = Encoding.utf_8;
  sha256 = codes "digest";
  char_count = 9;
  filename = some (codes "Talk.MD");
  size = 10;
  mime = codes "text/markdown";
  source_method = SourceMethod.md;
}

decode_transcript-parse_example :
    (1 ≤ length upload)
    × (length upload ≤ max_file_size)
    × (elem 0 upload ≡ false)
    × (uploaded.char_count ≡ length uploaded.text)
    × (uploaded.char_count ≤ max_text_chars)
    × (is_empty (strip uploaded.text) ≡ false)
    × (elem 13 uploaded.text ≡ false)
    × ((name : Text) → uploaded.filename ≡ some name → IsSafe name)
    × ((e : TranscriptError) → parse_transcript ascii_digit uploaded.text ≡ err e → IsLineError e)
unfolding decode_transcript safe_name sanitize_filename check_name resolve_source is_binary
    decode_bytes checked_text normalize_newlines strip lstrip rstrip is_space text_eq is_binaryish
decode_transcript-parse_example =
    decode_transcript-parse ascii_codecs upload (some (codes " Talk.MD")) uploaded ascii_digit refl
