-- ===== src/Transcripts.antt =====
-- Transcripts of interviews (backend/app/services/transcript_parser.py): the records and the
-- exception, by message.
pub mod Spaces
pub mod Stamps
pub mod Lines
pub mod Labels
pub mod Parser
pub mod Segments
pub mod Printing
pub mod Decoding
pub mod Blank
pub mod Uploads
mod Tests
use ai_recruitment.Common.{ℕ, Option, List}
use ai_recruitment.Common.Text.{Text}

-- `TranscriptParseError`
pub data TranscriptError : Type 0 where
  file_too_large empty_content text_too_long segment_limit : TranscriptError
  invalid_timestamp binary_rejected undecodable : TranscriptError
  invalid_filename path_traversal unsupported_extension : TranscriptError

pub data SpeakerRole : Type 0 where
  candidate interviewer unknown : SpeakerRole

pub record ParsedSegment : Type 0 where
  pub segment_no : ℕ
  pub speaker_key : Text
  pub speaker_name : Text
  pub speaker_role : SpeakerRole
  pub start_time_ms : Option ℕ
  pub end_time_ms : Option ℕ
  pub text : Text
  pub matched_rule : Text

pub record ParsedTranscript : Type 0 where
  pub segments : List ParsedSegment
  pub matched_rules : List Text
  pub segment_count : ℕ

abbrev pub max_file_size : ℕ
max_file_size = 2097152

abbrev pub max_text_chars : ℕ
max_text_chars = 500000

abbrev pub max_segments : ℕ
max_segments = 10000
