-- ===== src/Transcripts/Labels.antt =====
-- The labels and time stamps of a line (backend/app/services/transcript_parser.py). Each regular
-- expression matches in one way at most, so it is read from left to right. `\s` is `str.isspace`;
-- `digit_value` is the value of the decimal digits of Unicode, which `\d` and `int` read.
use ai_recruitment.Common.{
  ℕ, ◌+◌, ◌*◌, Bool, ◌||◌, ◌&&◌, Option, none, some, [], ◌∷◌, ◌++◌, ◌==◌, ltb, if◌then◌else◌,
  is_some, or_else, Result, ok, err,
}
use ai_recruitment.Common.Text.{Text, codes, text_eq, is_space, lstrip, rstrip, strip}
use ai_recruitment.Transcripts.{TranscriptError, SpeakerRole}

-- `_TIME_TOKEN`, with its parts read by `int`
pub record TimeToken : Type 0 where
  pub hours : Option ℕ
  pub minutes : ℕ
  pub seconds : ℕ

-- The speaker of a line, its text and the base rule.
pub record Label : Type 0 where
  pub key : Text
  pub name : Text
  pub role : SpeakerRole
  pub text : Text
  pub rule : Text

-- A labelled line, as `_append_segment` takes it.
pub record LabeledLine : Type 0 where
  pub label : Label
  pub start_ms : Option ℕ
  pub end_ms : Option ℕ

infixl 5 ◌then◌
-- Goes on with what is left, if there was a match.
abbrev pub ◌then◌ : {A B : Type 0} → Option A → (A → Option B) → Option B
none then k = none
(some a) then k = k a

-- One character that passes a test.
unfoldable pub expect : (ℕ → Bool) → Text → Option Text
expect p [] = none
expect p (c ∷ s) = if p c then some s else none

abbrev pub is_char : ℕ → ℕ → Bool
is_char a c = c == a

-- `[-–—]`
abbrev pub is_dash : ℕ → Bool
is_dash c = c == 45 || c == 8211 || c == 8212

-- `[：:]`
abbrev pub is_colon : ℕ → Bool
is_colon c = c == 65306 || c == 58

-- `\s+`
unfoldable pub some_spaces : Text → Option Text
unfolding expect
some_spaces s = expect is_space s then λ r. some (lstrip r)

-- `\s+` gives back one character where only white space is left: the last of two or more.
unfoldable pub last_space : Text → Option Text
last_space [] = none
last_space (c ∷ []) = none
last_space (c ∷ d ∷ []) = some (d ∷ [])
last_space (c ∷ d ∷ e ∷ s) = last_space (d ∷ e ∷ s)

-- `\s+(?P<body>.+?)\s*$`
unfoldable pub body_of : Text → Option Text
unfolding some_spaces
body_of s = some_spaces s then λ r. elim r [ [] ↦ last_space s | c ∷ t ↦ some (rstrip (c ∷ t)) ]

-- A literal.
unfoldable pub literal : Text → Text → Option Text
literal [] s = some s
literal (a ∷ w) [] = none
literal (a ∷ w) (c ∷ s) = let rest = literal w s in if c == a then rest else none

-- `re.IGNORECASE` on a lower-case letter, with the two letters beyond ASCII that fold to `s` and `k`
unfoldable pub is_letter : ℕ → ℕ → Bool
is_letter a c = c == a || (c + 32) == a || (a == 115 && c == 383) || (a == 107 && c == 8490)

unfoldable pub literal_ignorecase : Text → Text → Option Text
unfolding is_letter
literal_ignorecase [] s = some s
literal_ignorecase (a ∷ w) [] = none
literal_ignorecase (a ∷ w) (c ∷ s) =
    let rest = literal_ignorecase w s in if is_letter a c then rest else none

-- `_time_to_ms`
unfoldable pub time_to_ms : TimeToken → Result TranscriptError ℕ
time_to_ms t =
    if ltb 59 t.seconds || (is_some t.hours && ltb 59 t.minutes)
    then err TranscriptError.invalid_timestamp
    else ok (((or_else t.hours 0 * 60 + t.minutes) * 60 + t.seconds) * 1000)

-- `_role_rule_suffix`, on the labels that are found
unfoldable pub role_rule_suffix : Label → Text
role_rule_suffix label = elim label.role [
  | SpeakerRole.interviewer ↦ codes "interviewer"
  | SpeakerRole.candidate ↦ codes "candidate"
  | SpeakerRole.unknown ↦
      (if text_eq label.rule (codes "speaker_n") then codes "speaker_n" else codes "unknown")
]

module _ (digit_value : ℕ → Option ℕ) where
  -- `\d{2}`
  unfoldable pub two_digits : Text → Option (ℕ × Text)
  two_digits [] = none
  two_digits (c ∷ []) = none
  two_digits (c ∷ d ∷ s) = digit_value c then λ m. digit_value d then λ n. some (10 * m + n, s)

  -- `\d{1,2}`, before a character that is no digit
  unfoldable pub one_or_two_digits : Text → Option (ℕ × Text)
  one_or_two_digits [] = none
  one_or_two_digits (c ∷ []) = digit_value c then λ m. some (m, [])
  one_or_two_digits (c ∷ d ∷ s) = digit_value c then λ m. elim (digit_value d) [
    | none ↦ some (m, d ∷ s)
    | some n ↦ some (10 * m + n, s)
  ]

  -- The rest of `_TIME_TOKEN` after `\d{1,2}:`: with hours, or without.
  unfoldable pub time_rest : ℕ → Text → Option (TimeToken × Text)
  time_rest a s =
      elim (one_or_two_digits s then λ (b, t). expect (is_char 58) t then λ u.
      two_digits u then λ (c, v). some (record { hours = some a; minutes = b; seconds = c }, v)) [
        | some r ↦ some r
        | none ↦
            (two_digits s then λ (b, t).
            some (record { hours = none; minutes = a; seconds = b }, t))
      ]

  unfoldable pub time_token : Text → Option (TimeToken × Text)
  unfolding expect
  time_token s = one_or_two_digits s then λ (a, t). expect (is_char 58) t then λ u. time_rest a u

  -- `\d+`: the digits, and what follows them
  unfoldable pub digit_run : Text → Text × Text
  digit_run [] = ([], [])
  digit_run (c ∷ s) =
      let rest = digit_run s in
      elim (digit_value c) [ none ↦ ([], c ∷ s) | some m ↦ (c ∷ rest.0, rest.1) ]

  -- `_RE_TIMESTAMP_RANGE`
  unfoldable pub match_range : Text → Option (TimeToken × TimeToken × Text)
  match_range line = time_token (lstrip line) then λ (start, s). expect is_dash (lstrip s) then λ t.
      time_token (lstrip t) then λ (end, u). body_of u then λ body. some (start, end, body)

  -- `_RE_LONE_TIMESTAMP`, whose time is not kept
  unfoldable pub match_lone : Text → Option Text
  match_lone line = expect (is_char 91) (lstrip line) then λ s.
      time_token s then λ (ts, t). expect (is_char 93) t then λ u. body_of u

  -- `_RE_INTERVIEWER` and `_RE_CANDIDATE`, by their word
  unfoldable pub match_word : Text → Text → Option Text
  match_word word body =
      literal word (lstrip body) then λ s. expect is_colon (lstrip s) then λ t. some (strip t)

  -- `\s*:\s*(?P<text>.*)\s*$` after the digits, which are one at least
  unfoldable pub after_number : Text → Text → Option (Text × Text)
  after_number [] s = none
  after_number (d ∷ ds) s = expect (is_char 58) (lstrip s) then λ t. some (d ∷ ds, strip t)

  -- `_RE_SPEAKER_N`: the number and the text
  unfoldable pub match_speaker_n : Text → Option (Text × Text)
  match_speaker_n body = literal_ignorecase (codes "speaker") (lstrip body) then λ s.
      some_spaces s then λ t. let run = digit_run t in after_number run.0 run.1

  -- `_match_speaker_body`
  unfoldable pub match_speaker_body : Text → Option Label
  match_speaker_body body = elim (match_word (codes "面试官") body) [
    | some text ↦ some (record {
      key = codes "interviewer";
      name = codes "面试官";
      role = SpeakerRole.interviewer;
      text = text;
      rule = codes "interviewer_label";
    })
    | none ↦ elim (match_word (codes "候选人") body) [
      | some text ↦ some (record {
        key = codes "candidate";
        name = codes "候选人";
        role = SpeakerRole.candidate;
        text = text;
        rule = codes "candidate_label";
      })
      | none ↦
          (match_speaker_n body then λ (num, text). some (record {
            key = codes "speaker_" ++ num;
            name = codes "Speaker " ++ num;
            role = SpeakerRole.unknown;
            text = text;
            rule = codes "speaker_n";
          }))
    ]
  ]

  -- `_match_labeled_line`
  unfoldable pub match_labeled_line : Text → Result TranscriptError (Option LabeledLine)
  match_labeled_line line = elim (match_range line) [
    | some (start, end, body) ↦ elim (time_to_ms start) [
      | err e ↦ err e
      | ok start_ms ↦ elim (time_to_ms end) [
        | err e ↦ err e
        | ok end_ms ↦ ok (
            match_speaker_body body then λ label. some (record {
              label = record label { rule = codes "timestamp_range_" ++ role_rule_suffix label };
              start_ms = some start_ms;
              end_ms = some end_ms;
            }))
      ]
    ]
    | none ↦ elim (match_lone line) [
      | some body ↦ ok (
          match_speaker_body body then λ label. some (record {
            label = record label { rule = codes "timestamp_" ++ role_rule_suffix label };
            start_ms = none;
            end_ms = none;
          }))
      | none ↦ ok (
          match_speaker_body line then λ label.
          some (record { label = label; start_ms = none; end_ms = none }))
    ]
  ]
