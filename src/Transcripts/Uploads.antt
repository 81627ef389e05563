-- ===== src/Transcripts/Uploads.antt =====
-- What `decode_transcript` (backend/app/services/transcript_parser.py) lets through, and how parsing
-- goes on with it.
use ai_recruitment.Common.{
  ℕ, ◌≤◌, ◌≡◌, ◌≢◌, refl, inl, inr, true, false, Option, none, some, List, [], ◌∷◌, length, elem,
  ok, err, Result-cases, arith,
}
use ai_recruitment.Common.Text.{Text, is_empty, strip}
use ai_recruitment.Transcripts.{TranscriptError, max_file_size, max_text_chars}
use ai_recruitment.Transcripts.Lines.{normalize_newlines, normalize_newlines_same}
use ai_recruitment.Transcripts.Parser.{parse_transcript}
use ai_recruitment.Transcripts.Blank.{IsLineError, parse_transcript-err_iff}
use ai_recruitment.Transcripts.Decoding.{
  Codecs, Encoding, SourceMethod, DecodedTranscript, paste, after_last_dot, has_two_dots, has_drive,
  is_allowed, check_name, sanitize_filename, resolve_source, is_binary, decode_bytes, safe_name,
  checked_text, decode_transcript,
}

-- No carriage return is left.
elem-normalize_newlines : (s : Text) → elem 13 (normalize_newlines s) ≡ false
unfolding normalize_newlines
elem-normalize_newlines [] = refl
elem-normalize_newlines (c ∷ []) = ground arith
elem-normalize_newlines (c ∷ d ∷ s) = ground (arith, elem-normalize_newlines (d ∷ s))

-- A name that leads out of no directory.
pub record IsSafe (name : Text) : Type 0 where
  pub named : is_empty name ≡ false
  pub no_slash : elem 47 name ≡ false
  pub no_backslash : elem 92 name ≡ false
  pub no_parent : has_two_dots name ≡ false
  pub no_drive : has_drive name ≡ false

check_name-IsSafe :
    (lower : Text → Text) (name n : Text) → check_name lower name ≡ ok n → (n ≡ name) × IsSafe name
unfolding check_name
check_name-IsSafe lower name n h = (
  ground (arith, h),
  record {
    named = ground (arith, h);
    no_slash = ground (arith, h);
    no_backslash = ground (arith, h);
    no_parent = ground (arith, h);
    no_drive = ground (arith, h);
  },
)

check_name-is_allowed :
    (lower : Text → Text) (name n : Text)
    → check_name lower name ≡ ok n
    → is_allowed (after_last_dot (lower name)) ≡ true
unfolding check_name
check_name-is_allowed lower name n h = ground (arith, h)

resolve_allowed :
    (lower : Text → Text) (name : Text)
    → is_allowed (after_last_dot (lower name)) ≡ true
    → (source : SourceMethod × Text) × (resolve_source lower (some name) ≡ ok source)
      × (source.0 ≢ paste)
unfolding resolve_source is_allowed
resolve_allowed lower name h = elim (Result-cases (resolve_source lower (some name))) [
  | inl (x, e) ↦ (x, e, λ p. ground (arith, e, p))
  | inr (y, e) ↦ ground (arith, e, h)
]

-- The name of a file that is accepted is safe, and has a method of its own: the check on the
-- extension that follows does not fail.
pub sanitize-resolve :
    (lower : Text → Text) (filename name : Text)
    → sanitize_filename lower filename ≡ ok name
    → IsSafe name
      × ((source : SourceMethod × Text) × (resolve_source lower (some name) ≡ ok source)
          × (source.0 ≢ paste))
unfolding sanitize_filename
sanitize-resolve lower filename name h =
    let (same, safe) = check_name-IsSafe lower (strip filename) name h in
    (
      rw same safe,
      resolve_allowed lower name
          (ground (arith, same, check_name-is_allowed lower (strip filename) name h)),
    )

decode_transcript-ok :
    (codecs : Codecs) (payload : List ℕ) (filename : Option Text) (d : DecodedTranscript)
    → decode_transcript codecs payload filename ≡ ok d
    → (name : Option Text) × (source : SourceMethod × Text) × (decoded : Text × Encoding)
      × (safe_name codecs.lower filename ≡ ok name)
      × (checked_text codecs name (length payload) source decoded ≡ ok d)
      × (is_binary payload ≡ false)
unfolding decode_transcript
decode_transcript-ok codecs payload filename d h =
    elim (Result-cases (safe_name codecs.lower filename)) [
      | inr (x, e) ↦ ground (arith, e, h)
      | inl (name, e) ↦ elim (Result-cases (resolve_source codecs.lower name)) [
        | inr (x, f) ↦ ground (arith, e, f, h)
        | inl (source, f) ↦ elim (Result-cases (decode_bytes codecs payload)) [
          | inr (x, g) ↦ ground (arith, e, f, g, h)
          | inl (decoded, g) ↦
              (name, source, decoded, e, ground (arith, e, f, g, h), ground (arith, e, f, g, h))
        ]
      ]
    ]

decode_transcript-size :
    (codecs : Codecs) (payload : List ℕ) (filename : Option Text) (d : DecodedTranscript)
    → decode_transcript codecs payload filename ≡ ok d
    → (1 ≤ length payload) × (length payload ≤ max_file_size)
unfolding decode_transcript
decode_transcript-size codecs payload filename d h = (ground (arith, h), ground (arith, h))

-- A checked text is the normalized one, with its facts.
checked_text-ok :
    (codecs : Codecs) (name : Option Text) (size : ℕ) (source : SourceMethod × Text)
    (decoded : Text × Encoding) (d : DecodedTranscript)
    → checked_text codecs name size source decoded ≡ ok d
    → (d.text ≡ normalize_newlines decoded.0)
      × (d.char_count ≡ length d.text)
      × (d.char_count ≤ max_text_chars)
      × (is_empty (strip d.text) ≡ false)
      × (d.filename ≡ name)
unfolding checked_text
checked_text-ok codecs name size (method, mime) (raw, encoding) d h =
    (ground (arith, h), ground (arith, h), ground (arith, h), ground (arith, h), ground (arith, h))

safe_name-IsSafe :
    (lower : Text → Text) (filename : Option Text) (name : Text)
    → safe_name lower filename ≡ ok (some name)
    → IsSafe name
unfolding safe_name
safe_name-IsSafe lower none name h = ground (arith, h)
safe_name-IsSafe lower (some f) name h = elim (Result-cases (sanitize_filename lower f)) [
  | inr (x, e) ↦ ground (arith, e, h)
  | inl (n, e) ↦
      let same : name ≡ n = ground (arith, e, h) in rw same (sanitize-resolve lower f n e).0
]

-- What is decoded is within the limits of bytes and characters, counted, not blank and free of
-- carriage returns, its bytes hold no zero, and its name, if it has one, is safe. Parsing it fails by
-- a time stamp out of range or by the limit on segments alone.
pub decode_transcript-parse :
    (codecs : Codecs) (payload : List ℕ) (filename : Option Text) (d : DecodedTranscript)
    (digit_value : ℕ → Option ℕ)
    → decode_transcript codecs payload filename ≡ ok d
    → (1 ≤ length payload)
      × (length payload ≤ max_file_size)
      × (elem 0 payload ≡ false)
      × (d.char_count ≡ length d.text)
      × (d.char_count ≤ max_text_chars)
      × (is_empty (strip d.text) ≡ false)
      × (elem 13 d.text ≡ false)
      × ((name : Text) → d.filename ≡ some name → IsSafe name)
      × ((e : TranscriptError) → parse_transcript digit_value d.text ≡ err e → IsLineError e)
unfolding is_binary
decode_transcript-parse codecs payload filename d digit_value h =
    let (name, source, decoded, e, f, b) = decode_transcript-ok codecs payload filename d h in
    let (low, high) = decode_transcript-size codecs payload filename d h in
    let (t, c, m, n, s) = checked_text-ok codecs name (length payload) source decoded d f in
    let clean : elem 13 d.text ≡ false = rw t (elem-normalize_newlines decoded.0) in
    let same : normalize_newlines d.text ≡ d.text = normalize_newlines_same d.text clean in
    let (u, v, w, misstamped, stamped) = parse_transcript-err_iff digit_value d.text in
    (
      low,
      high,
      ground (arith, b),
      c,
      m,
      n,
      clean,
      λ x q. safe_name-IsSafe codecs.lower filename x (ground (arith, e, s, q)),
      λ x q. elim (w x q) [
        | inl y ↦ ground (arith, u.0, y, q, same, n)
        | inr (inl y) ↦ ground (arith, v.0, y, q, same, c, m)
        | inr (inr y) ↦ y
      ],
    )
