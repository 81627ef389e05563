-- ===== src/Transcripts/Decoding.antt =====
-- `decode_transcript` of backend/app/services/transcript_parser.py: the checks of an upload, and its
-- text. Bytes are numbers below 256.
use ai_recruitment.Common.{
  ℕ, ◌+◌, ◌*◌, Bool, false, not, ◌||◌, ◌&&◌, Option, none, some, List, [], ◌∷◌, ◌==◌, ltb, leb,
  if◌then◌else◌, length, elem, bit, Result, ok, err,
}
use ai_recruitment.Common.Text.{Text, codes, text_eq, is_empty, strip}
use ai_recruitment.Transcripts.{TranscriptError, max_file_size, max_text_chars}
use ai_recruitment.Transcripts.Lines.{normalize_newlines}

-- What the code takes from Python: `str.lower`, the strict decoders, and SHA-256 of a text in UTF-8.
pub record Codecs : Type 0 where
  pub lower : Text → Text
  pub utf_8 : List ℕ → Option Text
  pub utf_8_sig : List ℕ → Option Text
  pub gb18030 : List ℕ → Option Text
  pub sha256 : Text → Text

pub data Encoding : Type 0 where
  utf_8 utf_8_sig gb18030 : Encoding

pub data SourceMethod : Type 0 where
  paste txt md : SourceMethod

pub record DecodedTranscript : Type 0 where
  pub text : Text
  pub encoding : Encoding
  pub sha256 : Text
  pub char_count : ℕ
  pub filename : Option Text
  pub size : ℕ
  pub mime : Text
  pub source_method : SourceMethod

-- `s.rsplit(".", 1)[-1]`
unfoldable pub after_last_dot : Text → Text
after_last_dot [] = []
after_last_dot (c ∷ s) =
    let rest = after_last_dot s in
    if c == 46 && not (elem 46 s) then s else if elem 46 s then rest else c ∷ s

-- `".." in s`
unfoldable pub has_two_dots : Text → Bool
has_two_dots [] = false
has_two_dots (c ∷ []) = false
has_two_dots (c ∷ d ∷ s) = (c == 46 && d == 46) || has_two_dots (d ∷ s)

-- `len(s) >= 2 and s[1] == ":"`
unfoldable pub has_drive : Text → Bool
has_drive (c ∷ d ∷ s) = d == 58
has_drive _ = false

-- `ext in _ALLOWED_EXTENSIONS`, without the dot
unfoldable pub is_allowed : Text → Bool
is_allowed ext = text_eq ext (codes "txt") || text_eq ext (codes "md")

unfoldable pub check_name : (Text → Text) → Text → Result TranscriptError Text
unfolding after_last_dot has_two_dots has_drive is_allowed
check_name lower name =
    if is_empty name
    then err TranscriptError.invalid_filename
    else if elem 47 name || elem 92 name || text_eq name (codes ".") || text_eq name (codes "..")
    then err TranscriptError.path_traversal
    else if has_two_dots name
    then err TranscriptError.path_traversal
    else if has_drive name
    then err TranscriptError.path_traversal
    else if not (elem 46 (lower name))
    then err TranscriptError.unsupported_extension
    else if not (is_allowed (after_last_dot (lower name)))
    then err TranscriptError.unsupported_extension
    else ok name

-- `_sanitize_filename`
unfoldable pub sanitize_filename : (Text → Text) → Text → Result TranscriptError Text
sanitize_filename lower filename = check_name lower (strip filename)

-- `_resolve_source`; without a file the method is `PASTE`, whatever was asked for.
unfoldable pub resolve_source :
    (Text → Text) → Option Text → Result TranscriptError (SourceMethod × Text)
resolve_source lower none = ok (SourceMethod.paste, codes "text/plain")
resolve_source lower (some filename) =
    let ext = after_last_dot (lower filename) in
    if text_eq ext (codes "txt")
    then ok (SourceMethod.txt, codes "text/plain")
    else if text_eq ext (codes "md")
    then ok (SourceMethod.md, codes "text/markdown")
    else err TranscriptError.unsupported_extension

-- A control byte that is not tab, line feed or carriage return.
unfoldable pub is_binaryish : ℕ → Bool
is_binaryish b = not (b == 9 || b == 10 || b == 13 || (leb 32 b && leb b 126) || leb 128 b)

unfoldable pub count_binaryish : List ℕ → ℕ
count_binaryish [] = 0
count_binaryish (b ∷ bytes) = bit (is_binaryish b) + count_binaryish bytes

-- `_reject_binary`, as a test. The quotient of two numbers below 2^22 exceeds 0.30 in floating point
-- exactly if it exceeds 3/10.
unfoldable pub is_binary : List ℕ → Bool
unfolding count_binaryish
is_binary payload = elem 0 payload || ltb (3 * length payload) (10 * count_binaryish payload)

unfoldable pub has_bom : List ℕ → Bool
has_bom (a ∷ b ∷ c ∷ rest) = a == 239 && b == 187 && c == 191
has_bom _ = false

-- `payload[3:]`
unfoldable pub drop_bom : List ℕ → List ℕ
drop_bom (a ∷ b ∷ c ∷ rest) = rest
drop_bom _ = []

unfoldable pub decoded_by : Encoding → Option Text → Result TranscriptError (Text × Encoding)
decoded_by encoding none = err TranscriptError.undecodable
decoded_by encoding (some text) = ok (text, encoding)

-- `_decode_bytes`
unfoldable pub decode_bytes : Codecs → List ℕ → Result TranscriptError (Text × Encoding)
unfolding has_bom drop_bom decoded_by
decode_bytes codecs payload =
    if has_bom payload
    then elim (codecs.utf_8_sig payload) [
      | some text ↦ ok (text, Encoding.utf_8_sig)
      | none ↦ decoded_by Encoding.gb18030 (codecs.gb18030 (drop_bom payload))
    ]
    else elim (codecs.utf_8 payload) [
      | some text ↦ ok (text, Encoding.utf_8)
      | none ↦ decoded_by Encoding.gb18030 (codecs.gb18030 payload)
    ]

unfoldable pub safe_name : (Text → Text) → Option Text → Result TranscriptError (Option Text)
safe_name lower none = ok none
safe_name lower (some filename) = elim (sanitize_filename lower filename) [
  | ok name ↦ ok (some name)
  | err e ↦ err e
]

-- The end of `decode_transcript`, with the decoded bytes.
unfoldable pub checked_text :
    Codecs
    → Option Text
    → ℕ
    → SourceMethod × Text
    → Text × Encoding
    → Result TranscriptError DecodedTranscript
checked_text codecs name size (method, mime) (raw, encoding) =
    let text = normalize_newlines raw in
    if is_empty (strip text)
    then err TranscriptError.empty_content
    else if ltb max_text_chars (length text)
    then err TranscriptError.text_too_long
    else ok (record {
      text = text;
      encoding = encoding;
      sha256 = codecs.sha256 text;
      char_count = length text;
      filename = name;
      size = size;
      mime = mime;
      source_method = method;
    })

-- `decode_transcript`
unfoldable pub decode_transcript :
    Codecs → List ℕ → Option Text → Result TranscriptError DecodedTranscript
decode_transcript codecs payload filename =
    if ltb max_file_size (length payload)
    then err TranscriptError.file_too_large
    else if length payload == 0
    then err TranscriptError.empty_content
    else elim (safe_name codecs.lower filename) [
      | err e ↦ err e
      | ok name ↦ elim (resolve_source codecs.lower name) [
        | err e ↦ err e
        | ok source ↦
            (if is_binary payload
              then err TranscriptError.binary_rejected
              else elim (decode_bytes codecs payload) [
                | err e ↦ err e
                | ok decoded ↦ checked_text codecs name (length payload) source decoded
              ])
      ]
    ]
