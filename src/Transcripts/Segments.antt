-- ===== src/Transcripts/Segments.antt =====
-- What `parse_transcript` (backend/app/services/transcript_parser.py) promises of its segments.
use ai_recruitment.Common.{
  ℕ, ◌+◌, ◌≤◌, ◌≡◌, refl, inl, inr, Bool, true, false, not, ◌||◌, ◌&&◌, Option, List, [], ◌∷◌, ◌++◌,
  leb, length, any, ok, Bool-cases, Option-cases, Result-cases, arith,
}
use ai_recruitment.Common.Text.{Text, text_eq, text_eq_iff, is_empty, strip}
use ai_recruitment.Transcripts.{ParsedSegment, ParsedTranscript, max_segments}
use ai_recruitment.Transcripts.Lines.{normalize_newlines, split_lines}
use ai_recruitment.Transcripts.Labels.{LabeledLine, match_labeled_line}
use ai_recruitment.Transcripts.Parser.{
  Parsing, start, add_rule, segment_of, append_segment, unknown_line, no_segments, continue_last,
  unlabeled_line, parse_line, parse_lines, parsed, parse_transcript,
}

-- The segments carry the numbers from the given one on.
unfoldable pub AreNumbered : ℕ → List ParsedSegment → Type 0
AreNumbered n [] = Unit
AreNumbered n (s ∷ rest) = (s.segment_no ≡ n) × AreNumbered (n + 1) rest

-- A rule among those of the segments.
abbrev pub uses_rule : Text → ParsedSegment → Bool
uses_rule rule s = text_eq rule s.matched_rule

-- No rule is listed twice.
unfoldable pub are_distinct : List Text → Bool
are_distinct [] = true
are_distinct (r ∷ rules) = not (any (text_eq r) rules) && are_distinct rules

length-continue_last :
    (l : Text) (segments : List ParsedSegment) → length (continue_last l segments) ≡ length segments
unfolding continue_last
length-continue_last l [] = refl
length-continue_last l (s ∷ []) = refl
length-continue_last l (s ∷ t ∷ rest) = ground (arith, length-continue_last l (t ∷ rest))

pub length-snoc : {A : Type 0} (xs : List A) (x : A) → length (xs ++ x ∷ []) ≡ length xs + 1
length-snoc [] x = refl
length-snoc (y ∷ xs) x = ground (arith, length-snoc xs x)

any-snoc :
    {A : Type 0} (p : A → Bool) (xs : List A) (x : A) → any p (xs ++ x ∷ []) ≡ any p xs || p x
any-snoc p [] x = ground arith
any-snoc p (y ∷ xs) x = ground (arith, any-snoc p xs x)

AreNumbered-snoc :
    (n : ℕ) (segments : List ParsedSegment) (s : ParsedSegment)
    → AreNumbered n segments
    → s.segment_no ≡ n + length segments
    → AreNumbered n (segments ++ s ∷ [])
unfolding AreNumbered
AreNumbered-snoc n [] s h e = (ground (arith, e), tt)
AreNumbered-snoc n (t ∷ rest) s (p, h) e = (p, AreNumbered-snoc (n + 1) rest s h (omega (arith, e)))

AreNumbered-continue_last :
    (n : ℕ) (l : Text) (segments : List ParsedSegment)
    → AreNumbered n segments
    → AreNumbered n (continue_last l segments)
unfolding AreNumbered continue_last
AreNumbered-continue_last n l [] h = h
AreNumbered-continue_last n l (s ∷ []) h = h
AreNumbered-continue_last n l (s ∷ t ∷ rest) (p, h) =
    (p, AreNumbered-continue_last (n + 1) l (t ∷ rest) h)

any-continue_last :
    (rule l : Text) (segments : List ParsedSegment)
    → any (uses_rule rule) (continue_last l segments) ≡ any (uses_rule rule) segments
unfolding continue_last
any-continue_last rule l [] = refl
any-continue_last rule l (s ∷ []) = refl
any-continue_last rule l (s ∷ t ∷ rest) = ground (arith, any-continue_last rule l (t ∷ rest))

-- A rule is listed if it was, or is the one that was added.
any-add_rule :
    (rule r : Text) (rules : List Text)
    → any (text_eq r) (add_rule rule rules) ≡ any (text_eq r) rules || text_eq r rule
unfolding add_rule
any-add_rule rule r rules = elim (Bool-cases (any (text_eq rule) rules)) [
  | inr n ↦ ground (arith, n, any-snoc (text_eq r) rules rule)
  | inl y ↦ elim (Bool-cases (text_eq r rule)) [
    | inr n ↦ ground (arith, y, n)
    | inl e ↦ let same : r ≡ rule = (text_eq_iff r rule).0 e in ground (arith, y, e, same)
  ]
]

text_eq_sym : (s t : Text) → text_eq s t ≡ text_eq t s
unfolding text_eq
text_eq_sym [] [] = refl
text_eq_sym (a ∷ s) (b ∷ t) = ground (arith, text_eq_sym s t)
text_eq_sym [] (b ∷ t) = refl
text_eq_sym (a ∷ s) [] = refl

distinct-snoc :
    (rule : Text) (rules : List Text)
    → are_distinct rules ≡ true
    → any (text_eq rule) rules ≡ false
    → are_distinct (rules ++ rule ∷ []) ≡ true
unfolding are_distinct
distinct-snoc rule [] d n = refl
distinct-snoc rule (r ∷ rules) d n =
    ground
      (arith, d, n, distinct-snoc rule rules, any-snoc (text_eq r) rules rule, text_eq_sym r rule)

add_rule-distinct :
    (rule : Text) (rules : List Text)
    → are_distinct rules ≡ true
    → are_distinct (add_rule rule rules) ≡ true
unfolding add_rule
add_rule-distinct rule rules d = elim (Bool-cases (any (text_eq rule) rules)) [
  | inl y ↦ ground (arith, y, d)
  | inr n ↦ ground (arith, n, distinct-snoc rule rules d n)
]

-- The loop's state agrees with itself: segments are numbered from 1 and within the limit, and the
-- rules listed are those of the segments, each once.
pub record Agrees (p : Parsing) : Type 0 where
  pub numbered : AreNumbered 1 p.segments
  pub in_limit : length p.segments ≤ max_segments
  pub distinct : are_distinct p.rules_order ≡ true
  pub listed : (rule : Text) → any (text_eq rule) p.rules_order ≡ any (uses_rule rule) p.segments

append_segment-Agrees :
    (line : LabeledLine) (p q : Parsing) → Agrees p → append_segment line p ≡ ok q → Agrees q
unfolding append_segment segment_of
append_segment-Agrees line p q h e = elim (Bool-cases (leb max_segments (length p.segments))) [
  | inl y ↦ ground (arith, y, e)
  | inr n ↦
      let s = segment_of (length p.segments + 1) line in
      let same : q ≡ record {
        segments = p.segments ++ s ∷ [];
        rules_order = add_rule line.label.rule p.rules_order;
        paragraph_break = false;
      } =
        ground (arith, n, e) in
      rw same (record {
        numbered = AreNumbered-snoc 1 p.segments s h.numbered (omega arith);
        in_limit = ground (arith, length-snoc p.segments s, n);
        distinct = add_rule-distinct line.label.rule p.rules_order h.distinct;
        listed = λ rule. ground (
          arith,
          any-add_rule line.label.rule rule p.rules_order,
          any-snoc (uses_rule rule) p.segments s,
          h.listed rule,
        );
      })
]

unlabeled_line-Agrees : (l : Text) (p q : Parsing) → Agrees p → unlabeled_line l p ≡ ok q → Agrees q
unfolding unlabeled_line
unlabeled_line-Agrees l p q h e = elim (Bool-cases (no_segments p.segments || p.paragraph_break)) [
  | inl y ↦ append_segment-Agrees (unknown_line l) p q h (ground (arith, y, e))
  | inr n ↦
      let same : q ≡ record p { segments = continue_last l p.segments } = ground (arith, n, e) in
      rw same (record {
        numbered = AreNumbered-continue_last 1 l p.segments h.numbered;
        in_limit = rw (length-continue_last l p.segments) h.in_limit;
        distinct = h.distinct;
        listed = λ rule. rw (any-continue_last rule l p.segments) (h.listed rule);
      })
]

module _ (digit_value : ℕ → Option ℕ) where
  parse_line-Agrees :
      (l : Text) (p q : Parsing) → Agrees p → parse_line digit_value l p ≡ ok q → Agrees q
  unfolding parse_line
  parse_line-Agrees l p q h e = elim (Bool-cases (is_empty (strip l))) [
    | inl y ↦
        let same : q ≡ record p { paragraph_break = true } = ground (arith, y, e) in
        rw same (record {
          numbered = h.numbered;
          in_limit = h.in_limit;
          distinct = h.distinct;
          listed = h.listed;
        })
    | inr n ↦ elim (Result-cases (match_labeled_line digit_value l)) [
      | inr (x, y) ↦ ground (arith, n, y, e)
      | inl (o, y) ↦ elim (Option-cases o) [
        | inl z ↦ unlabeled_line-Agrees l p q h (ground (arith, n, y, z, e))
        | inr (line, z) ↦ append_segment-Agrees line p q h (ground (arith, n, y, z, e))
      ]
    ]
  ]

  parse_lines-Agrees :
      (ls : List Text) (p q : Parsing) → Agrees p → parse_lines digit_value ls p ≡ ok q → Agrees q
  unfolding parse_lines
  parse_lines-Agrees [] p q h e = ground (arith, e, h)
  parse_lines-Agrees (l ∷ ls) p q h e = elim (Result-cases (parse_line digit_value l p)) [
    | inl (v, w) ↦ parse_lines-Agrees ls v q (parse_line-Agrees l p v h w) (ground (arith, w, e))
    | inr (y, w) ↦ ground (arith, w, e)
  ]

  start-Agrees : Agrees start
  unfolding start AreNumbered are_distinct
  start-Agrees = record {
    numbered = tt;
    in_limit = omega arith;
    distinct = refl;
    listed = λ rule. refl;
  }

  -- A transcript that is parsed has between one and ten thousand segments, which are numbered from 1
  -- in their order and counted, and its list of matched rules has exactly the rules of its segments,
  -- each once.
  pub parse_transcript-AreNumbered :
      (text : Text) (r : ParsedTranscript)
      → parse_transcript digit_value text ≡ ok r
      → AreNumbered 1 r.segments
        × (r.segment_count ≡ length r.segments)
        × (1 ≤ length r.segments)
        × (length r.segments ≤ max_segments)
        × (are_distinct r.matched_rules ≡ true)
        × ((rule : Text) → any (text_eq rule) r.matched_rules ≡ any (uses_rule rule) r.segments)
  unfolding parse_transcript parsed
  parse_transcript-AreNumbered text r e =
      let ls = split_lines (normalize_newlines text) in
      elim (Result-cases (parse_lines digit_value ls start)) [
        | inr (y, w) ↦ ground (arith, w, e)
        | inl (p, w) ↦
            let h = parse_lines-Agrees ls start p start-Agrees w in
            let same : r ≡ record {
              segments = p.segments;
              matched_rules = p.rules_order;
              segment_count = length p.segments;
            } =
              ground (arith, w, e) in
            rw same (h.numbered, refl, ground (arith, w, e), h.in_limit, h.distinct, h.listed)
      ]
