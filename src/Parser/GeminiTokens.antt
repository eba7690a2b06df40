-- ===== src/Parser/GeminiTokens.antt =====
-- What the token counters of internal/parser/gemini/gemini.go keep.
use assaio.Prelude.{
  ℕ, ◌<◌, ◌^◌, ◌≡◌, refl, String, Bool-cases, inl, inr, List, [], ◌∷◌, Option, none, some, All,
  All-append, str_eq, arith,
}
use assaio.Prelude.Int.{ℤ, pos, pos_part, ◌≤ℤ◌, ◌-ℤ◌, wrap64}
use assaio.Usage.{Tokens, Record}
use assaio.Parser.{non_neg, subset, sum_non_neg}
use assaio.Parser.Clamps.{sum_non_neg-saturated, saturated}
use assaio.Parser.Gemini.{
  Message, Decoder, Pass, message_tokens, message_record, is_unpriced, read_message, read_line,
  read_lines, new_pass, parse,
}

-- The counters of a message do not exceed the largest int64 value.
abbrev pub IsInt64 : Message → Type 0
IsInt64 m = All (λ n. pos_part n < 2 ^ 63) (m.input ∷ m.output ∷ m.tool ∷ m.thoughts ∷ [])

abbrev pub AllInt64 : Decoder → Type 0
AllInt64 d = (raw : String) (m : Message) → d.message raw ≡ some m → IsInt64 m

-- Counters in order: none negative, and the reasoning a part of the output.
pub record IsOrdered (t : Tokens) : Type 0 where
  pub input : pos 0 ≤ℤ t.input
  pub output : pos 0 ≤ℤ t.output
  pub cache_read : pos 0 ≤ℤ t.cache_read
  pub reasoning : pos 0 ≤ℤ t.reasoning
  pub part : t.reasoning ≤ℤ t.output

prompt_left :
    (c i : ℤ)
    → pos_part i < 2 ^ 63
    → (pos 0 ≤ℤ wrap64 (non_neg i -ℤ subset c (non_neg i))) × (pos 0 ≤ℤ subset c (non_neg i))
unfolding non_neg subset ◌-ℤ◌ wrap64
prompt_left c i h = (ground (arith, h), ground (arith, h))

reasoned : (r o : ℤ) → pos 0 ≤ℤ o → (pos 0 ≤ℤ subset r o) × (subset r o ≤ℤ o)
unfolding non_neg subset
reasoned r o h = (ground (arith, h), ground (arith, h))

saturated_pos : (n : ℕ) → pos 0 ≤ℤ saturated n
saturated_pos n = ground arith

message_tokens-Ordered : (m : Message) → IsInt64 m → IsOrdered (message_tokens m)
unfolding message_tokens
message_tokens-Ordered m (i, (o, (t, (r, u)))) =
    let total : pos 0 ≤ℤ sum_non_neg (m.output ∷ m.tool ∷ m.thoughts ∷ []) =
      rw (sum_non_neg-saturated (m.output ∷ m.tool ∷ m.thoughts ∷ []) (o, (t, (r, tt))))
        (saturated_pos _) in
    let (left, read) = prompt_left m.cached m.input i in
    let (low, part) = reasoned m.thoughts _ total in
    record { input = left; output = total; cache_read = read; reasoning = low; part = part }

abbrev pub AllOrdered : Pass → Type 0
AllOrdered st = All (λ (r : Record). IsOrdered r.tokens) st.out

message_read :
    (d : Decoder) (o : Option Message) (st : Pass)
    → ((m : Message) → o ≡ some m → IsInt64 m)
    → AllOrdered st
    → AllOrdered (read_message d o st)
unfolding message_record
message_read d none st f h = h
message_read d (some m) st f h = elim (Bool-cases (is_unpriced m)) [
  | inl e ↦ rw e h
  | inr e ↦ rw e (All-append _ st.out _ h (message_tokens-Ordered m (f m refl), tt))
]

line_read :
    (d : Decoder) (raw : String) (st : Pass)
    → AllInt64 d
    → AllOrdered st
    → AllOrdered (read_line d raw st)
unfolding read_line
line_read d raw st f h = elim (Bool-cases (str_eq raw "")) [
  | inl e ↦ rw e h
  | inr e ↦ rw e (message_read d (d.message raw) _ (f raw) h)
]

lines_read :
    (d : Decoder) (raws : List String) (st : Pass)
    → AllInt64 d
    → AllOrdered st
    → AllOrdered (read_lines d raws st)
unfolding read_lines
lines_read d [] st f h = h
lines_read d (raw ∷ raws) st f h = lines_read d raws (read_line d raw st) f (line_read d raw st f h)

-- Where the decoder gives int64 counters, no record of a chat log has a negative one, and the
-- reasoning tokens of each are a part of its output, even where the output saturates.
pub parse-IsOrdered :
    (d : Decoder) (raws : List String)
    → AllInt64 d
    → All (λ (r : Record). IsOrdered r.tokens) (parse d raws).0
unfolding parse
parse-IsOrdered d raws f = lines_read d raws new_pass f tt
