-- ===== src/Parser/Claude/Totals.antt =====
-- What the counters of the records of internal/parser/claude keep.
use assaio.Prelude.{
  ℕ, ◌+◌, ◌≡◌, refl, ap, ◌∙◌, sym, Option-cases, inl, inr, List, Option, none, some, All,
  All-append, All-update_at, String, arith,
}
use assaio.Prelude.Int.{ℤ, pos, max_ℤ, ◌≤ℤ◌, ◌+ℤ◌, wrap64}
use assaio.Prelude.Wrap.{add_congr}
use assaio.Usage.{Tokens, Activity, Record}
use assaio.Parser.{non_neg}
use assaio.Parser.Clamps.{subset-bounds}
use assaio.Parser.Tools.{ToolCounts, total_calls, lookup}
use assaio.Parser.Purposes.{IsSplit, five_pos, advanced, plus_is}
use assaio.Parser.Claude.{
  Library, Line, TokenUsage, ToolResult, BlockActivity, ContentBlock, ParseState, new_parse_state,
}
use assaio.Parser.Claude.Reader.{at_last, append_keyed, record_step, parse_all}
use assaio.Parser.Claude.Results.{sub_agent_record}
use assaio.Parser.Claude.Records.{
  cache_write_1h, tokens_of, max_tokens, add_calls, merge_response, record_from_line,
}
use assaio.Parser.Claude.Moves.{Keeps, calls, apply_raws-Inv}

-- Counters that usage.CheckCounts accepts from below: none negative, and the 1-hour cache writes a
-- part of the cache writes.
pub record IsCount (t : Tokens) : Type 0 where
  pub input : pos 0 ≤ℤ t.input
  pub output : pos 0 ≤ℤ t.output
  pub cache_read : pos 0 ≤ℤ t.cache_read
  pub cache_write : pos 0 ≤ℤ t.cache_write
  pub one_hour : pos 0 ≤ℤ t.cache_write_1h
  pub part : t.cache_write_1h ≤ℤ t.cache_write
  pub reasoning : t.reasoning ≡ pos 0

clamped : (n : ℤ) → pos 0 ≤ℤ non_neg n
unfolding non_neg
clamped n = ground arith

clamped_twice : (n : ℤ) → non_neg (non_neg n) ≡ non_neg n
unfolding non_neg
clamped_twice n = ground arith

one_hour_part :
    (u : TokenUsage) → (pos 0 ≤ℤ cache_write_1h u) × (cache_write_1h u ≤ℤ non_neg u.cache_write)
unfolding cache_write_1h
one_hour_part u = elim (Option-cases u.creation_1h) [
  | inl e ↦ rw e ((omega arith), clamped u.cache_write)
  | inr (n, e) ↦
      let (low, high) = subset-bounds n (non_neg u.cache_write) in
      rw e (low, rw (clamped_twice u.cache_write) at high)
]

tokens_of-Count : (u : TokenUsage) → IsCount (tokens_of u)
unfolding tokens_of
tokens_of-Count u = record {
  input = clamped u.input;
  output = clamped u.output;
  cache_read = clamped u.cache_read;
  cache_write = clamped u.cache_write;
  one_hour = (one_hour_part u).0;
  part = (one_hour_part u).1;
  reasoning = refl;
}

max_low : (a b : ℤ) → pos 0 ≤ℤ a → pos 0 ≤ℤ max_ℤ a b
max_low a b h = ground arith

max_part : (a b c d : ℤ) → a ≤ℤ b → c ≤ℤ d → max_ℤ a c ≤ℤ max_ℤ b d
max_part a b c d h k = ground arith

max_tokens-Count : (r u : Tokens) → IsCount r → IsCount u → IsCount (max_tokens r u)
max_tokens-Count r u h k = record {
  input = max_low r.input u.input h.input;
  output = max_low r.output u.output h.output;
  cache_read = max_low r.cache_read u.cache_read h.cache_read;
  cache_write = max_low r.cache_write u.cache_write h.cache_write;
  one_hour = max_low r.cache_write_1h u.cache_write_1h h.one_hour;
  part = max_part r.cache_write_1h r.cache_write u.cache_write_1h u.cache_write h.part k.part;
  reasoning = h.reasoning;
}

-- A record whose token counters are in order and whose tool calls are split by purpose.
pub record IsSound (r : Record) : Type 0 where
  pub tokens : IsCount r.tokens
  pub split : IsSplit r

counted-Sound :
    (f : Activity → Activity) (r : Record)
    → ((a : Activity) → calls (f a) ≡ calls a)
    → IsSound r
    → IsSound (record r { activity = f r.activity })
counted-Sound f r q h = record {
  tokens = h.tokens;
  split =
      ap (λ c. wrap64 c.0) (q r.activity)
      ∙ h.split
      ∙ ap (λ c. wrap64 (c.1.0 +ℤ (c.1.1.0 +ℤ (c.1.1.1.0 +ℤ (c.1.1.1.1.0 +ℤ c.1.1.1.1.1)))))
          (sym (q r.activity));
}

whole :
    (c : ToolCounts) → total_calls c ≡ c.reads + (c.searches + (c.commands + (c.writes + c.other)))
unfolding total_calls
whole c = omega arith

merge-Sound :
    (l : Line) (act : BlockActivity) (r : Record) → IsSound r → IsSound (merge_response l act r)
unfolding merge_response add_calls
merge-Sound l act r h =
    let c = act.by_purpose in
    let t = r.activity in
    record {
      tokens = max_tokens-Count r.tokens (tokens_of l.message_usage) h.tokens (tokens_of-Count _);
      split =
          plus_is t.tool_calls _
          ∙ add_congr _ _ _ _ h.split (
              ap (λ n. wrap64 (pos n)) (whole c)
              ∙ ap wrap64 (sym (five_pos c.reads c.searches c.commands c.writes c.other)))
          ∙ sym (
              advanced t.reads t.searches t.commands t.writes t.other c.reads c.searches c.commands
                c.writes c.other);
    }

line-Sound :
    (lib : Library) (l : Line) (st : ParseState) (act : BlockActivity) (key : String)
    → IsSound (record_from_line lib l st.carry act key)
unfolding record_from_line
line-Sound lib l st act key =
    let c = act.by_purpose in
    record {
      tokens = tokens_of-Count l.message_usage;
      split =
          ap (λ n. wrap64 (pos n)) (whole c)
          ∙ ap wrap64 (sym (five_pos c.reads c.searches c.commands c.writes c.other));
    }

agent-Sound :
    (lib : Library) (l : Line) (t : ToolResult) (u : TokenUsage) (st : ParseState)
    → IsSound (sub_agent_record lib l t u st.carry)
unfolding sub_agent_record
agent-Sound lib l t u st = record {
  tokens = tokens_of-Count u;
  split = ap wrap64 (sym (five_pos 0 0 0 0 0));
}

abbrev pub AllSound : ParseState → Type 0
AllSound st = All IsSound st.out

at_last-Sound :
    (f : Activity → Activity) (o : Option ℕ) (rs : List Record)
    → ((a : Activity) → calls (f a) ≡ calls a)
    → All IsSound rs
    → All IsSound (at_last f o rs)
at_last-Sound f none rs q h = h
at_last-Sound f (some i) rs q h = All-update_at IsSound _ (λ r k. counted-Sound f r q k) i rs h

keyed-Sound :
    (lib : Library) (l : Line) (act : BlockActivity) (bs : List ContentBlock) (key : String)
    (o : Option ℕ) (st : ParseState)
    → AllSound st
    → AllSound (append_keyed lib l act bs key o st)
unfolding record_step
keyed-Sound lib l act bs key (some i) st h = All-update_at IsSound _ (merge-Sound l act) i st.out h
keyed-Sound lib l act bs key none st h =
    All-append IsSound st.out _ h (line-Sound lib l st act key, tt)

keeps_sound : (lib : Library) → Keeps lib AllSound
keeps_sound lib = record {
  stated = λ st seen compacting budget skipped session timeline carry h. h;
  counted = λ f st q h. at_last-Sound f st.last st.out q h;
  delegated = λ l t u st h. All-append IsSound st.out _ h (agent-Sound lib l t u st, tt);
  resolved = λ bs st h. h;
  denied = λ bs st h. h;
  compacted = λ l st h. h;
  responded = λ l act bs key st e h. keyed-Sound lib l act bs key (lookup key st.by_message) st h;
}

-- Whatever a transcript holds, no record read from it has a negative token counter, the 1-hour cache
-- writes of each are a part of its cache writes, and its tool-call total is the int64 sum of the
-- purposes.
pub parse_all-Sound :
    (lib : Library) (raws : List String) → All IsSound (parse_all lib raws).records
unfolding parse_all
parse_all-Sound lib raws = apply_raws-Inv lib AllSound (keeps_sound lib) raws new_parse_state tt
