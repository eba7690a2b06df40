-- ===== src/Parser/Codex/Calls.antt =====
-- What the records of internal/parser/codex/activity.go count of tool calls.
use assaio.Prelude.{
  ◌+◌, ◌≡◌, refl, ap, ◌∙◌, sym, String, Bool, true, false, Bool-cases, inl, inr, List, [], ◌∷◌,
  Option, none, some, All, All-append, arith,
}
use assaio.Prelude.Int.{pos, ◌+ℤ◌, wrap64}
use assaio.Prelude.Wrap.{add_congr}
use assaio.Usage.{Tokens, Record}
use assaio.Parser.{turn_tokens, token_count_record, delta}
use assaio.Parser.Tools.{total_calls}
use assaio.Parser.Codex.{Library, ParseState, Pending, new_parse_state}
use assaio.Parser.Codex.Reader.{
  flush_last, flush_trailing_activity, apply_compacted, emit, parse_all,
}
use assaio.Parser.Codex.Records.{patches_of, flush_into}
use assaio.Parser.Codex.Billed.{apply_changes_out}
use assaio.Parser.Purposes.{by_purpose, IsSplit, plus_is, five_pos, advanced}
use assaio.Parser.Codex.Moves.{Keeps, apply_lines-Inv}

flush_into-Split : (a : Pending) (r : Record) → IsSplit r → IsSplit (flush_into a r)
unfolding flush_into total_calls
flush_into-Split a r h =
    let c = a.by_purpose in
    let t = r.activity in
    let whole : c.reads + c.searches + c.commands + c.writes + c.other + patches_of a
        ≡ c.reads + (c.searches + (c.commands + (c.writes + patches_of a + c.other))) =
      omega arith in
    plus_is t.tool_calls _
    ∙ add_congr _ _ _ _ h (ap (λ n. wrap64 (pos n)) whole)
    ∙ ap (λ x. wrap64 (by_purpose t +ℤ x)) (sym (five_pos c.reads c.searches c.commands _ c.other))
    ∙ sym (
        advanced t.reads t.searches t.commands t.writes t.other c.reads c.searches c.commands
          (c.writes + patches_of a) c.other)

abbrev pub AllSplit : ParseState → Type 0
AllSplit st = All IsSplit st.out

emit-Split :
    (lib : Library) (o : Option Tokens) (st : ParseState) → AllSplit st → AllSplit (emit lib o st)
unfolding ◌+ℤ◌
emit-Split lib none st h = h
emit-Split lib (some t) st h =
    All-append IsSplit st.out _ h (flush_into-Split st.pending _ refl, tt)

keeps_split : (lib : Library) → Keeps lib AllSplit
unfolding apply_compacted token_count_record
keeps_split lib = record {
  stated = λ st session ts model project entrypoint fp skipped h. h;
  opened = λ st h. h;
  called = λ it st h. h;
  compacted = λ st h. h;
  patched = λ p st h. elim (Bool-cases p.success) [
    | inl e ↦ rw (e, apply_changes_out lib p.changes _) h
    | inr e ↦ rw e h
  ];
  counted = λ cur st h. emit-Split lib (turn_tokens (delta st.prev cur)) _ h;
}

flush_last-Split : (a : Pending) (rs : List Record) → All IsSplit rs → All IsSplit (flush_last a rs)
flush_last-Split a [] h = tt
flush_last-Split a (r ∷ []) h = (flush_into-Split a r h.0, tt)
flush_last-Split a (r ∷ q ∷ rs) h = (h.0, flush_last-Split a (q ∷ rs) h.1)

-- Whatever a rollout holds, the tool-call total of each of its records is the int64 sum of its
-- reads, searches, commands, writes and others, the patches without a named call among them.
pub parse_all-Split :
    (lib : Library) (raws : List String) (failed : Bool)
    → All IsSplit (parse_all lib raws failed).records
unfolding parse_all flush_trailing_activity
parse_all-Split lib raws true =
    apply_lines-Inv lib AllSplit (keeps_split lib) raws new_parse_state tt
parse_all-Split lib raws false =
    flush_last-Split _ _ (apply_lines-Inv lib AllSplit (keeps_split lib) raws new_parse_state tt)
