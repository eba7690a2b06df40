-- ===== src/Parser/Codex/Records.antt =====
-- internal/parser/codex/activity.go and change.go: the lines of a change, and the activity of a turn.
use assaio.Prelude.{
  ℕ, ◌+◌, String, Bool, true, false, ◌&&◌, ◌||◌, not, List, [], ◌∷◌, Option, none, some, ltb,
  str_eq, starts_with, if◌then◌else◌,
}
use assaio.Prelude.Int.{◌+ℤ◌, wrap64}
use assaio.Usage.{Activity, Record}
use assaio.Parser.Tools.{plus, total_calls, content_lines, split_lines}
use assaio.Parser.Codex.{Library, PatchFileChange, Pending}

-- The event-derived count of flushInto.
unfoldable pub patches_of : Pending → ℕ
patches_of a = if ltb 0 a.by_purpose.writes then 0 else a.patch_writes

-- activity.flushInto, the record it leaves; the caller resets the activity.
unfoldable pub flush_into : Pending → Record → Record
flush_into a r =
    let activity : Activity = record r.activity {
      lines_added = plus r.activity.lines_added a.lines_added;
      lines_removed = plus r.activity.lines_removed a.lines_removed;
      edits = plus r.activity.edits a.edits;
      compactions = plus r.activity.compactions a.compactions;
      rework_lines = wrap64 (r.activity.rework_lines +ℤ a.rework_lines);
      errors = plus r.activity.errors a.tool_errors;
      tool_calls = plus r.activity.tool_calls (total_calls a.by_purpose + patches_of a);
      reads = plus r.activity.reads a.by_purpose.reads;
      searches = plus r.activity.searches a.by_purpose.searches;
      commands = plus r.activity.commands a.by_purpose.commands;
      writes = plus r.activity.writes (a.by_purpose.writes + patches_of a);
      other = plus r.activity.other a.by_purpose.other;
    } in
    record r { activity = activity }

-- One line of diffLineCounts: whether it is in a hunk, and the lines counted, before and after.
unfoldable pub diff_line : String → Bool × ℕ × ℕ → Bool × ℕ × ℕ
diff_line ln (in_hunk, added, removed) =
    if starts_with ln "@@"
    then (true, added, removed)
    else if not in_hunk && (starts_with ln "+++ " || starts_with ln "--- ")
    then (in_hunk, added, removed)
    else if starts_with ln "+"
    then (in_hunk, added + 1, removed)
    else if starts_with ln "-"
    then (in_hunk, added, removed + 1)
    else (in_hunk, added, removed)

unfoldable pub diff_lines : List String → Bool × ℕ × ℕ → Bool × ℕ × ℕ
diff_lines [] acc = acc
diff_lines (ln ∷ lns) acc = diff_lines lns (diff_line ln acc)

-- diffLineCounts
unfoldable pub diff_line_counts : String → ℕ × ℕ
diff_line_counts diff =
    let (in_hunk, added, removed) = diff_lines (split_lines diff) (false, 0, 0) in (added, removed)

abbrev pub change_counts : Option PatchFileChange → ℕ × ℕ
change_counts none = (0, 0)
change_counts (some c) =
    if str_eq c.kind "add"
    then (content_lines c.content, 0)
    else if str_eq c.kind "delete"
    then (0, content_lines c.content)
    else diff_line_counts c.unified_diff

-- changeLineCounts
unfoldable pub change_line_counts : Library → String → ℕ × ℕ
change_line_counts lib raw = change_counts (lib.patch_file_change raw)
