-- ===== src/Parser/Claude/Results.antt =====
-- internal/parser/claude/toolresult.go: what a tool result says of a sub-agent or an edit.
use assaio.Prelude.{
  ℕ, ◌+◌, String, str_append, Bool, true, false, ◌||◌, not, List, [], ◌∷◌, none, some, str_eq,
  starts_with, if◌then◌else◌,
}
use assaio.Prelude.Int.{ℤ, pos}
use assaio.Usage.{Record}
use assaio.Parser.{non_neg}
use assaio.Parser.Tools.{content_lines}
use assaio.Parser.Claude.{Library, TokenUsage, ToolResult, Line, CarryForward}
use assaio.Parser.Claude.Records.{tokens_of, no_activity, project_of}

-- subAgentRecord
unfoldable pub sub_agent_record : Library → Line → ToolResult → TokenUsage → CarryForward → Record
sub_agent_record lib l t u cf =
    let lines : ℤ × ℤ = elim t.tool_stats [
      | none ↦ (pos 0, pos 0)
      | some s ↦ (non_neg s.lines_added, non_neg s.lines_removed)
    ] in
    record {
      tool = "claude-code";
      session_id = l.session_id;
      timestamp = l.timestamp;
      model = t.resolved_model;
      tokens = tokens_of u;
      cache_miss_reason = "";
      dedupe_key = str_append "agent:" t.agent_id;
      member = "";
      project = project_of lib cf;
      subpath = "";
      repo_key = "";
      project_guessed = false;
      git_branch = cf.git_branch;
      entrypoint = cf.entrypoint;
      granularity = "session";
      activity = record no_activity { lines_added = lines.0; lines_removed = lines.1 };
      sidechain = pos 1;
      skill = "";
      agent = t.agent_type;
    }

abbrev pub patch_line : String → ℕ × ℕ → ℕ × ℕ
patch_line ln (added, removed) =
    if starts_with ln "+"
    then (added + 1, removed)
    else if starts_with ln "-"
    then (added, removed + 1)
    else (added, removed)

unfoldable pub hunk_lines : List String → ℕ × ℕ → ℕ × ℕ
hunk_lines [] n = n
hunk_lines (ln ∷ lns) n = hunk_lines lns (patch_line ln n)

-- countPatchLines
unfoldable pub count_patch_lines : List (List String) → ℕ × ℕ → ℕ × ℕ
count_patch_lines [] n = n
count_patch_lines (h ∷ hs) n = count_patch_lines hs (hunk_lines h n)

abbrev pub hunks_of : ToolResult → List (List String)
hunks_of t = elim t.structured_patch [ none ↦ [] | some hs ↦ hs ]

abbrev pub is_empty {ℓ} : {A : Type ℓ} → List A → Bool
is_empty [] = true
is_empty (x ∷ xs) = false

-- toolResult.createdBody; the empty body and a missing one are both "".
unfoldable pub created_body : Library → ToolResult → String
created_body lib t =
    let body : String = elim (lib.text t.content) [ none ↦ "" | some s ↦ s ] in
    if not (str_eq t.kind "create") || (not (is_empty (hunks_of t)) || str_eq t.content "")
    then ""
    else body

-- toolResult.lineCounts
unfoldable pub line_counts : Library → ToolResult → ℕ × ℕ
line_counts lib t =
    let body = created_body lib t in
    if str_eq body "" then count_patch_lines (hunks_of t) (0, 0) else (content_lines body, 0)
