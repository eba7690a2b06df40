-- ===== src/Parser/Tools.antt =====
-- internal/parser/toolclass.go and contentlines.go: what a tool call was for, and the lines of a
-- file body. Counters that advance by one call or by the lines of one log are unbounded: no log
-- holds 2^63 of either.
use assaio.Prelude.Int.{ℤ, pos, ◌+ℤ◌, wrap64}
use assaio.Prelude.{
  ℕ, ◌+◌, Char, code, String, len, Bool, true, false, not, ◌&&◌, ◌||◌, List, [], ◌∷◌, Option, none,
  some, any_of, ltb, leb, ◌==◌, str_eq, if◌then◌else◌,
}

-- An int64 counter advanced by a count.
unfoldable pub plus : ℤ → ℕ → ℤ
plus x n = wrap64 (x +ℤ pos n)

-- toolClass
pub data ToolClass : Type 0 where
  class_other class_read class_search class_command class_write : ToolClass

unfoldable pub is_one_of : List String → String → Bool
is_one_of names name = any_of (λ n. str_eq n name) names

-- toolClasses, the names by their class; a name that is not listed is of classOther.
unfoldable pub tool_class : String → ToolClass
tool_class name =
    if is_one_of
      ("Read" ∷ "NotebookRead" ∷ "WebFetch" ∷ "read" ∷ "read_file" ∷ "view" ∷ "open_page" ∷ "fetch"
        ∷ [])
      name
    then ToolClass.class_read
    else if is_one_of
        ("Grep" ∷ "Glob" ∷ "WebSearch" ∷ "ToolSearch" ∷ "grep" ∷ "glob" ∷ "search" ∷ "web_search"
          ∷ [])
        name
    then ToolClass.class_search
    else if is_one_of
        ("Bash" ∷ "BashOutput" ∷ "KillShell" ∷ "shell" ∷ "exec" ∷ "bash" ∷ "run" ∷ "local_shell"
          ∷ "container.exec" ∷ "run_command" ∷ [])
        name
    then ToolClass.class_command
    else if is_one_of
        ("Edit" ∷ "Write" ∷ "MultiEdit" ∷ "NotebookEdit" ∷ "edit" ∷ "write" ∷ "apply_patch"
          ∷ "str_replace_editor" ∷ "write_to_file" ∷ [])
        name
    then ToolClass.class_write
    else ToolClass.class_other

-- ToolCounts
pub record ToolCounts : Type 0 where
  pub reads : ℕ
  pub searches : ℕ
  pub commands : ℕ
  pub writes : ℕ
  pub other : ℕ

abbrev pub no_calls : ToolCounts
no_calls = record { reads = 0; searches = 0; commands = 0; writes = 0; other = 0 }

unfoldable pub add_class : ToolClass → ToolCounts → ToolCounts
add_class ToolClass.class_read c = record c { reads = c.reads + 1 }
add_class ToolClass.class_search c = record c { searches = c.searches + 1 }
add_class ToolClass.class_command c = record c { commands = c.commands + 1 }
add_class ToolClass.class_write c = record c { writes = c.writes + 1 }
add_class ToolClass.class_other c = record c { other = c.other + 1 }

-- ToolCounts.Add
unfoldable pub add_call : String → ToolCounts → ToolCounts
add_call name c = add_class (tool_class name) c

-- ToolCounts.Total
unfoldable pub total_calls : ToolCounts → ℕ
total_calls c = c.reads + c.searches + c.commands + c.writes + c.other

unfoldable pub kind_of_class : ToolClass → String
kind_of_class ToolClass.class_read = "read"
kind_of_class ToolClass.class_search = "search"
kind_of_class ToolClass.class_command = "command"
kind_of_class ToolClass.class_write = "edit"
kind_of_class ToolClass.class_other = "other"

-- StepKind
unfoldable pub step_kind : String → String
step_kind name = kind_of_class (tool_class name)

abbrev pub is_newline : Char → Bool
is_newline c = code c == 10

-- strings.Count of newlines
unfoldable pub newlines : String → ℕ
newlines String.[] = 0
newlines (String.◌∷◌ c s) = (if is_newline c then 1 else 0) + newlines s

-- strings.HasSuffix with a newline
unfoldable pub ends_in_newline : String → Bool
ends_in_newline String.[] = false
ends_in_newline (String.◌∷◌ c String.[]) = is_newline c
ends_in_newline (String.◌∷◌ c s) = ends_in_newline s

-- ContentLines
unfoldable pub content_lines : String → ℕ
content_lines s =
    if str_eq s "" then 0 else if not (ends_in_newline s) then newlines s + 1 else newlines s

abbrev pub prepend : Char → List String → List String
prepend c [] = []
prepend c (l ∷ ls) = String.◌∷◌ c l ∷ ls

-- strings.Split at newlines
unfoldable pub split_lines : String → List String
split_lines String.[] = "" ∷ []
split_lines (String.◌∷◌ c s) =
    let rest = split_lines s in if is_newline c then "" ∷ rest else prepend c rest

-- A map with text keys, what was put last first.
unfoldable pub lookup {ℓ} : {A : Type ℓ} → String → List (String × A) → Option A
lookup key [] = none
lookup key (e ∷ es) = let rest = lookup key es in if str_eq e.0 key then some e.1 else rest

abbrev pub is_vocabulary_char : Char → Bool
is_vocabulary_char c =
    (leb 97 (code c) && leb (code c) 122) || (leb 48 (code c) && leb (code c) 57) || code c == 95

unfoldable pub is_vocabulary : String → Bool
is_vocabulary String.[] = true
is_vocabulary (String.◌∷◌ c s) = let rest = is_vocabulary s in is_vocabulary_char c && rest

-- VocabularyToken; `len` counts bytes, and MaxVocabularyToken is 64.
unfoldable pub vocabulary_token : String → String
vocabulary_token s = if ltb 64 (len s) then "" else if is_vocabulary s then s else ""
