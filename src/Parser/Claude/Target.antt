-- ===== src/Parser/Claude/Target.antt =====
-- internal/parser/claude/target.go: the identity of the file that a step names.
use assaio.Prelude.{
  Char, code, String, str_append, Bool, false, ◌&&◌, ◌||◌, not, leb, ◌==◌, str_eq, starts_with,
  if◌then◌else◌,
}
use assaio.Parser.Claude.{Library}

-- strings.ReplaceAll of backslashes by slashes
unfoldable pub slashed : String → String
slashed String.[] = ""
slashed (String.◌∷◌ c s) =
    let rest = slashed s in if code c == 92 then str_append "/" rest else String.◌∷◌ c rest

abbrev pub is_letter : Char → Bool
is_letter c = leb 65 (code c) && leb (code c) 90 || leb 97 (code c) && leb (code c) 122

-- rooted
unfoldable pub rooted : String → Bool
rooted (String.◌∷◌ c (String.◌∷◌ d (String.◌∷◌ e s))) =
    code c == 47 || is_letter c && (code d == 58 && code e == 47)
rooted (String.◌∷◌ c s) = code c == 47
rooted String.[] = false

-- strings.TrimPrefix of a slash
abbrev pub trim_slash : String → String
trim_slash String.[] = ""
trim_slash (String.◌∷◌ c s) = if code c == 47 then s else String.◌∷◌ c s

-- The end of targetKey.
unfoldable pub cleaned : Library → String → String
cleaned lib target =
    if starts_with target "//"
    then str_append "//" (trim_slash (lib.clean target))
    else lib.clean target

-- targetKey
unfoldable pub target_key : Library → String → String → String
target_key lib target cwd =
    let path = slashed target in
    if str_eq path ""
    then ""
    else if rooted path
    then cleaned lib path
    else if not (rooted (slashed cwd))
    then ""
    else cleaned lib (str_append (slashed cwd) (str_append "/" path))
