-- ===== src/Parser.antt =====
-- internal/parser/scan.go, rework.go and internal/parser/codex/tokencount.go: the clamps of the
-- parsers, the rework budget, and the differencing of cumulative token totals.
pub mod Claude
pub mod Clamps
pub mod Codex
pub mod Deltas
pub mod Indexed
pub mod Purposes
pub mod Reworked
pub mod Tools
pub mod Depth
pub mod Depths
pub mod Agy
pub mod AgyTurns
pub mod Cline
pub mod ClineTasks
pub mod Copilot
pub mod CopilotSessions
pub mod Gemini
pub mod GeminiTokens
pub mod Views
use assaio.Prelude.{
  ℕ, ◌^◌, ◌-◌, String, Bool, ◌&&◌, List, [], ◌∷◌, Option, none, some, str_eq, if◌then◌else◌,
}
use assaio.Prelude.Int.{ℤ, pos, negsuc, ltb_ℤ, leb_ℤ, ◌+ℤ◌, ◌-ℤ◌, min_ℤ, wrap64}
use assaio.Usage.{Tokens}

-- NonNeg
unfoldable pub non_neg : ℤ → ℤ
non_neg n = if ltb_ℤ n (pos 0) then pos 0 else n

-- Subset
unfoldable pub subset : ℤ → ℤ → ℤ
subset n total = if ltb_ℤ total n then non_neg total else non_neg n

-- math.MaxInt64
abbrev pub max_int64 : ℤ
max_int64 = pos (2 ^ 63 - 1)

-- The loop of SumNonNeg.
unfoldable pub sum_from : ℤ → List ℤ → ℤ
sum_from total [] = total
sum_from total (n ∷ ns) =
    let rest = sum_from (wrap64 (total +ℤ non_neg n)) ns in
    if ltb_ℤ (wrap64 (max_int64 -ℤ non_neg n)) total then max_int64 else rest

-- SumNonNeg
unfoldable pub sum_non_neg : List ℤ → ℤ
sum_non_neg ns = sum_from (pos 0) ns

-- The map of Rework: the lines of a file not undone yet.
abbrev pub Unreworked : Type 0
Unreworked = List (String × ℤ)

unfoldable pub budget_of : String → Unreworked → ℤ
budget_of file [] = pos 0
budget_of file ((f, n) ∷ m) = let rest = budget_of file m in if str_eq f file then n else rest

-- Rework: the lines undone, and the map after.
unfoldable pub rework : Unreworked → String → ℤ → ℤ → ℤ × Unreworked
rework m file added removed =
    let undone = min_ℤ removed (budget_of file m) in
    (undone, (file, wrap64 (budget_of file m +ℤ wrap64 (added -ℤ undone))) ∷ m)

-- codex.totals
pub record Totals : Type 0 where
  pub input : ℤ
  pub cached : ℤ
  pub output : ℤ
  pub reasoning : ℤ

abbrev pub delta : Totals → Totals → Totals
delta prev cur = record {
  input = wrap64 (cur.input -ℤ prev.input);
  cached = wrap64 (cur.cached -ℤ prev.cached);
  output = wrap64 (cur.output -ℤ prev.output);
  reasoning = wrap64 (cur.reasoning -ℤ prev.reasoning);
}

-- tokenCountRecord, the counters of the record; the parse state's prev becomes the second argument.
unfoldable pub turn_tokens : Totals → Option Tokens
turn_tokens d =
    if leb_ℤ d.input (pos 0) && (leb_ℤ d.output (pos 0) && leb_ℤ d.cached (pos 0))
    then none
    else let cache_read = subset d.cached (non_neg d.input) in
      some (record {
        input = wrap64 (non_neg d.input -ℤ cache_read);
        output = non_neg d.output;
        cache_read = cache_read;
        cache_write = pos 0;
        reasoning = subset d.reasoning (non_neg d.output);
        cache_write_1h = pos 0;
      })

unfoldable pub token_count_record : Totals → Totals → Option Tokens × Totals
token_count_record prev cur = (turn_tokens (delta prev cur), cur)

abbrev pub also : Option Tokens → List Tokens → List Tokens
also none ts = ts
also (some t) ts = t ∷ ts

-- applyTokenCount over the totals of a file; an update with no totals is no element here.
unfoldable pub apply_token_counts : Totals → List Totals → List Tokens
apply_token_counts prev [] = []
apply_token_counts prev (cur ∷ rest) =
    also (token_count_record prev cur).0 (apply_token_counts (token_count_record prev cur).1 rest)
