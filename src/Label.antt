-- ===== src/Label.antt =====
-- internal/label: the closed vocabularies of session annotations, and the rules that derive them. The
-- pattern engine is a parameter: what compiling a pattern gives, and none for one that does not
-- compile. A suggestion's reason is kept as its parts, and its sources as a sorted list.
pub mod Derived
use assaio.Prelude.{
  ℕ, ◌+◌, String, Bool, true, false, ◌&&◌, ◌||◌, not, ◌⊎◌, inl, inr, Option, some, none, List, [],
  ◌∷◌, ◌++◌, map, any_of, all_of, filter_if, sort_by, length, ltb, ◌==◌, str_eq, str_ltb,
  if◌then◌else◌,
}

-- Axes
abbrev pub axes : List (String × List String)
axes =
    (
      "task",
      "bugfix" ∷ "feature" ∷ "test" ∷ "refactor" ∷ "docs" ∷ "research" ∷ "review" ∷ "other" ∷ [],
    )
    ∷ ("outcome", "done" ∷ "partial" ∷ "abandoned" ∷ [])
    ∷ ("difficulty", "low" ∷ "medium" ∷ "high" ∷ [])
    ∷ []

-- Names
abbrev pub axis_names : List String
axis_names = "task" ∷ "outcome" ∷ "difficulty" ∷ []

-- Sources
abbrev pub known_sources : List String
known_sources = "branch" ∷ "skill" ∷ "agent" ∷ "entrypoint" ∷ []

unfoldable pub values_of : String → List (String × List String) → List String
values_of axis [] = []
values_of axis ((a, vs) ∷ rest) =
    let others = values_of axis rest in if str_eq a axis then vs else others

-- Valid
unfoldable pub is_valid : String → String → Bool
is_valid axis v = str_eq v "" || any_of (λ a. str_eq a v) (values_of axis axes)

-- validSource
unfoldable pub is_valid_source : String → Bool
is_valid_source s = any_of (λ k. str_eq k s) known_sources

-- label.Rule
pub record Rule : Type 0 where
  pub source : String
  pub pattern : String
  pub axis : String
  pub value : String

-- compiled
pub record Compiled : Type 0 where
  pub rule : Rule
  pub matches : String → Bool

-- Signals
abbrev pub Signals : Type 0
Signals = String → List String

-- The reason of a suggestion: the source, the value and the pattern of its first rule, and how many
-- more agree.
pub record Evidence : Type 0 where
  pub source : String
  pub value : String
  pub pattern : String
  pub more : ℕ

-- Suggestion
pub record Suggestion : Type 0 where
  pub axis : String
  pub value : String
  pub sources : List String
  pub reason : Evidence

-- The errors of NewEngine.
pub data RuleError : Type 0 where
  unknown_source unknown_axis bad_value bad_pattern : RuleError

-- What NewEngine returns: an engine, or the number of the rule at fault and its error.
pub data Loaded : Type 0 where
  engine : List Compiled → Loaded
  fault : ℕ → RuleError → Loaded

-- The tests of NewEngine's loop on one rule, before its pattern is compiled.
unfoldable pub rule_fault : Rule → Option RuleError
rule_fault r =
    if not (is_valid_source r.source)
    then some unknown_source
    else if not (any_of (λ a. str_eq a.0 r.axis) axes)
    then some unknown_axis
    else if str_eq r.value "" || not (is_valid r.axis r.value)
    then some bad_value
    else none

abbrev pub compiled_rule : Rule → Option RuleError → Option (String → Bool) → Compiled ⊎ RuleError
compiled_rule r (some e) m = inr e
compiled_rule r none none = inr bad_pattern
compiled_rule r none (some m) = inl (record { rule = r; matches = m })

abbrev pub also_rule : Compiled → Loaded → Loaded
also_rule c (engine cs) = engine (c ∷ cs)
also_rule c (fault i e) = fault i e

abbrev pub go_on : ℕ → Compiled ⊎ RuleError → Loaded → Loaded
go_on i (inr e) rest = fault i e
go_on i (inl c) rest = also_rule c rest

-- NewEngine, from rule i on; the first argument is regexp.Compile.
unfoldable pub new_engine : (String → Option (String → Bool)) → ℕ → List Rule → Loaded
new_engine compile i [] = engine []
new_engine compile i (r ∷ rs) =
    go_on i (compiled_rule r (rule_fault r) (compile r.pattern)) (new_engine compile (i + 1) rs)

-- The first value of a source that a rule matches.
unfoldable pub first_match : (String → Bool) → List String → Option String
first_match matches [] = none
first_match matches (v ∷ vs) =
    let rest = first_match matches vs in if str_eq v "" || not (matches v) then rest else some v

abbrev pub hit : Compiled → Option String → Option Suggestion
hit c none = none
hit c (some v) = some (record {
  axis = c.rule.axis;
  value = c.rule.value;
  sources = c.rule.source ∷ [];
  reason = record { source = c.rule.source; value = v; pattern = c.rule.pattern; more = 0 };
})

abbrev pub also_hit : String → Option Suggestion → List Suggestion → List Suggestion
also_hit axis none hs = hs
also_hit axis (some h) hs = if str_eq h.axis axis then h ∷ hs else hs

-- hits[axis] after the first loop of Derive.
unfoldable pub hits_on : String → Signals → List Compiled → List Suggestion
hits_on axis sig [] = []
hits_on axis sig (c ∷ cs) =
    also_hit axis (hit c (first_match c.matches (sig c.rule.source))) (hits_on axis sig cs)

-- agreed
unfoldable pub agreed : List Suggestion → Option Suggestion
agreed [] = none
agreed (h ∷ []) = some h
agreed (h ∷ g ∷ hs) =
    if all_of (λ s. str_eq s.value h.value) (g ∷ hs)
    then some (record h {
      sources = sort_by str_ltb (map (λ (s : Suggestion). s.reason.source) (h ∷ g ∷ hs));
      reason = record h.reason { more = length (g ∷ hs) };
    })
    else none

abbrev pub also_agreed : Option Suggestion → List Suggestion → List Suggestion
also_agreed none ss = ss
also_agreed (some s) ss = s ∷ ss

-- The second loop of Derive, over the axes left.
unfoldable pub derive_on : List String → Signals → List Compiled → List Suggestion
derive_on [] sig cs = []
derive_on (axis ∷ rest) sig cs = also_agreed (agreed (hits_on axis sig cs)) (derive_on rest sig cs)

-- Engine.Derive
unfoldable pub derive : Signals → List Compiled → List Suggestion
derive sig cs = derive_on axis_names sig cs
