-- ===== src/Examples/Labels.antt =====
-- internal/label: the derivation at one rule and one branch.
use assaio.Prelude.{
  String, ◌≡◌, refl, Bool, Option, some, List, [], ◌∷◌, All, str_eq, if◌then◌else◌,
}
use assaio.Label.{
  values_of, is_valid, is_valid_source, rule_fault, Rule, Compiled, Signals, engine, new_engine,
  derive,
}
use assaio.Label.Derived.{derive-IsAgreed, IsAgreed}

abbrev branch_rule : Rule
branch_rule = record { source = "branch"; pattern = "feat/x"; axis = "task"; value = "feature" }

-- A pattern engine whose patterns match themselves.
abbrev compile : String → Option (String → Bool)
compile p = some (λ v. str_eq v p)

abbrev one_rule : List Compiled
one_rule = record { rule = branch_rule; matches = λ v. str_eq v "feat/x" } ∷ []

abbrev signals : Signals
signals source = if str_eq source "branch" then "feat/x" ∷ [] else []

rule-loads : new_engine compile 1 (branch_rule ∷ []) ≡ engine one_rule
unfolding new_engine rule_fault is_valid_source is_valid values_of
rule-loads = refl

derive-IsAgreed_example : All (IsAgreed signals one_rule) (derive signals one_rule)
derive-IsAgreed_example = derive-IsAgreed compile (branch_rule ∷ []) one_rule signals rule-loads
