-- ===== src/Trace/Scoped.antt =====
-- What internal/trace promises of a scope: nothing is counted twice and nothing is lost.
use assaio.Prelude.{
  ℕ, ◌+◌, String, ◌≡◌, refl, All, All-append, Bool, true, Bool-cases, inl, inr, List, [], ◌∷◌, ◌++◌,
  ltb, str_eq, eq_iff, arith, length, length-append,
}
use assaio.Trace.{
  Timeline, StepSet, View, empty_view, scope_of, scope_one, scope_all, scope_view, answer_all,
  answering,
}

-- All the steps of some sequences.
abbrev pub total_steps : List Timeline → ℕ
total_steps [] = 0
total_steps (t ∷ ts) = length t.steps + total_steps ts

total_steps-append :
    (xs ys : List Timeline) → total_steps (xs ++ ys) ≡ total_steps xs + total_steps ys
total_steps-append [] ys = omega arith
total_steps-append (t ∷ ts) ys = omega (arith, total_steps-append ts ys)

-- A view accounts for n sequences of m steps: its own and those it left out, its own counted right.
pub record Accounts (v : View) (n m : ℕ) : Type 0 where
  pub sequences : length v.sequences + v.excluded_sequences ≡ n
  pub steps : v.steps + v.excluded_steps ≡ m
  pub own : total_steps v.sequences ≡ v.steps

-- A view that takes one sequence more.
taken :
    (v : View) (t : Timeline)
    → (length (v.sequences ++ (t ∷ [])) ≡ length v.sequences + 1)
      × (total_steps (v.sequences ++ (t ∷ [])) ≡ total_steps v.sequences + length t.steps)
taken v t = (
  omega (arith, length-append v.sequences (t ∷ [])),
  omega (arith, total_steps-append v.sequences (t ∷ [])),
)

scope_one-Accounts :
    (name : String) (t : Timeline) (v : View) (n m : ℕ)
    → Accounts v n m
    → Accounts (scope_one name t v) (n + 1) (m + length t.steps)
unfolding scope_one
scope_one-Accounts name t v n m h =
    let (a, b) = taken v t in
    elim (Bool-cases (str_eq (scope_of t) name)) [
      | inl e ↦ rw e (record {
        sequences = omega (arith, a, h.sequences);
        steps = omega (arith, h.steps);
        own = omega (arith, b, h.own);
      })
      | inr e ↦ rw e (record {
        sequences = omega (arith, h.sequences);
        steps = omega (arith, h.steps);
        own = h.own;
      })
    ]

scope_all-Accounts :
    (name : String) (ts : List Timeline) (v : View) (n m : ℕ)
    → Accounts v n m
    → Accounts (scope_all name ts v) (n + length ts) (m + total_steps ts)
unfolding scope_all
scope_all-Accounts name [] v n m h = record {
  sequences = omega (arith, h.sequences);
  steps = omega (arith, h.steps);
  own = h.own;
}
scope_all-Accounts name (t ∷ ts) v n m h =
    let rest =
      scope_all-Accounts name ts (scope_one name t v) (n + 1) (m + length t.steps)
        (scope_one-Accounts name t v n m h) in
    record {
      sequences = omega (arith, rest.sequences);
      steps = omega (arith, rest.steps);
      own = rest.own;
    }

-- The view of any scope accounts for every sequence and every step of the set: what it does not
-- hold, it counts as excluded.
pub scope_view-Accounts :
    (s : StepSet) (name : String)
    → Accounts (scope_view s name) (length s.sequences) (total_steps s.sequences)
unfolding scope_view
scope_view-Accounts s name =
    let h = scope_all-Accounts name s.sequences (empty_view name) 0 0 start in
    record { sequences = omega (arith, h.sequences); steps = omega (arith, h.steps); own = h.own }
  where
    start : Accounts (empty_view name) 0 0
    start = record { sequences = refl; steps = refl; own = refl }

scope_all-own :
    (name : String) (ts : List Timeline) (v : View)
    → All (λ t. scope_of t ≡ name) v.sequences
    → All (λ t. scope_of t ≡ name) (scope_all name ts v).sequences
unfolding scope_all scope_one
scope_all-own name [] v h = h
scope_all-own name (t ∷ ts) v h = scope_all-own name ts (scope_one name t v) here
  where
    here : All (λ o. scope_of o ≡ name) (scope_one name t v).sequences
    here = elim (Bool-cases (str_eq (scope_of t) name)) [
      | inl e ↦ rw e (
          All-append (λ o. scope_of o ≡ name) v.sequences (t ∷ []) h
            ((ground (arith, eq_iff (scope_of t) name)), tt))
      | inr e ↦ rw e h
    ]

-- The view of a scope holds sequences of that scope alone.
pub scope_view-own :
    (s : StepSet) (name : String) → All (λ t. scope_of t ≡ name) (scope_view s name).sequences
unfolding scope_view
scope_view-own s name = scope_all-own name s.sequences (empty_view name) tt

answer_all-Accounts :
    (states : String → Bool) (ts : List Timeline) (v : View) (n m : ℕ)
    → length v.sequences + length ts + v.excluded_sequences ≡ n
    → v.steps + v.excluded_steps ≡ m
    → total_steps v.sequences + total_steps ts ≡ v.steps
    → Accounts (answer_all states ts v) n m
unfolding answer_all
answer_all-Accounts states [] v n m h k o = record {
  sequences = omega (arith, h);
  steps = k;
  own = omega (arith, o);
}
answer_all-Accounts states (t ∷ ts) v n m h k o =
    let (a, b) = taken v t in
    elim (Bool-cases (states t.tool)) [
      | inl e ↦
          rw e (answer_all-Accounts states ts _ n m (omega (arith, a, h)) k (omega (arith, b, o)))
      | inr e ↦ rw e (
          answer_all-Accounts states ts _ n m (omega (arith, h)) (omega (arith, k, o))
            (omega (arith, o)))
    ]

answering-same :
    (states : String → Bool) (reading : String) (v : View) (n m : ℕ)
    → Accounts (answer_all states v.sequences (record v { sequences = [] })) n m
    → Accounts (answering states reading v) n m
unfolding answering
answering-same states reading v n m h =
    elim (Bool-cases
      (ltb 0 (answer_all states v.sequences (record v { sequences = [] })).silent_sequences)) [
        | inl e ↦ rw e (record { sequences = h.sequences; steps = h.steps; own = h.own })
        | inr e ↦ rw e h
      ]

-- Dropping the sequences whose source is silent moves them to the excluded share: a view that
-- accounts for a population accounts for the same one.
pub answering-Accounts :
    (states : String → Bool) (reading : String) (v : View) (n m : ℕ)
    → Accounts v n m
    → Accounts (answering states reading v) n m
answering-Accounts states reading v n m h = answering-same states reading v n m (
    answer_all-Accounts states v.sequences (record v { sequences = [] }) n m
      (omega (arith, h.sequences)) h.steps (omega (arith, h.own)))

answer_all-states :
    (states : String → Bool) (ts : List Timeline) (v : View)
    → All (λ t. states t.tool ≡ true) v.sequences
    → All (λ t. states t.tool ≡ true) (answer_all states ts v).sequences
unfolding answer_all
answer_all-states states [] v h = h
answer_all-states states (t ∷ ts) v h = elim (Bool-cases (states t.tool)) [
  | inl e ↦ rw e (
      answer_all-states states ts (record v { sequences = v.sequences ++ (t ∷ []) })
        (All-append (λ o. states o.tool ≡ true) v.sequences (t ∷ []) h (e, tt)))
  | inr e ↦ rw e (answer_all-states states ts _ h)
]
