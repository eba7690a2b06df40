-- ===== src/Trace/Sets.antt =====
-- What internal/trace promises of a set and of its narrowing to some sessions.
use assaio.Prelude.{
  ◌+◌, ◌≤◌, ◌≢◌, ◌≡◌, refl, sym, ◌∙◌, ap, All, All-imp, Bool, Bool-cases, inl, inr, List, [], ◌∷◌,
  ◌==◌, arith, filter_if, length,
}
use assaio.Trace.{
  TimelineStep, Timeline, SessionRow, StepSet, see_step, see_steps, see_sequences, new_set,
  for_sessions, is_named,
}
use assaio.Trace.Scoped.{total_steps}

-- A stated time lies within the horizon of a set; an unstated one is 0.
abbrev pub Within : StepSet → TimelineStep → Type 0
Within s st =
    st.timestamp ≢ 0 → (s.oldest ≢ 0) × (s.oldest ≤ st.timestamp) × (st.timestamp ≤ s.newest)

-- The horizon of the second set reaches as far as that of the first.
record Reaches (s t : StepSet) : Type 0 where
  pub oldest : s.oldest ≢ 0 → (t.oldest ≢ 0) × (t.oldest ≤ s.oldest)
  pub newest : s.newest ≤ t.newest

Reaches-refl : (s : StepSet) → Reaches s s
Reaches-refl s = record { oldest = λ h. (h, omega arith); newest = omega arith }

Reaches-trans : {s t u : StepSet} → Reaches s t → Reaches t u → Reaches s u
Reaches-trans a b = record {
  oldest = λ h. let (p, q) = a.oldest h in let (x, y) = b.oldest p in (x, omega (arith, q, y));
  newest = omega (arith, a.newest, b.newest);
}

Within-Reaches : (s t : StepSet) (st : TimelineStep) → Reaches s t → Within s st → Within t st
Within-Reaches s t st a h k =
    let (p, q, r) = h k in
    let (x, y) = a.oldest p in (x, omega (arith, y, q), omega (arith, r, a.newest))

see_step-Reaches : (st : TimelineStep) (s : StepSet) → Reaches s (see_step st s)
unfolding see_step
see_step-Reaches st s = record { oldest = λ h. (ground arith, ground arith); newest = ground arith }

see_step-Within : (st : TimelineStep) (s : StepSet) → Within (see_step st s) st
unfolding see_step
see_step-Within st s h = (ground arith, ground arith, ground arith)

see_steps-Reaches : (sts : List TimelineStep) (s : StepSet) → Reaches s (see_steps sts s)
unfolding see_steps
see_steps-Reaches [] s = Reaches-refl s
see_steps-Reaches (st ∷ sts) s =
    Reaches-trans (see_step-Reaches st s) (see_steps-Reaches sts (see_step st s))

see_steps-Within : (sts : List TimelineStep) (s : StepSet) → All (Within (see_steps sts s)) sts
unfolding see_steps
see_steps-Within [] s = tt
see_steps-Within (st ∷ sts) s = (
  Within-Reaches (see_step st s) _ st (see_steps-Reaches sts (see_step st s))
      (see_step-Within st s),
  see_steps-Within sts (see_step st s),
)

-- The set after the steps of one sequence, as see_sequences goes on from it.
abbrev with_one : Timeline → StepSet → StepSet
with_one t s = see_steps t.steps (record s { steps = s.steps + length t.steps })

with_one-Reaches : (t : Timeline) (s : StepSet) → Reaches s (with_one t s)
with_one-Reaches t s =
    let h = see_steps-Reaches t.steps (record s { steps = s.steps + length t.steps }) in
    record { oldest = h.oldest; newest = h.newest }

see_sequences-Reaches : (ts : List Timeline) (s : StepSet) → Reaches s (see_sequences ts s)
unfolding see_sequences
see_sequences-Reaches [] s = Reaches-refl s
see_sequences-Reaches (t ∷ ts) s =
    Reaches-trans (with_one-Reaches t s) (see_sequences-Reaches ts (with_one t s))

see_sequences-Within :
    (ts : List Timeline) (s : StepSet) → All (λ t. All (Within (see_sequences ts s)) t.steps) ts
unfolding see_sequences
see_sequences-Within [] s = tt
see_sequences-Within (t ∷ ts) s = (
  All-imp (λ st. Within-Reaches (with_one t s) _ st (see_sequences-Reaches ts (with_one t s)))
      t.steps (see_steps-Within t.steps _),
  see_sequences-Within ts (with_one t s),
)

-- Every step of a set that states its time lies within the set's horizon.
pub new_set-Within : (ts : List Timeline) → All (λ t. All (Within (new_set ts)) t.steps) ts
unfolding new_set
new_set-Within ts = see_sequences-Within ts _

see_steps-steps :
    (sts : List TimelineStep) (s : StepSet)
    → ((see_steps sts s).steps ≡ s.steps) × ((see_steps sts s).sequences ≡ s.sequences)
unfolding see_steps see_step
see_steps-steps [] s = (refl, refl)
see_steps-steps (st ∷ sts) s =
    let (a, b) = see_steps-steps sts (see_step st s) in (a ∙ ground arith, b ∙ ground arith)

see_sequences-steps :
    (ts : List Timeline) (s : StepSet)
    → ((see_sequences ts s).steps ≡ s.steps + total_steps ts)
      × ((see_sequences ts s).sequences ≡ s.sequences)
unfolding see_sequences
see_sequences-steps [] s = (omega arith, refl)
see_sequences-steps (t ∷ ts) s =
    let (a, b) = see_sequences-steps ts (with_one t s) in
    let (c, d) = see_steps-steps t.steps (record s { steps = s.steps + length t.steps }) in
    (omega (arith, a, c), b ∙ d)

-- What narrowing a set to some sessions gives: their sequences alone and every one of them, with the
-- steps of those and the horizon of the whole set.
pub record Narrowed (s : StepSet) (sessions : List SessionRow) (out : StepSet) : Type 0 where
  pub sequences : out.sequences ≡ filter_if (is_named sessions) s.sequences
  pub steps : out.steps ≡ total_steps (filter_if (is_named sessions) s.sequences)
  pub oldest : out.oldest ≡ s.oldest
  pub newest : out.newest ≡ s.newest

length-filter_if : (p : Timeline → Bool) (ts : List Timeline) → length (filter_if p ts) ≤ length ts
length-filter_if p [] = omega arith
length-filter_if p (t ∷ ts) = elim (Bool-cases (p t)) [
  | inl e ↦ rw e (omega (arith, length-filter_if p ts))
  | inr e ↦ rw e (omega (arith, length-filter_if p ts))
]

-- A filter that keeps as many as there are keeps all.
kept_all :
    (p : Timeline → Bool) (ts : List Timeline)
    → length (filter_if p ts) ≡ length ts
    → filter_if p ts ≡ ts
kept_all p [] h = refl
kept_all p (t ∷ ts) h = elim (Bool-cases (p t)) [
  | inl e ↦
      let k : length (filter_if p ts) + 1 ≡ length ts + 1 = omega (arith, rw e at h) in
      rw e (ap (λ x. t ∷ x) (kept_all p ts (omega (arith, k))))
  | inr e ↦
      let k : length (filter_if p ts) ≡ length ts + 1 = omega (arith, rw e at h) in
      absurd (omega (arith, k, length-filter_if p ts))
]

-- Narrowing a set that New built to some sessions keeps exactly their sequences, counts exactly their
-- steps, and keeps the horizon of the whole set.
pub for_sessions-Narrowed :
    (ts : List Timeline) (sessions : List SessionRow)
    → Narrowed (new_set ts) sessions (for_sessions (new_set ts) sessions)
unfolding for_sessions new_set
for_sessions-Narrowed ts sessions = elim (Bool-cases (length kept == length whole.sequences)) [
  | inl e ↦ rw e (all (kept_all (is_named sessions) whole.sequences (ground arith)))
  | inr e ↦ rw e (record {
    sequences = (see_sequences-steps kept _).1;
    steps = (see_sequences-steps kept _).0 ∙ omega arith;
    oldest = refl;
    newest = refl;
  })
]
  where
    whole : StepSet
    whole = see_sequences ts (record { sequences = ts; steps = 0; oldest = 0; newest = 0 })

    kept : List Timeline
    kept = filter_if (is_named sessions) whole.sequences

    counted : whole.steps ≡ total_steps ts
    counted = omega (
      arith,
      (see_sequences-steps ts (record { sequences = ts; steps = 0; oldest = 0; newest = 0 })).0,
    )

    all :
        filter_if (is_named sessions) whole.sequences ≡ whole.sequences
        → Narrowed whole sessions whole
    all e = record {
      sequences = sym e;
      steps = counted ∙ ap total_steps (sym (see_sequences-steps ts _).1 ∙ sym e);
      oldest = refl;
      newest = refl;
    }
