-- ===== src/Parser/Depths.antt =====
-- The questions of internal/parser/depth_query.go have one answer each.
use assaio.Prelude.{
  ◌≡◌, refl, ap, ◌∙◌, String, Bool, true, ◌&&◌, ◌||◌, Bool-cases, inl, inr, List, [], ◌∷◌, Option,
  none, some, All, any_of, filter_if, any_of-sort_by, any_of-filter_if, str_ltb, str_eq, eq_iff,
  map, none≢some, some_injective, arith,
}
use assaio.Parser.Depth.{
  Depth, depths, depth_in, depth_of, capability, contains, answers, answers_with,
  signals_answered_by, signals_with, answers_any, sources_answering, tools,
}

signals_own : (d : Option Depth) (id : String) → contains (signals_with d) id ≡ answers_with d id
signals_own none id = refl
signals_own (some d) id = any_of-sort_by str_ltb (λ a. str_eq a id) d.answers

named_together :
    (p : String → Bool) (tool : String) (ts : List String)
    → any_of (λ t. p t && str_eq t tool) ts ≡ (contains ts tool && p tool)
named_together p tool [] = refl
named_together p tool (t ∷ ts) = elim (Bool-cases (str_eq t tool)) [
  | inl e ↦
      let same : p t ≡ p tool = ap p ((eq_iff t tool).0 e) in
      rw (e, same, named_together p tool ts) (ground arith)
  | inr e ↦ rw (e, named_together p tool ts) (ground arith)
]

sources_own :
    (tool : String) (ids : List String)
    → contains (sources_answering ids) tool ≡ (contains tools tool && any_of (answers tool) ids)
unfolding sources_answering answers_any
sources_own tool ids =
    any_of-sort_by str_ltb (λ a. str_eq a tool) (filter_if (λ t. answers_any t ids) tools)
    ∙ any_of-filter_if (λ a. str_eq a tool) (λ t. answers_any t ids) tools
    ∙ named_together (λ t. answers_any t ids) tool tools

-- A row of the matrix whose three axes say what its list of signals says.
pub record IsConsistent (d : Depth) : Type 0 where
  pub tokens : d.tokens ≡ contains d.answers "ai.tokens.total"
  pub activity :
      d.activity ≡ (contains d.answers "ai.lines.added" || contains d.answers "ai.edits.count")
  pub attribution :
      d.attribution ≡ (contains d.answers "ai.skill.tokens" && contains d.answers "ai.agent.tokens")
  pub sessions : contains d.answers "ai.sessions.count" ≡ true

depths-Consistent : All IsConsistent depths
depths-Consistent = (
  record { tokens = refl; activity = refl; attribution = refl; sessions = refl },
  (
    record { tokens = refl; activity = refl; attribution = refl; sessions = refl },
    (
      record { tokens = refl; activity = refl; attribution = refl; sessions = refl },
      (
        record { tokens = refl; activity = refl; attribution = refl; sessions = refl },
        (
          record { tokens = refl; activity = refl; attribution = refl; sessions = refl },
          (record { tokens = refl; activity = refl; attribution = refl; sessions = refl }, tt),
        ),
      ),
    ),
  ),
)

found :
    (ds : List Depth) (tool : String) (d : Depth)
    → depth_in ds tool ≡ some d
    → All IsConsistent ds
    → IsConsistent d × (contains (map (λ (x : Depth). x.tool) ds) tool ≡ true)
unfolding depth_in
found [] tool d h c = absurd (none≢some h)
found (x ∷ xs) tool d h c = elim (Bool-cases (str_eq x.tool tool)) [
  | inl e ↦ (rw (← some_injective (rw e at h)) c.0, rw e refl)
  | inr e ↦ let (k, m) = found xs tool d (rw e at h) c.1 in (k, rw (e, m) refl)
]

capability_own : (tool : String) (d : Depth) → depth_of tool ≡ some d → capability tool ≡ some d
unfolding capability
capability_own tool d h = rw h refl

-- The row of a source says in its axes what Answers says of its signals.
pub record Agrees (tool : String) (d : Depth) : Type 0 where
  pub tokens : d.tokens ≡ answers tool "ai.tokens.total"
  pub activity : d.activity ≡ (answers tool "ai.lines.added" || answers tool "ai.edits.count")
  pub attribution :
      d.attribution ≡ (answers tool "ai.skill.tokens" && answers tool "ai.agent.tokens")
  pub sessions : answers tool "ai.sessions.count" ≡ true

answered :
    (tool id : String) (d : Depth)
    → depth_of tool ≡ some d
    → answers tool id ≡ contains d.answers id
unfolding answers
answered tool id d h = ap (λ o. answers_with o id) (capability_own tool d h)

told : (tool id : String) → answers_with (capability tool) id ≡ answers tool id
unfolding answers
told tool id = refl

-- For every source of the matrix: its tokens axis is set exactly where it answers the token total, its
-- activity axis where it answers added lines or edits, and its attribution axis where it answers the
-- skill and the agent tokens, and it answers the session count; the list of the signals it answers
-- holds an id exactly when Answers says so; and the list of the sources that answer some ids holds it
-- exactly when Answers says so of one of them.
pub answers_agree :
    (tool id : String) (ids : List String) (d : Depth)
    → depth_of tool ≡ some d
    → Agrees tool d
      × ((contains (signals_answered_by tool) id ≡ answers tool id)
          × (contains (sources_answering ids) tool ≡ any_of (answers tool) ids))
unfolding signals_answered_by depth_of
answers_agree tool id ids d h =
    let (row, known) = found depths tool d h depths-Consistent in
    let own = λ (x : String). answered tool x d h in
    (
      record {
        tokens = rw (own "ai.tokens.total") row.tokens;
        activity = rw (own "ai.lines.added", own "ai.edits.count") row.activity;
        attribution = rw (own "ai.skill.tokens", own "ai.agent.tokens") row.attribution;
        sessions = own "ai.sessions.count" ∙ row.sessions;
      },
      (
        signals_own (capability tool) id ∙ told tool id,
        sources_own tool ids ∙ ap (λ b. b && any_of (answers tool) ids) known,
      ),
    )
