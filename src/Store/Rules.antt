-- ===== src/Store/Rules.antt =====
-- The two restating statements of internal/store as rules of insertWith.
use assaio.Prelude.{
  ℕ, ◌⊎◌, not, String, ◌≡◌, refl, false, Bool-cases, inl, inr, str_eq, eq_iff, arith, if◌then◌else◌,
}
use assaio.Prelude.Int.{ℤ, pos, negsuc, eq_ℤ→eq}
use assaio.Usage.{Record}
use assaio.Store.Restate.{
  Row, Offer, row_of, restate_activity, restate_signals, name_or, max_ℤ, restated_ts,
  restated_tokens, restated_project, restated_subpath, restated_repo, projects_compete,
  repos_compete, offer_of, carries_no_signals, filled_signals,
}
use assaio.Store.Reread.{restate_activity_idem}
use assaio.Store.Insertion.{IsRestateRule}

name_or-same : (s : String) → name_or s s ≡ s
unfolding name_or
name_or-same s = ground arith

max_ℤ-same : (n : ℤ) → max_ℤ n n ≡ n
unfolding max_ℤ
max_ℤ-same n = ground arith

fresh_ts : (tool : String) (t : ℕ) → restated_ts tool t t ≡ t
unfolding restated_ts
fresh_ts tool t = ground arith

-- An offer of what the row holds already, or of nothing.
abbrev Offers : Row → Offer → Type 0
Offers row o =
    ((o.project ≡ "") × (o.repo ≡ pos 0))
    ⊎ ((o.project ≡ row.project) × (o.subpath ≡ row.subpath) × (o.repo ≡ row.repo_id))

Offers-own : (r : Record) (repo : ℤ) → Offers (row_of r repo) (offer_of r repo)
unfolding row_of offer_of
Offers-own r repo = elim (Bool-cases r.project_guessed) [
  | inl t ↦ inl (rw t refl, rw t refl)
  | inr n ↦ inr (rw n refl, rw n refl, rw n refl)
]

offered_conflict : (row : Row) (o : Offer) → Offers row o → projects_compete row o ≡ false
unfolding projects_compete
offered_conflict row o (inl (a, b)) = ground (arith, eq_iff o.project "")
offered_conflict row o (inr (a, b, c)) = ground (arith, eq_iff row.project o.project)

offered_project :
    (row : Row) (o : Offer)
    → row.project_conflict ≡ false
    → Offers row o
    → restated_project row o ≡ row.project
unfolding restated_project
offered_project row o d h = rw (offered_conflict row o h, d) (pick h)
  where
    pick :
        Offers row o → (if not (str_eq o.project "") then o.project else row.project) ≡ row.project
    pick (inl (a, b)) = ground (arith, eq_iff o.project "")
    pick (inr (a, b, c)) = ground arith

offered_subpath :
    (row : Row) (o : Offer)
    → row.project_conflict ≡ false
    → Offers row o
    → restated_subpath row o ≡ row.subpath
unfolding restated_subpath
offered_subpath row o d h = rw (offered_conflict row o h, d) (pick h)
  where
    pick :
        Offers row o → (if not (str_eq o.project "") then o.subpath else row.subpath) ≡ row.subpath
    pick (inl (a, b)) = ground (arith, eq_iff o.project "")
    pick (inr (a, b, c)) = ground arith

offered_repo :
    (row : Row) (o : Offer)
    → row.project_conflict ≡ false
    → Offers row o
    → restated_repo row o ≡ row.repo_id
unfolding restated_repo repos_compete
offered_repo row o d (inl (a, b)) =
    rw (offered_conflict row o (inl (a, b)), d)
      (ground (arith, eq_ℤ→eq row.repo_id (negsuc 0), eq_iff o.project ""))
offered_repo row o d (inr (a, b, c)) =
    rw (offered_conflict row o (inr (a, b, c)), d)
      (ground (
        arith,
        eq_ℤ→eq row.repo_id (negsuc 0),
        eq_ℤ→eq row.repo_id o.repo,
        eq_iff o.project row.project,
      ))

restate_activity-fresh :
    (r : Record) (repo : ℤ) → restate_activity r repo (row_of r repo) ≡ row_of r repo
unfolding restate_activity row_of restated_tokens
restate_activity-fresh r repo = cc (
  fresh_ts r.tool r.timestamp,
  name_or-same r.model,
  name_or-same r.entrypoint,
  name_or-same r.git_branch,
  name_or-same r.skill,
  name_or-same r.agent,
  name_or-same r.cache_miss_reason,
  max_ℤ-same r.tokens.input,
  max_ℤ-same r.tokens.output,
  max_ℤ-same r.tokens.cache_read,
  max_ℤ-same r.tokens.cache_write,
  max_ℤ-same r.tokens.reasoning,
  max_ℤ-same r.tokens.cache_write_1h,
  max_ℤ-same r.sidechain,
  offered_project (row_of r repo) (offer_of r repo) refl (Offers-own r repo),
  offered_subpath (row_of r repo) (offer_of r repo) refl (Offers-own r repo),
  offered_conflict (row_of r repo) (offer_of r repo) (Offers-own r repo),
  offered_repo (row_of r repo) (offer_of r repo) refl (Offers-own r repo),
)

-- restateActivitySQL as a rule of insertWith.
pub activity_rule : IsRestateRule restate_activity
unfolding restate_activity
activity_rule = record {
  tool = λ r repo row. refl;
  dedupe_key = λ r repo row. refl;
  idem = restate_activity_idem;
  fresh = restate_activity-fresh;
}

-- restateSignalsSQL as a rule of insertWith.
pub signals_rule : IsRestateRule restate_signals
unfolding restate_signals row_of carries_no_signals filled_signals
signals_rule = record {
  tool = λ r repo row. ground arith;
  dedupe_key = λ r repo row. ground arith;
  idem = λ r repo row. ground arith;
  fresh = λ r repo. ground arith;
}
