-- ===== src/Ingest/Builds.antt =====
-- What one build of internal/ingest/state.go knows of the inputs that another read.
use assaio.Prelude.{
  ℕ, ◌≡◌, refl, ap, ◌∙◌, sym, String, Bool, true, false, ◌&&◌, ◌||◌, Bool-cases, inl, inr, List, [],
  ◌∷◌, none, any_of, str_eq, eq_iff, arith, if◌then◌else◌,
}
use assaio.Store.IngestState.{IngestEntry, IngestFile, upsert_file, record_ingest, ingest_state}
use assaio.Ingest.{Input, Skipper, new_skipper, skip, flush}
use assaio.Ingest.Skipped.{has_path, IsKeyed, pair}

-- Nothing of a path is known to a build where no row has the path.
unknown :
    (w : String) (rows : List IngestFile) (path : String)
    → any_of (has_path path) rows ≡ false
    → ingest_state w rows path ≡ none
unfolding ingest_state
unknown w [] path h = refl
unknown w (row ∷ rows) path h = elim (Bool-cases (has_path path row)) [
  | inl e ↦ absurd (true≢false (rw e at h))
  | inr e ↦ rw e (elim (Bool-cases (str_eq row.version w)) [
    | inl f ↦ rw f (unknown w rows path (rw e at h))
    | inr f ↦ rw f (unknown w rows path (rw e at h))
  ])
]
  where
    true≢false : true ≡ false → ⊥
    true≢false e = cc

-- Another build's state once an entry is stored over a path: it no longer knows the path.
upserted_other :
    (w : String) (new : IngestFile) (table : List IngestFile) (path : String)
    → str_eq new.version w ≡ false
    → IsKeyed table
    → ingest_state w (upsert_file new table) path
      ≡ (if has_path path new then none else ingest_state w table path)
unfolding ingest_state upsert_file
upserted_other w new [] path h k = rw h (ground arith)
upserted_other w new (row ∷ rows) path h k =
    elim (Bool-cases (str_eq row.entry.path new.entry.path)) [
      | inl e ↦
          rw (e, h)
            (elim (Bool-cases (has_path path new)) [
              | inl f ↦
                  let same : row.entry.path ≡ path =
                    (eq_iff row.entry.path new.entry.path).0 e ∙ (eq_iff new.entry.path path).0 f in
                  rw f (unknown w rows path (ap (λ p. any_of (has_path p) rows) (sym same) ∙ k.0))
              | inr f ↦
                  let other : has_path path row ≡ false =
                    pair row.entry.path new.entry.path e path ∙ f in
                  rw (f, other) (ground arith)
            ])
      | inr e ↦ rw e (elim (Bool-cases (str_eq row.version w && has_path path row)) [
        | inl f ↦
            let other : has_path path new ≡ false =
              apart row.entry.path new.entry.path path _ e f in
            rw (f, other) refl
        | inr f ↦ rw f (upserted_other w new rows path h k.1)
      ])
    ]
  where
    apart :
        (a b c : String) (d : Bool)
        → str_eq a b ≡ false
        → (d && str_eq a c) ≡ true
        → str_eq b c ≡ false
    apart a b c d h k = ground (arith, eq_iff a b, eq_iff a c, eq_iff b c)

path_kept :
    (path : String) (new : IngestFile) (rows : List IngestFile)
    → has_path path new ≡ false
    → any_of (has_path path) rows ≡ false
    → any_of (has_path path) (upsert_file new rows) ≡ false
unfolding upsert_file
path_kept path new [] h k = rw h refl
path_kept path new (row ∷ rows) h k = elim (Bool-cases (str_eq row.entry.path new.entry.path)) [
  | inl e ↦ rw (e, h) (ground (arith, k))
  | inr e ↦
      let rest : any_of (has_path path) rows ≡ false = ground (arith, k) in
      rw e (ground (arith, k, path_kept path new rows h rest))
]

upsert_file-Keyed :
    (new : IngestFile) (table : List IngestFile) → IsKeyed table → IsKeyed (upsert_file new table)
unfolding upsert_file
upsert_file-Keyed new [] k = (refl, tt)
upsert_file-Keyed new (row ∷ rows) k = elim (Bool-cases (str_eq row.entry.path new.entry.path)) [
  | inl e ↦ rw e (
    ap (λ p. any_of (has_path p) rows) (sym ((eq_iff row.entry.path new.entry.path).0 e)) ∙ k.0,
    k.1,
  )
  | inr e ↦
      let other : has_path row.entry.path new ≡ false = flip row.entry.path new.entry.path e in
      rw e (path_kept row.entry.path new rows other k.0, upsert_file-Keyed new rows k.1)
]
  where
    flip : (a b : String) → str_eq a b ≡ false → str_eq b a ≡ false
    flip a b h = ground (arith, eq_iff a b, eq_iff b a)

-- The paths that some entries name.
abbrev pub names : String → List IngestEntry → Bool
names path es = any_of (λ e. str_eq e.path path) es

recorded_other :
    (w build : String) (at : ℕ) (es : List IngestEntry) (table : List IngestFile) (path : String)
    → str_eq build w ≡ false
    → IsKeyed table
    → ingest_state w (record_ingest build at es table) path
      ≡ (if names path es then none else ingest_state w table path)
unfolding record_ingest
recorded_other w build at [] table path h k = refl
recorded_other w build at (e ∷ es) table path h k =
    let new : IngestFile = record { entry = e; version = build; ingested_at = at } in
    recorded_other w build at es _ path h (upsert_file-Keyed new table k)
    ∙ ap (λ o. if names path es then none else o) (upserted_other w new table path h k)
    ∙ merge (names path es) (str_eq e.path path)
  where
    merge :
        (a b : Bool)
        → (if a then none else (if b then none else ingest_state w table path))
          ≡ (if b || a then none else ingest_state w table path)
    merge true true = refl
    merge true false = refl
    merge false true = refl
    merge false false = refl

-- Where the stored paths are distinct, an input that one build has read is read again by every other
-- build, a full run or not.
pub skip-other_build :
    (w build : String) (at : ℕ) (full : Bool) (i : Input) (s : Skipper) (table : List IngestFile)
    → str_eq build w ≡ false
    → IsKeyed table
    → names i.path s.ingested ≡ true
    → skip (new_skipper w full (flush build at s table)) i ≡ false
unfolding skip new_skipper flush
skip-other_build w build at true i s table h k n = refl
skip-other_build w build at false i s table h k n = elim (Bool-cases i.stat_failed) [
  | inl e ↦ rw e refl
  | inr e ↦
      let forgotten =
        recorded_other w build at s.ingested table i.path h k
        ∙ ap (λ b. if b then none else ingest_state w table i.path) n in
      rw (e, forgotten) refl
]
