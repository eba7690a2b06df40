-- ===== src/Ingest/Skipped.antt =====
-- What the skipper of internal/ingest/state.go finds again of what it recorded.
use mathlib.Core.List.{append-nil, append_assoc}
use assaio.Prelude.{
  ℕ, map, ◌≡◌, refl, ap, ◌∙◌, sym, String, Bool, true, false, not, ◌&&◌, Bool-cases, inl, inr, List,
  [], ◌∷◌, ◌++◌, Option, some, any_of, str_eq, eq_iff, eq_refl, arith, if◌then◌else◌,
}
use assaio.Prelude.Int.{eq_ℤ}
use assaio.Store.IngestState.{IngestEntry, IngestFile, upsert_file, record_ingest, ingest_state}
use assaio.Ingest.{Input, Skipper, new_skipper, skip, record_input, flush, entry_of, is_same_entry}

abbrev pub has_path : String → IngestFile → Bool
has_path path row = str_eq row.entry.path path

-- The rows have distinct paths, as the primary key of ingest_file demands.
abbrev pub IsKeyed : List IngestFile → Type 0
IsKeyed [] = Unit
IsKeyed (row ∷ rows) = (any_of (has_path row.entry.path) rows ≡ false) × IsKeyed rows

pub pair : (a b : String) → str_eq a b ≡ true → (c : String) → str_eq a c ≡ str_eq b c
pair a b h c = ap (λ x. str_eq x c) ((eq_iff a b).0 h)

-- A build's state once one entry is stored by it.
upserted_own :
    (new : IngestFile) (table : List IngestFile) (path : String)
    → ingest_state new.version (upsert_file new table) path
      ≡ (if has_path path new then some new.entry else ingest_state new.version table path)
unfolding ingest_state upsert_file
upserted_own new [] path = rw (eq_refl new.version) refl
upserted_own new (row ∷ rows) path = elim (Bool-cases (str_eq row.entry.path new.entry.path)) [
  | inl e ↦
      rw (e, eq_refl new.version, pair row.entry.path new.entry.path e path)
        (elim (Bool-cases (str_eq new.entry.path path)) [
          | inl f ↦ rw f refl
          | inr f ↦ rw f (ground arith)
        ])
  | inr e ↦ rw e (elim (Bool-cases (str_eq row.version new.version && str_eq row.entry.path path)) [
    | inl f ↦
        let other : has_path path new ≡ false = apart row.entry.path new.entry.path path _ e f in
        rw (f, other) refl
    | inr f ↦ rw f (upserted_own new rows path)
  ])
]
  where
    apart :
        (a b c : String) (d : Bool)
        → str_eq a b ≡ false
        → (d && str_eq a c) ≡ true
        → str_eq b c ≡ false
    apart a b c d h k = ground (arith, eq_iff a b, eq_iff a c, eq_iff b c)

-- The entry stored last for a path, or what was there.
abbrev pub last_entry : String → List IngestEntry → Option IngestEntry → Option IngestEntry
last_entry path [] before = before
last_entry path (e ∷ es) before = last_entry path es (if str_eq e.path path then some e else before)

recorded_own :
    (build : String) (at : ℕ) (es : List IngestEntry) (table : List IngestFile) (path : String)
    → ingest_state build (record_ingest build at es table) path
      ≡ last_entry path es (ingest_state build table path)
unfolding record_ingest
recorded_own build at [] table path = refl
recorded_own build at (e ∷ es) table path =
    recorded_own build at es _ path
    ∙ ap (last_entry path es)
        (upserted_own (record { entry = e; version = build; ingested_at = at }) table path)

-- The inputs that a run records, in their order.
abbrev pub record_inputs : List Input → Skipper → Skipper
record_inputs [] s = s
record_inputs (i ∷ is) s = record_inputs is (record_input i s)

record_inputs_entries :
    (is : List Input) (s : Skipper) → (record_inputs is s).ingested ≡ s.ingested ++ map entry_of is
unfolding record_input
record_inputs_entries [] s = sym (append-nil s.ingested)
record_inputs_entries (i ∷ is) s =
    record_inputs_entries is (record_input i s)
    ∙ append_assoc s.ingested (entry_of i ∷ []) (map entry_of is)

-- Whether an input is skipped once some inputs were recorded, the last of its path first, given
-- whether it was before.
abbrev pub settled : Input → List Input → Bool → Bool
settled j [] before = before
settled j (i ∷ is) before = settled j is (
    if str_eq i.path j.path
    then not j.stat_failed && (eq_ℤ i.size j.size && eq_ℤ i.mtime_ns j.mtime_ns)
    else before)

-- What a skipper that is not a full one answers, given what it knows of the path.
abbrev answer : Input → Option IngestEntry → Bool
answer j o = if j.stat_failed then false else is_same_entry o j

answer_told :
    (i j : Input) (b : Bool) (o : Option IngestEntry)
    → answer j (if b then some (entry_of i) else o) ≡ (
        if b
        then not j.stat_failed && (eq_ℤ i.size j.size && eq_ℤ i.mtime_ns j.mtime_ns)
        else answer j o)
answer_told i j true o = elim (Bool-cases j.stat_failed) [ inl e ↦ rw e refl | inr e ↦ rw e refl ]
answer_told i j false o = refl

last_settled :
    (j : Input) (is : List Input) (o : Option IngestEntry)
    → answer j (last_entry j.path (map entry_of is) o) ≡ settled j is (answer j o)
last_settled j [] o = refl
last_settled j (i ∷ is) o =
    last_settled j is _ ∙ ap (settled j is) (answer_told i j (str_eq i.path j.path) o)

-- Once a run has recorded any inputs, the next run of the same build that is not a full one treats
-- every input as follows: where the run recorded its path, it is skipped exactly when os.Stat
-- succeeds and the size and the modification time are those recorded last for the path; where it
-- did not, as it would have been before the run.
pub skip_recorded :
    (build : String) (at : ℕ) (full : Bool) (is : List Input) (j : Input) (table : List IngestFile)
    → skip
        (new_skipper build false
          (flush build at (record_inputs is (new_skipper build full table)) table))
        j
      ≡ settled j is (skip (new_skipper build false table) j)
unfolding skip new_skipper flush
skip_recorded build at full is j table =
    let s = new_skipper build full table in
    ap (λ es. answer j (ingest_state build (record_ingest build at es table) j.path))
      (record_inputs_entries is s)
    ∙ ap (answer j) (recorded_own build at (map entry_of is) table j.path)
    ∙ last_settled j is (ingest_state build table j.path)
