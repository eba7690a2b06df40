-- ===== src/Store/Registry.antt =====
-- internal/store/repository_register.go: the registry of repositories, and the ids of one batch.
-- A missing id after the INSERT is the error of the SELECT, modelled as none.
use assaio.Prelude.{
  ℕ, ◌+◌, String, ◌≡◌, refl, sym, ◌∙◌, ap, Bool, true, false, Bool-cases, ◌&&◌, ◌||◌, Option, some,
  none, inl, inr, List, [], ◌∷◌, ltb, str_eq, eq_iff, arith, if◌then◌else◌,
}
use assaio.Prelude.Int.{ℤ, pos}
use assaio.Usage.{Record}

-- A row of repository; id is the INTEGER PRIMARY KEY.
pub record Repository : Type 0 where
  pub id : ℕ
  pub label : String
  pub repo_key : String
  pub ordinal : ℕ

-- repoRef
pub record RepoRef : Type 0 where
  pub label : String
  pub key : String

unfoldable pub is_ref : String → String → Repository → Bool
is_ref label key p = str_eq p.label label && str_eq p.repo_key key

unfoldable pub max_ordinal : String → List Repository → ℕ
max_ordinal label [] = 0
max_ordinal label (p ∷ ps) =
    let rest = max_ordinal label ps in
    if str_eq p.label label && ltb rest p.ordinal then p.ordinal else rest

unfoldable pub max_id : List Repository → ℕ
max_id [] = 0
max_id (p ∷ ps) = let rest = max_id ps in if ltb rest p.id then p.id else rest

-- SELECT id FROM repository WHERE label = ? AND repo_key = ?
unfoldable pub select_id : List Repository → String → String → Option ℕ
select_id [] label key = none
select_id (p ∷ ps) label key =
    let rest = select_id ps label key in if is_ref label key p then some p.id else rest

abbrev pub new_repository : String → String → List Repository → Repository
new_repository label key ps = record {
  id = max_id ps + 1;
  label = label;
  repo_key = key;
  ordinal = max_ordinal label ps + 1;
}

-- What registerSQL does, after its test for a conflict.
unfoldable pub add_missing : Option ℕ → String → String → List Repository → List Repository
add_missing (some i) label key ps = ps
add_missing none label key ps = new_repository label key ps ∷ ps

-- registerSQL
unfoldable pub register : String → String → List Repository → List Repository
register label key ps = add_missing (select_id ps label key) label key ps

-- The map of registerRepositories.
abbrev pub Ids : Type 0
Ids = List (RepoRef × ℕ)

unfoldable pub id_of : Ids → String → String → Option ℕ
id_of [] label key = none
id_of ((f, i) ∷ fs) label key =
    let rest = id_of fs label key in
    if str_eq f.label label && str_eq f.key key then some i else rest

-- What the SELECT adds to the map.
abbrev pub cached : Ids → String → String → Option ℕ → Option Ids
cached ids label key none = none
cached ids label key (some i) = some ((record { label = label; key = key }, i) ∷ ids)

abbrev pub is_known : Option ℕ → Bool
is_known none = false
is_known (some i) = true

-- Whether the loop of registerRepositories passes a record over.
unfoldable pub is_passed : Record → Ids → Bool
is_passed r ids =
    str_eq r.project "" || str_eq r.repo_key "" || is_known (id_of ids r.project r.repo_key)

-- registerRepositories
unfoldable pub register_repositories :
    List Record → List Repository → Ids → List Repository × Option Ids
register_repositories [] ps ids = (ps, some ids)
register_repositories (r ∷ rs) ps ids =
    if is_passed r ids
    then register_repositories rs ps ids
    else let after = register r.project r.repo_key ps in
      elim (cached ids r.project r.repo_key (select_id after r.project r.repo_key)) [
        | none ↦ (after, none)
        | some fs ↦ register_repositories rs after fs
      ]

-- repoID
unfoldable pub repo_id : Ids → Record → ℤ
repo_id ids r = elim (id_of ids r.project r.repo_key) [ none ↦ pos 0 | some i ↦ pos i ]

is_ref-distinct :
    (label key l k : String) (ps : List Repository) (p : Repository) (i : ℕ)
    → p.label ≡ label
    → p.repo_key ≡ key
    → select_id ps label key ≡ none
    → select_id ps l k ≡ some i
    → is_ref l k p ≡ false
unfolding is_ref
is_ref-distinct label key l k ps p i a b e h = elim (Bool-cases (is_ref l k p)) [
  | inl t ↦ clash (same t)
  | inr f ↦ f
]
  where
    same : is_ref l k p ≡ true → (label ≡ l) × (key ≡ k)
    same t = (sym a ∙ ground (arith, eq_iff p.label l), sym b ∙ ground (arith, eq_iff p.repo_key k))

    clash : (label ≡ l) × (key ≡ k) → is_ref l k p ≡ false
    clash (u, v) = cc

add_missing-stays :
    (found : Option ℕ) (label key l k : String) (ps : List Repository) (i : ℕ)
    → select_id ps label key ≡ found
    → select_id ps l k ≡ some i
    → select_id (add_missing found label key ps) l k ≡ some i
unfolding add_missing select_id
add_missing-stays (some j) label key l k ps i e h = h
add_missing-stays none label key l k ps i e h =
    rw (is_ref-distinct label key l k ps (new_repository label key ps) i refl refl e h) h

-- A registered reference stays registered, under its id.
pub register-stays :
    (label key l k : String) (ps : List Repository) (i : ℕ)
    → select_id ps l k ≡ some i
    → select_id (register label key ps) l k ≡ some i
unfolding register
register-stays label key l k ps i h =
    add_missing-stays (select_id ps label key) label key l k ps i refl h

add_missing-selects :
    (found : Option ℕ) (label key : String) (ps : List Repository)
    → select_id ps label key ≡ found
    → (i : ℕ) × (select_id (add_missing found label key ps) label key ≡ some i)
unfolding add_missing select_id is_ref
add_missing-selects (some j) label key ps e = (j, e)
add_missing-selects none label key ps e =
    (max_id ps + 1, ground (arith, eq_iff label label, eq_iff key key))

-- Registering a reference registers it.
pub register-selects :
    (label key : String) (ps : List Repository)
    → (i : ℕ) × (select_id (register label key ps) label key ≡ some i)
unfolding register
register-selects label key ps = add_missing-selects (select_id ps label key) label key ps refl

-- What is registered already is not registered again.
register-again :
    (label key : String) (ps : List Repository) (i : ℕ)
    → select_id ps label key ≡ some i
    → register label key ps ≡ ps
unfolding register add_missing
register-again label key ps i h = rw h refl

ref_of : Record → RepoRef
ref_of r = record { label = r.project; key = r.repo_key }

passes :
    (r : Record) (rs : List Record) (ps : List Repository) (ids : Ids)
    → is_passed r ids ≡ true
    → register_repositories (r ∷ rs) ps ids ≡ register_repositories rs ps ids
unfolding register_repositories
passes r rs ps ids h = rw h refl

registers :
    (r : Record) (rs : List Record) (ps : List Repository) (ids : Ids) (i : ℕ)
    → is_passed r ids ≡ false
    → select_id (register r.project r.repo_key ps) r.project r.repo_key ≡ some i
    → register_repositories (r ∷ rs) ps ids
      ≡ register_repositories rs (register r.project r.repo_key ps) ((ref_of r, i) ∷ ids)
unfolding register_repositories ref_of
registers r rs ps ids i h e = rw (h, e) refl

ends : (ps : List Repository) (ids : Ids) → register_repositories [] ps ids ≡ (ps, some ids)
unfolding register_repositories
ends ps ids = refl

batch-stays :
    (rs : List Record) (ps : List Repository) (ids : Ids) (l k : String) (i : ℕ)
    → select_id ps l k ≡ some i
    → select_id (register_repositories rs ps ids).0 l k ≡ some i
batch-stays [] ps ids l k i h = rw (ends ps ids) h
batch-stays (r ∷ rs) ps ids l k i h = elim (Bool-cases (is_passed r ids)) [
  | inl t ↦ rw (passes r rs ps ids t) (batch-stays rs ps ids l k i h)
  | inr f ↦
      let (j, e) = register-selects r.project r.repo_key ps in
      rw (registers r rs ps ids j f e) (
        batch-stays rs (register r.project r.repo_key ps) ((ref_of r, j) ∷ ids) l k i
          (register-stays r.project r.repo_key l k ps i h))
]

-- A batch that registers, and registers again to the same rows and ids.
abbrev pub IsSettled : List Record → List Repository → Ids → Type 0
IsSettled rs ps ids =
    (fs : Ids) × (((register_repositories rs ps ids).1 ≡ some fs)
      × (register_repositories rs (register_repositories rs ps ids).0 ids
          ≡ register_repositories rs ps ids))

-- Registering the repositories of a batch succeeds, and registering them again finds every one: it
-- changes no row and gives the same ids.
pub register_repositories-again :
    (rs : List Record) (ps : List Repository) (ids : Ids) → IsSettled rs ps ids
register_repositories-again [] ps ids =
    (ids, (ap (λ x. x.1) (ends ps ids), rw (ends ps ids) (ends ps ids)))
register_repositories-again (r ∷ rs) ps ids = elim (Bool-cases (is_passed r ids)) [
  | inl t ↦
      let (fs, (done, again)) = register_repositories-again rs ps ids in
      let step = passes r rs ps ids t in (fs, (rw step done, rw step (passes r rs _ ids t ∙ again)))
  | inr f ↦
      let (j, e) = register-selects r.project r.repo_key ps in
      let after = register r.project r.repo_key ps in
      let known = (ref_of r, j) ∷ ids in
      let (fs, (done, again)) = register_repositories-again rs after known in
      let step = registers r rs ps ids j f e in
      let kept = batch-stays rs after known r.project r.repo_key j e in
      let same =
        register-again r.project r.repo_key (register_repositories rs after known).0 j kept in
      (fs, (rw step done, rw step (registers r rs _ ids j f (rw same kept) ∙ rw same again)))
]
