-- ===== src/Store/Reingest.antt =====
-- Reading the same batch into the store a second time, through insertWith of internal/store/insert.go.
use assaio.Prelude.{
  All, ◌≡◌, refl, ap, ◌∙◌, Bool, true, false, Option, some, none, some_injective, List, [], ◌∷◌,
  any_of,
}
use assaio.Prelude.Int.{ℤ}
use assaio.Usage.{Record}
use assaio.Store.Restate.{Row, restate_activity, restate_signals}
use assaio.Store.Registry.{
  Repository, Ids, register_repositories, register_repositories-again, repo_id,
}
use assaio.Store.Table.{
  has_key, restate_where, insert_row, insert_rows, count_row, RestateRule, Written, nothing_written,
  commit, Tables, insert_with, insert, insert_local,
}
use assaio.Store.Insertion.{
  IsRestateRule, IsDistinct, IsStored, same_key, inserted-IsStored, other-IsStored,
}
use assaio.Store.Rules.{activity_rule, signals_rule}

-- Every record of the batch is in the table, and settled.
unfoldable pub AllStored : RestateRule → Ids → List Record → List Row → Type 0
AllStored f ids rs rows = All (λ r. IsStored f r (repo_id ids r) rows) rs

insert_row-stored :
    (f : RestateRule) (r : Record) (repo : ℤ) (rows : List Row)
    → any_of (has_key r) rows ≡ true
    → restate_where (f r repo) r rows ≡ rows
    → insert_row f r repo rows ≡ rows
unfolding insert_row
insert_row-stored f r repo rows a b = rw a b

count_row-stored :
    (watched : Bool) (r : Record) (repo : ℤ) (rows : List Row) (w : Written)
    → any_of (has_key r) rows ≡ true
    → (count_row watched r repo rows w).inserted ≡ w.inserted
unfolding count_row
count_row-stored true r repo rows w a = rw a refl
count_row-stored false r repo rows w a = rw a refl

-- What commit does after a registration with the ids fs.
commit-registered :
    (f : RestateRule) (watched : Bool) (rs : List Record) (t : Tables)
    (found : List Repository × Option Ids) (fs : Ids)
    → found.1 ≡ some fs
    → commit f watched rs t found
      ≡ some (
        record {
          usage_record = (insert_rows f watched fs rs t.usage_record nothing_written).0;
          repository = found.0;
        },
        (insert_rows f watched fs rs t.usage_record nothing_written).1,
      )
commit-registered f watched rs t (ps, none) fs e = cc
commit-registered f watched rs t (ps, some ids) fs e = rw (some_injective e) refl

module _ (f : RestateRule) (rule : IsRestateRule f) where
  kept-IsStored :
      (watched : Bool) (ids : Ids) (r : Record) (p : ℤ) (rs : List Record) (rows : List Row)
      (w : Written)
      → All (λ o. same_key r o ≡ false) rs
      → IsStored f r p rows
      → IsStored f r p (insert_rows f watched ids rs rows w).0
  unfolding insert_rows
  kept-IsStored watched ids r p [] rows w d h = h
  kept-IsStored watched ids r p (o ∷ rs) rows w d h =
      kept-IsStored watched ids r p rs (insert_row f o (repo_id ids o) rows)
        (count_row watched o (repo_id ids o) rows w) d.1
        (other-IsStored f rule r o p (repo_id ids o) rows d.0 h)

  -- After a batch of distinct keys, every record of it is stored.
  pub batch-AllStored :
      (watched : Bool) (ids : Ids) (rs : List Record) (rows : List Row) (w : Written)
      → IsDistinct rs
      → AllStored f ids rs (insert_rows f watched ids rs rows w).0
  unfolding insert_rows IsDistinct AllStored
  batch-AllStored watched ids [] rows w d = tt
  batch-AllStored watched ids (r ∷ rs) rows w d =
      let repo = repo_id ids r in
      let now = insert_row f r repo rows in
      let counted = count_row watched r repo rows w in
      (
        kept-IsStored watched ids r repo rs now counted d.0 (inserted-IsStored f rule r repo rows),
        batch-AllStored watched ids rs now counted d.1,
      )

  -- A batch that is stored is written once more without a new row or a changed one.
  stored-unchanged :
      (watched : Bool) (ids : Ids) (rs : List Record) (rows : List Row) (w : Written)
      → AllStored f ids rs rows
      → ((insert_rows f watched ids rs rows w).0 ≡ rows)
        × ((insert_rows f watched ids rs rows w).1.inserted ≡ w.inserted)
  unfolding insert_rows AllStored
  stored-unchanged watched ids [] rows w d = (refl, refl)
  stored-unchanged watched ids (r ∷ rs) rows w ((a, b), d) =
      let (same, count) =
        stored-unchanged watched ids rs rows (count_row watched r (repo_id ids r) rows w) d in
      let step =
        ap (λ x. insert_rows f watched ids rs x (count_row watched r (repo_id ids r) rows w))
          (insert_row-stored f r (repo_id ids r) rows a b) in
      (
        ap (λ x. x.0) step ∙ same,
        ap (λ x. x.1.inserted) step ∙ count ∙ count_row-stored watched r (repo_id ids r) rows w a,
      )

  -- A batch of distinct keys is written, and written again it inserts no row and changes no row, of
  -- usage_record or of the registry.
  pub insert_with-again :
      (watched : Bool) (rs : List Record) (t : Tables)
      → IsDistinct rs
      → (after : Tables) × ((first : Written) × ((second : Written) × ((insert_with f watched rs t
                ≡ some (after, first))
              × ((insert_with f watched rs after ≡ some (after, second)) × (second.inserted ≡ 0)))))
  unfolding insert_with
  insert_with-again watched rs t d =
      let (fs, (done, again)) = register_repositories-again rs t.repository [] in
      let ps = (register_repositories rs t.repository []).0 in
      let out = insert_rows f watched fs rs t.usage_record nothing_written in
      let stored = batch-AllStored watched fs rs t.usage_record nothing_written d in
      let (same, count) = stored-unchanged watched fs rs out.0 nothing_written stored in
      let first =
        commit-registered f watched rs t (register_repositories rs t.repository []) fs done in
      let after : Tables = record { usage_record = out.0; repository = ps } in
      let second =
        commit-registered f watched rs after (register_repositories rs t.repository []) fs done in
      (
        after,
        (
          out.1,
          (
            (insert_rows f watched fs rs out.0 nothing_written).1,
            (
              first,
              (
                rw again (
                    second
                    ∙ ap
                        (λ rows. some (
                          record { usage_record = rows; repository = ps },
                          (insert_rows f watched fs rs out.0 nothing_written).1,
                        ))
                        same),
                count,
              ),
            ),
          ),
        ),
      )

-- A batch of distinct keys read by InsertLocal is stored, and reading it again inserts no row and
-- changes neither usage_record nor the registry of repositories.
pub insert_local-again :
    (rs : List Record) (t : Tables)
    → IsDistinct rs
    → (after : Tables) × ((first : Written) × ((second : Written) × ((insert_local rs t
              ≡ some (after, first))
            × ((insert_local rs after ≡ some (after, second)) × (second.inserted ≡ 0)))))
unfolding insert_local
insert_local-again rs t d = insert_with-again restate_activity activity_rule true rs t d

-- A batch of distinct keys offered to Insert is stored, and offering it again inserts no row and
-- changes neither usage_record nor the registry of repositories.
pub insert-again :
    (rs : List Record) (t : Tables)
    → IsDistinct rs
    → (after : Tables) × ((first : Written) × ((second : Written) × ((insert rs t
              ≡ some (after, first))
            × ((insert rs after ≡ some (after, second)) × (second.inserted ≡ 0)))))
unfolding insert
insert-again rs t d = insert_with-again restate_signals signals_rule false rs t d
