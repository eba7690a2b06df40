-- ===== src/Survival.antt =====
-- internal/survival/survival.go: the tally of a window's commits, and of the lines that blame finds.
-- The map of tally is an association list, the last entry of a key first; git blame is a parameter, and
-- a failed one is none. The dates of a window are left out, and the rate is kept as its two counts.
pub mod Window
use assaio.Prelude.{
  ℕ, ◌+◌, String, Bool, true, false, List, [], ◌∷◌, Option, none, some, str_eq, if◌then◌else◌,
}
use assaio.Prelude.Int.{ℤ, pos, ltb_ℤ, leb_ℤ, ◌+ℤ◌, wrap64}
use assaio.Event.{Event}
use assaio.Event.Payloads.{Payload, Commit, commit, FileCategories}

-- survival.Result, without its dates.
pub record SurvivalResult : Type 0 where
  pub git_added : ℤ
  pub commits : ℕ
  pub reverts : ℕ
  pub merges : ℕ
  pub changed : FileCategories

-- add
unfoldable pub add_files : FileCategories → FileCategories → FileCategories
add_files a b = record {
  test = wrap64 (a.test +ℤ b.test);
  source = wrap64 (a.source +ℤ b.source);
  docs = wrap64 (a.docs +ℤ b.docs);
  config = wrap64 (a.config +ℤ b.config);
  generated = wrap64 (a.generated +ℤ b.generated);
  other = wrap64 (a.other +ℤ b.other);
}

abbrev pub as_commit : Option Payload → Option Commit
as_commit (some (commit c)) = some c
as_commit _ = none

-- The map from a hash to whether it is a merge.
abbrev pub InWindow : Type 0
InWindow = List (String × Bool)

unfoldable pub is_merge_in : InWindow → String → Option Bool
is_merge_in [] hash = none
is_merge_in ((h, m) ∷ rest) hash =
    let found = is_merge_in rest hash in if str_eq h hash then some m else found

-- The body of tally's loop on one commit.
unfoldable pub tally_commit : Commit → SurvivalResult → SurvivalResult
tally_commit c r =
    let seen = record r {
      commits = r.commits + 1;
      reverts = if c.revert then r.reverts + 1 else r.reverts;
    } in
    if ltb_ℤ (pos 1) c.parents then record seen { merges = r.merges + 1 } else record seen {
      git_added = wrap64 (r.git_added +ℤ c.lines_added);
      changed = add_files r.changed c.files;
    }

-- One turn of the loop: an observation that is no commit is passed over.
abbrev pub tally_one :
    Option Commit → String → SurvivalResult × InWindow → SurvivalResult × InWindow
tally_one none id (r, w) = (r, w)
tally_one (some c) id (r, w) = (tally_commit c r, (id, ltb_ℤ (pos 1) c.parents) ∷ w)

-- Result.tally
unfoldable pub tally : List Event → SurvivalResult × InWindow → SurvivalResult × InWindow
tally [] out = out
tally (e ∷ es) out = tally es (tally_one (as_commit e.payload) e.id out)

-- blameTally
pub record BlameTally : Type 0 where
  pub surviving : ℕ
  pub merged : ℕ
  pub files : ℕ
  pub unreadable : ℕ

-- The switch on one line's commit.
abbrev pub count_line : Option Bool → BlameTally → BlameTally
count_line none t = t
count_line (some true) t = record t { merged = t.merged + 1 }
count_line (some false) t = record t { surviving = t.surviving + 1 }

unfoldable pub count_lines : InWindow → List String → BlameTally → BlameTally
count_lines w [] t = t
count_lines w (h ∷ hs) t = count_lines w hs (count_line (is_merge_in w h) t)

abbrev pub count_file : InWindow → Option (List String) → BlameTally → BlameTally
count_file w none t = record t { unreadable = t.unreadable + 1 }
count_file w (some hs) t = count_lines w hs (record t { files = t.files + 1 })

-- survivingLines, of a context that is not cancelled; the second argument is vcs.Blame.
unfoldable pub surviving_lines :
    InWindow → (String → Option (List String)) → List String → BlameTally → BlameTally
surviving_lines w blame [] t = t
surviving_lines w blame (f ∷ fs) t = surviving_lines w blame fs (count_file w (blame f) t)

-- rate: none stands for -1.
unfoldable pub rate : ℕ → ℤ → Option (ℕ × ℤ)
rate surviving added = if leb_ℤ added (pos 0) then none else some (surviving, added)
