-- ===== src/Survival/Window.antt =====
-- What the tallies of internal/survival/survival.go count.
use assaio.Prelude.{
  ℕ, ◌+◌, String, ◌≡◌, refl, ◌∙◌, Bool, true, false, not, Bool-cases, inl, inr, Option, some, none,
  List, [], ◌∷◌, length, count_if, arith, if◌then◌else◌,
}
use assaio.Prelude.Int.{pos, ltb_ℤ}
use assaio.Event.{Event}
use assaio.Event.Payloads.{Commit}
use assaio.Survival.{
  SurvivalResult, InWindow, BlameTally, as_commit, is_merge_in, tally_commit, tally_one, tally,
  count_line, count_lines, count_file, surviving_lines,
}

abbrev is_tagged : Bool → Option Bool → Bool
is_tagged b none = false
is_tagged true (some m) = m
is_tagged false (some m) = not m

-- The lines of some hashes that the window gives the tag: true for its merges, false for the others.
abbrev pub tagged : InWindow → Bool → List String → ℕ
tagged w b hs = count_if (λ h. is_tagged b (is_merge_in w h)) hs

count_lines-tagged :
    (w : InWindow) (hs : List String) (t : BlameTally)
    → ((count_lines w hs t).surviving ≡ t.surviving + tagged w false hs)
      × ((count_lines w hs t).merged ≡ t.merged + tagged w true hs)
      × ((count_lines w hs t).files ≡ t.files)
      × ((count_lines w hs t).unreadable ≡ t.unreadable)
unfolding count_lines
count_lines-tagged w [] t = (omega arith, omega arith, refl, refl)
count_lines-tagged w (h ∷ hs) t =
    let (a, b, c, d) = count_lines-tagged w hs (count_line (is_merge_in w h) t) in
    let (x, y, z, u) = one (is_merge_in w h) in
    (omega (arith, a, x), omega (arith, b, y), c ∙ z, d ∙ u)
  where
    one :
        (o : Option Bool)
        → ((count_line o t).surviving ≡ t.surviving + (if is_tagged false o then 1 else 0))
          × ((count_line o t).merged ≡ t.merged + (if is_tagged true o then 1 else 0))
          × ((count_line o t).files ≡ t.files)
          × ((count_line o t).unreadable ≡ t.unreadable)
    one none = (omega arith, omega arith, refl, refl)
    one (some true) = (omega arith, omega arith, refl, refl)
    one (some false) = (omega arith, omega arith, refl, refl)

abbrev tagged_in : InWindow → Bool → Option (List String) → ℕ
tagged_in w b none = 0
tagged_in w b (some hs) = tagged w b hs

-- The lines with the tag, of all the files that blame reads.
abbrev pub lines_tagged : InWindow → (String → Option (List String)) → Bool → List String → ℕ
lines_tagged w blame b [] = 0
lines_tagged w blame b (f ∷ fs) = tagged_in w b (blame f) + lines_tagged w blame b fs

count_file-tagged :
    (w : InWindow) (o : Option (List String)) (t : BlameTally)
    → ((count_file w o t).surviving ≡ t.surviving + tagged_in w false o)
      × ((count_file w o t).merged ≡ t.merged + tagged_in w true o)
      × ((count_file w o t).files + (count_file w o t).unreadable ≡ t.files + t.unreadable + 1)
count_file-tagged w none t = (omega arith, omega arith, omega arith)
count_file-tagged w (some hs) t =
    let (a, b, c, d) = count_lines-tagged w hs (record t { files = t.files + 1 }) in
    (a, b, omega (arith, c, d))

-- Over any files, the surviving lines are exactly those that blame gives to the window's ordinary
-- commits, the merged lines those it gives to its merges, and every file is read or unreadable.
pub surviving_lines-tagged :
    (w : InWindow) (blame : String → Option (List String)) (fs : List String) (t : BlameTally)
    → ((surviving_lines w blame fs t).surviving ≡ t.surviving + lines_tagged w blame false fs)
      × ((surviving_lines w blame fs t).merged ≡ t.merged + lines_tagged w blame true fs)
      × ((surviving_lines w blame fs t).files + (surviving_lines w blame fs t).unreadable
          ≡ t.files + t.unreadable + length fs)
unfolding surviving_lines
surviving_lines-tagged w blame [] t = (omega arith, omega arith, omega arith)
surviving_lines-tagged w blame (f ∷ fs) t =
    let (a, b, c) = surviving_lines-tagged w blame fs (count_file w (blame f) t) in
    let (x, y, z) = count_file-tagged w (blame f) t in
    (omega (arith, a, x), omega (arith, b, y), omega (arith, c, z))

abbrev is_ordinary : Event → Bool
is_ordinary e = elim (as_commit e.payload) [ none ↦ false | some c ↦ not (ltb_ℤ (pos 1) c.parents) ]

abbrev is_some_commit : Event → Bool
is_some_commit e = elim (as_commit e.payload) [ none ↦ false | some c ↦ true ]

-- What a tally counts of some events: its commits are the events that carry one, each of them a merge
-- or an ordinary commit.
tally_one-split :
    (o : Option Commit) (id : String) (out : SurvivalResult × InWindow)
    → ((tally_one o id out).0.commits
        ≡ out.0.commits + (if (elim o [ none ↦ false | some c ↦ true ]) then 1 else 0))
      × ((tally_one o id out).0.merges
            + (if (elim o [ none ↦ false | some c ↦ not (ltb_ℤ (pos 1) c.parents) ]) then 1 else 0)
            + out.0.commits
          ≡ out.0.merges + (tally_one o id out).0.commits)
unfolding tally_commit
tally_one-split none id (r, w) = (omega arith, omega arith)
tally_one-split (some c) id (r, w) = elim (Bool-cases (ltb_ℤ (pos 1) c.parents)) [
  | inl e ↦ rw e (omega arith, omega arith)
  | inr e ↦ rw e (omega arith, omega arith)
]

-- Of any events, the tally counts as commits exactly those that carry one, and as merges exactly
-- those of them that are not ordinary.
pub tally-split :
    (es : List Event) (out : SurvivalResult × InWindow)
    → ((tally es out).0.commits ≡ out.0.commits + count_if is_some_commit es)
      × ((tally es out).0.merges + count_if is_ordinary es + out.0.commits
          ≡ out.0.merges + (tally es out).0.commits)
unfolding tally
tally-split [] out = (omega arith, omega arith)
tally-split (e ∷ es) out =
    let (a, b) = tally-split es (tally_one (as_commit e.payload) e.id out) in
    let (x, y) = tally_one-split (as_commit e.payload) e.id out in
    (omega (arith, a, x), omega (arith, b, y))
