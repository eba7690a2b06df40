-- ===== src/Parser/Codex/Edits.antt =====
-- What the edit steps of internal/parser/codex/steps.go say of their files.
use assaio.Prelude.{true, ◌++◌, ◌⊎◌, ◌≡◌, ◌↔◌, String, false, List, [], ◌∷◌, some, str_eq}
use assaio.Prelude.Int.{ℤ, pos}
use assaio.Parser.Codex.{Slot}
use assaio.Parser.Codex.Recorder.{target_of, ref}

-- The integer r stands for the file p, or for no file where p is empty.
abbrev Coded : String → ℤ → List (String × ℤ) → Type 0
Coded p r ts =
    ((str_eq p "" ≡ true) × (r ≡ pos 0)) ⊎ ((str_eq p "" ≡ false) × (target_of p ts ≡ some r))

-- The integer that a step carries is the one that the table gives a file name exactly when the name is
-- that of the step's own file.
abbrev pub StandsFor : String → ℤ → List (String × ℤ) → Type 0
StandsFor p r ts = (q : String) → (r ≡ (ref q ts).0) ↔ (p ≡ q)

-- The steps of some slots, one for each file.
abbrev pub AreOf : (String → ℤ → Type 0) → List String → List Slot → Type 0
AreOf R [] [] = Unit
AreOf R [] (x ∷ xs) = ⊥
AreOf R (p ∷ ps) [] = ⊥
AreOf R (p ∷ ps) (x ∷ xs) = R p x.step.target_ref × AreOf R ps xs

-- The steps that a patch appends.
abbrev pub Appends : (String → ℤ → Type 0) → List String → List Slot → List Slot → Type 0
Appends R ps before after = (new : List Slot) × ((after ≡ before ++ new) × AreOf R ps new)
