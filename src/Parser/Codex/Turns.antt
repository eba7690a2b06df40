-- ===== src/Parser/Codex/Turns.antt =====
-- How the sequence of internal/parser/codex/steps.go prices the turns of a rollout.
use assaio.Prelude.{
  ℕ, ◌≡◌, refl, ap, ◌∙◌, Bool, true, false, not, Bool-cases, inl, inr, List, [], ◌∷◌, ◌++◌, Option,
  none, some, length, update_at, update_at-middle, All, All-append, str_eq, filter_if, map,
}
use mathlib.Core.List.{Sublistᴰ, append_assoc, append-nil}
use assaio.Prelude.Int.{ℤ}
use assaio.Usage.{Tokens, Record, Step}
use assaio.Parser.{sum_non_neg}
use assaio.Parser.Codex.{Slot}
use assaio.Parser.Codex.Recorder.{drop_slot, price_slot}

-- The token total that a record's three priced counters make.
abbrev pub bill : Tokens → ℤ
bill t = sum_non_neg (t.input ∷ t.cache_read ∷ t.output ∷ [])

abbrev pub bills : List Record → List ℤ
bills rs = map (λ (r : Record). bill r.tokens) rs

abbrev pub is_response : Step → Bool
is_response s = str_eq s.kind "assistant"

-- The token totals of the model responses of a sequence.
abbrev pub costs : List Step → List ℤ
costs ss = map (λ (s : Step). s.tokens) (filter_if is_response ss)

abbrev pub live_steps : List Slot → List Step
live_steps xs = map (λ (x : Slot). x.step) (filter_if (λ (x : Slot). not x.is_dropped) xs)

-- No slot is a model response.
abbrev pub NoResponse : List Slot → Type 0
NoResponse xs = All (λ (x : Slot). is_response x.step ≡ false) xs

-- The response opened at an index is in the sequence, and none follows it.
pub record IsOpen (i : ℕ) (xs : List Slot) (paid : List ℤ) : Type 0 where
  pub before : List Slot
  pub opened : Slot
  pub after : List Slot
  pub split : xs ≡ before ++ (opened ∷ after)
  pub index : i ≡ length before
  pub response : is_response opened.step ≡ true
  pub live : opened.is_dropped ≡ false
  pub others : NoResponse after
  pub billed : Sublistᴰ (costs (live_steps before)) paid

module _ where
  live-append : (xs ys : List Slot) → live_steps (xs ++ ys) ≡ live_steps xs ++ live_steps ys
  live-append [] ys = refl
  live-append (x ∷ xs) ys = elim (Bool-cases x.is_dropped) [
    | inl e ↦ rw e (live-append xs ys)
    | inr e ↦ rw e (ap (λ zs. x.step ∷ zs) (live-append xs ys))
  ]

  costs-append : (xs ys : List Step) → costs (xs ++ ys) ≡ costs xs ++ costs ys
  costs-append [] ys = refl
  costs-append (x ∷ xs) ys = elim (Bool-cases (is_response x)) [
    | inl e ↦ rw e (ap (λ zs. x.tokens ∷ zs) (costs-append xs ys))
    | inr e ↦ rw e (costs-append xs ys)
  ]

-- The token totals of the responses kept among the slots.
abbrev pub kept_costs : List Slot → List ℤ
kept_costs xs = costs (live_steps xs)

pub kept_costs-append : (xs ys : List Slot) → kept_costs (xs ++ ys) ≡ kept_costs xs ++ kept_costs ys
kept_costs-append xs ys =
    ap costs (live-append xs ys) ∙ costs-append (live_steps xs) (live_steps ys)

pub kept_costs-none : (xs : List Slot) → NoResponse xs → kept_costs xs ≡ []
kept_costs-none [] h = refl
kept_costs-none (x ∷ xs) h = elim (Bool-cases x.is_dropped) [
  | inl e ↦ rw e (kept_costs-none xs h.1)
  | inr e ↦ rw (e, h.0) (kept_costs-none xs h.1)
]

-- The responses kept are billed by records, in their order, but the one still open.
abbrev pub IsBilled : Option ℕ → List Slot → List ℤ → Type 0
IsBilled none xs paid = Sublistᴰ (kept_costs xs) paid
IsBilled (some i) xs paid = IsOpen i xs paid

pub add_quiet :
    (t : Option ℕ) (xs ys : List Slot) (paid : List ℤ)
    → NoResponse ys
    → IsBilled t xs paid
    → IsBilled t (xs ++ ys) paid
add_quiet none xs ys paid q h =
    rw (kept_costs-append xs ys, kept_costs-none ys q, append-nil (kept_costs xs)) h
add_quiet (some i) xs ys paid q h = record {
  before = h.before;
  opened = h.opened;
  after = h.after ++ ys;
  split = ap (λ l. l ++ ys) h.split ∙ append_assoc h.before (h.opened ∷ h.after) ys;
  index = h.index;
  response = h.response;
  live = h.live;
  others = All-append _ h.after ys h.others q;
  billed = h.billed;
}

-- Dropping the open response leaves those before it.
pub dropped_costs :
    (i : ℕ) (xs : List Slot) (paid : List ℤ) (h : IsOpen i xs paid)
    → kept_costs (update_at drop_slot i xs) ≡ kept_costs h.before
dropped_costs i xs paid h =
    let moved : update_at drop_slot i xs ≡ h.before ++ (drop_slot h.opened ∷ h.after) =
      rw (h.index, h.split) (update_at-middle drop_slot h.before h.opened h.after) in
    rw
      (
        moved,
        kept_costs-append h.before (drop_slot h.opened ∷ h.after),
        kept_costs-none h.after h.others,
      )
      (append-nil (kept_costs h.before))

pub priced_costs :
    (t : Tokens) (i : ℕ) (xs : List Slot) (paid : List ℤ) (h : IsOpen i xs paid)
    → kept_costs (update_at (price_slot t) i xs) ≡ kept_costs h.before ++ (bill t ∷ [])
priced_costs t i xs paid h =
    let moved : update_at (price_slot t) i xs ≡ h.before ++ (price_slot t h.opened ∷ h.after) =
      rw (h.index, h.split) (update_at-middle (price_slot t) h.before h.opened h.after) in
    rw (moved, kept_costs-append h.before (price_slot t h.opened ∷ h.after))
      (let one : kept_costs (price_slot t h.opened ∷ h.after) ≡ bill t ∷ [] =
          rw (h.live, h.response) (ap (λ l. bill t ∷ l) (kept_costs-none h.after h.others)) in
        ap (λ l. kept_costs h.before ++ l) one)
