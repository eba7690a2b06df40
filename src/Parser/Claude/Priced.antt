-- ===== src/Parser/Claude/Priced.antt =====
-- The two readings of internal/parser/claude agree on what each response cost.
use assaio.Prelude.{
  ℕ, ◌≡◌, refl, ap, ◌∙◌, sym, String, true, false, Option-cases, inl, inr, List, [], ◌∷◌, ◌++◌,
  Option, none, some, some_injective, none≢some, length, get_elem?, update_at, str_eq, eq_refl,
  if◌then◌else◌,
}
use assaio.Prelude.Int.{ℤ}
use assaio.Usage.{Activity, Record, Step}
use assaio.Parser.Tools.{lookup}
use assaio.Parser.Indexed.{
  IsIndexed-update, IsIndexed-append, IsIndexed-new, IsIndexed-nil, indexed_own, get-update_own,
  get-append_last,
}
use assaio.Parser.Views.{view-update, view-append, view-new, view-set, value_of}
use assaio.Parser.Claude.{
  Library, Line, ContentBlock, BlockActivity, StepRecorder, ParseState, new_parse_state,
}
use assaio.Parser.Claude.Recorder.{assistant, stamp}
use assaio.Parser.Claude.Reader.{
  append_keyed, record_step, at_last, bill, bill_of, apply_raws, parse_all,
}
use assaio.Parser.Claude.Results.{sub_agent_record}
use assaio.Parser.Claude.Records.{record_from_line, merge_response}
use assaio.Parser.Claude.Moves.{Keeps, apply_raws-Inv}
use assaio.Parser.Claude.Responses.{
  is_turn, is_response, record_key, step_key, cost_of, billed_for, HasResponses, HasTurns, IsQuiet,
  assistant-Told, tool_calls-Quiet, resolve_results-Quiet, denial-Quiet, compaction-Quiet,
}

-- Each response has one record and one step, found by its key, at one token total.
pub record AreMatched (st : ParseState) : Type 0 where
  pub turns : HasTurns st
  pub responses : HasResponses st.steps
  pub priced : (k : String) → cost_of st.steps k ≡ billed_for st k

quiet-Matched :
    (st : ParseState) (s : StepRecorder)
    → IsQuiet st.steps s
    → AreMatched st
    → AreMatched (record st { steps = s })
quiet-Matched st s q h = record {
  turns = h.turns;
  responses = q.responses h.responses;
  priced = λ k. q.costs h.responses k ∙ h.priced k;
}

at_last-Matched :
    (f : Activity → Activity) (o : Option ℕ) (st : ParseState)
    → AreMatched st
    → AreMatched (record st { out = at_last f o st.out })
at_last-Matched f none st h = h
at_last-Matched f (some i) st h =
    let change = λ (r : Record). record r { activity = f r.activity } in
    record {
      turns =
          IsIndexed-update record_key is_turn change i st.by_message st.out (λ r. refl) (λ r. refl)
            h.turns;
      responses = h.responses;
      priced = λ k.
          h.priced k
          ∙ sym (
              view-update (λ (r : Record). bill r.tokens) change i st.by_message st.out k
                (λ r. refl));
    }

other-Matched :
    (r : Record) (st : ParseState)
    → is_turn r ≡ false
    → AreMatched st
    → AreMatched (record st { out = st.out ++ (r ∷ []) })
other-Matched r st e h = record {
  turns = IsIndexed-append record_key is_turn r st.by_message st.out e h.turns;
  responses = h.responses;
  priced = λ k.
      h.priced k
      ∙ sym (
          view-append (λ (x : Record). bill x.tokens) record_key is_turn st.by_message st.out
            (r ∷ []) k h.turns);
}

-- What is left once the record of a response is there and its step is told.
told-Matched :
    (lib : Library) (l : Line) (bs : List ContentBlock) (key : String) (at : ℕ)
    (st st' : ParseState)
    → AreMatched st
    → st'.steps ≡ st.steps
    → HasTurns st'
    → ((k : String)
        → billed_for st' k
          ≡ (if str_eq key k then some (bill_of (get_elem? st'.out at)) else billed_for st k))
    → AreMatched (record_step lib l key bs at st')
unfolding record_step
told-Matched lib l bs key at st st' h e t b =
    let total = bill_of (get_elem? st'.out at) in
    let before : HasResponses st'.steps = rw e h.responses in
    let told = assistant-Told l key total st'.steps before in
    let quiet = tool_calls-Quiet lib l key st'.carry.cwd bs (assistant l key total st'.steps) in
    record {
      turns = t;
      responses = quiet.responses told.responses;
      priced = λ k.
          quiet.costs told.responses k
          ∙ told.costs k
          ∙ ap (λ c. if str_eq key k then some total else c) (ap (λ s. cost_of s k) e ∙ h.priced k)
          ∙ sym (b k);
    }

keyed-Matched :
    (lib : Library) (l : Line) (act : BlockActivity) (bs : List ContentBlock) (key : String)
    (st : ParseState)
    → AreMatched st
    → AreMatched (append_keyed lib l act bs key (lookup key st.by_message) st)
unfolding merge_response record_from_line
keyed-Matched lib l act bs key st h = elim (Option-cases (lookup key st.by_message)) [
  | inl e ↦
      let fresh = record_from_line lib l st.carry act key in
      let last : bill_of (get_elem? (st.out ++ (fresh ∷ [])) (length st.out)) ≡ bill fresh.tokens =
        ap bill_of (get-append_last st.out fresh) in
      rw e (
        told-Matched lib l bs key (length st.out) st _ h refl
          (IsIndexed-new record_key is_turn fresh st.by_message st.out refl e h.turns)
          (λ k.
            view-new (λ (r : Record). bill r.tokens) record_key is_turn st.by_message st.out fresh k
              h.turns
            ∙ ap (λ c. if str_eq key k then some c else billed_for st k) (sym last)))
  | inr (i, e) ↦
      let (r, (at, w)) = h.turns.found key i e in
      let merged : bill_of (get_elem? (update_at (merge_response l act) i st.out) i)
          ≡ bill (merge_response l act r).tokens =
        ap bill_of (get-update_own (merge_response l act) i st.out r at) in
      rw e (
        told-Matched lib l bs key i st _ h refl
          (IsIndexed-update record_key is_turn (merge_response l act) i st.by_message st.out
            (λ x. refl) (λ x. refl) h.turns)
          (λ k.
            view-set (λ (x : Record). bill x.tokens) record_key is_turn st.by_message st.out
              (merge_response l act) i r key k h.turns e at
            ∙ ap (λ c. if str_eq key k then some c else billed_for st k) (sym merged)))
]

keeps_matched : (lib : Library) → Keeps lib AreMatched
unfolding sub_agent_record
keeps_matched lib = record {
  stated = λ st seen compacting budget skipped session timeline carry h. record {
    turns = h.turns;
    responses = h.responses;
    priced = h.priced;
  };
  counted = λ f st q h. at_last-Matched f st.last st h;
  delegated = λ l t u st h. other-Matched _ st refl h;
  resolved = λ bs st h. quiet-Matched st _ (resolve_results-Quiet bs st.steps) h;
  denied = λ bs st h. quiet-Matched st _ (denial-Quiet bs st.steps) h;
  compacted = λ l st h. quiet-Matched st _ (compaction-Quiet l st.steps) h;
  responded = λ l act bs key st e h. keyed-Matched lib l act bs key st h;
}

matched_start : AreMatched new_parse_state
unfolding lookup
matched_start = record {
  turns = IsIndexed-nil record_key is_turn;
  responses = IsIndexed-nil step_key is_response;
  priced = λ k. refl;
}

matched_end :
    (lib : Library) (raws : List String) → AreMatched (apply_raws lib raws new_parse_state)
matched_end lib raws =
    apply_raws-Inv lib AreMatched (keeps_matched lib) raws new_parse_state matched_start

-- Whatever a transcript holds, two of its turn records with one dedupe key are one record: the lines
-- of a response are folded together.
pub parse_all_own :
    (lib : Library) (raws : List String) (i j : ℕ) (r q : Record)
    → get_elem? (parse_all lib raws).records i ≡ some r
    → get_elem? (parse_all lib raws).records j ≡ some q
    → r.granularity ≡ "turn"
    → q.granularity ≡ "turn"
    → r.dedupe_key ≡ q.dedupe_key
    → i ≡ j
unfolding parse_all
parse_all_own lib raws i j r q a b t u e =
    indexed_own record_key is_turn _ _ i j r q (matched_end lib raws).turns a b
      (ap (λ g. str_eq g "turn") t ∙ eq_refl "turn") (ap (λ g. str_eq g "turn") u ∙ eq_refl "turn")
      e

stamped :
    (session timeline : String) (ss : List Step) (j : ℕ) (s : Step)
    → get_elem? (stamp session timeline ss) j ≡ some s
    → (x : Step) × ((get_elem? ss j ≡ some x)
        × ((x.tokens ≡ s.tokens) × ((x.dedupe_key ≡ s.dedupe_key) × (x.kind ≡ s.kind))))
unfolding stamp
stamped session timeline [] j s h = absurd (none≢some h)
stamped session timeline (x ∷ xs) ℕ.zero s h =
    let same = some_injective h in
    (
      x,
      (
        refl,
        (
          ap (λ (y : Step). y.tokens) same,
          (ap (λ (y : Step). y.dedupe_key) same, ap (λ (y : Step). y.kind) same),
        ),
      ),
    )
stamped session timeline (x ∷ xs) (ℕ.suc j) s h = stamped session timeline xs j s h

-- A record of a turn at a key and a token total.
pub record HasTurn (rs : List Record) (key : String) (total : ℤ) : Type 0 where
  pub index : ℕ
  pub turn : Record
  pub there : get_elem? rs index ≡ some turn
  pub own_key : turn.dedupe_key ≡ key
  pub billed : bill turn.tokens ≡ total

value_own :
    (o : Option Record) (c : ℤ)
    → some c ≡ value_of (λ (r : Record). bill r.tokens) o
    → (r : Record) × ((o ≡ some r) × (bill r.tokens ≡ c))
value_own none c h = absurd (none≢some (sym h))
value_own (some r) c h = (r, (refl, sym (some_injective h)))

turn_of :
    (st : ParseState) (h : AreMatched st) (j : ℕ) (s : Step)
    → get_elem? st.steps.steps j ≡ some s
    → is_response s ≡ true
    → HasTurn st.out s.dedupe_key s.tokens
turn_of st h j s at r =
    let listed = h.responses.listed j s at r in
    let cost : cost_of st.steps s.dedupe_key ≡ some s.tokens = rw (listed, at) refl in
    let owed = sym cost ∙ h.priced s.dedupe_key in
    elim (Option-cases (lookup s.dedupe_key st.by_message)) [
      | inl e ↦ absurd (none≢some (sym (rw e at owed)))
      | inr (i, e) ↦
          let (x, (there, (w, own))) = h.turns.found s.dedupe_key i e in
          let (y, (here, same)) = value_own (get_elem? st.out i) s.tokens (rw e at owed) in
          record {
            index = i;
            turn = x;
            there = there;
            own_key = own;
            billed = ap (λ (z : Record). bill z.tokens) (some_injective (sym there ∙ here)) ∙ same;
          }
    ]

-- Whatever a transcript holds, each assistant step carries the dedupe key of a record of a turn and
-- that record's token total, however many lines the response was written in.
pub parse_all_priced :
    (lib : Library) (raws : List String) (j : ℕ) (s : Step)
    → get_elem? (parse_all lib raws).steps j ≡ some s
    → s.kind ≡ "assistant"
    → HasTurn (parse_all lib raws).records s.dedupe_key s.tokens
unfolding parse_all
parse_all_priced lib raws j s at kind =
    let st = apply_raws lib raws new_parse_state in
    let (x, (there, (tokens, (key, same)))) =
      stamped st.session_id st.timeline st.steps.steps j s at in
    let turn =
      turn_of st (matched_end lib raws) j x there
        (ap (λ k. str_eq k "assistant") (same ∙ kind) ∙ eq_refl "assistant") in
    record {
      index = turn.index;
      turn = turn.turn;
      there = turn.there;
      own_key = turn.own_key ∙ key;
      billed = turn.billed ∙ tokens;
    }
