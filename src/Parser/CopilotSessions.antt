-- ===== src/Parser/CopilotSessions.antt =====
-- What internal/parser/copilot/copilot.go makes of one session.
use assaio.Prelude.{
  ℕ, ◌+◌, ◌&&◌, ◌≡◌, ◌==◌, str_append, refl, sym, ◌∙◌, String, not, Bool, true, false, ◌||◌,
  Bool-cases, inl, inr, ◌⊎◌, List, [], ◌∷◌, All, length, str_eq, arith, any_of, any_of-sort_by,
  any_of-map, length-map, length-sort_by, str_ltb, map, eq_iff,
}
use assaio.Prelude.Int.{ℤ, pos, negsuc, ltb_ℤ, ◌≤ℤ◌}
use assaio.Usage.{Record}
use assaio.Parser.Copilot.{
  ModelMetrics, model_tokens, Event, Best, no_best, take_model, best_of, model_records,
  model_record, sorted_models, dominant_model, metrics_of, session_of, time_of,
}

-- The best is still the first one, or a named model at its own count.
abbrev IsHeld : (String → ℤ) → Best → Type 0
IsHeld requests b =
    (b.count ≡ negsuc 0) ⊎ ((str_eq b.name "" ≡ false) × (b.count ≡ requests b.name))

taken :
    (requests : String → ℤ) (name : String) (b : Best)
    → IsHeld requests b
    → IsHeld requests (take_model requests name b)
      × ((b.count ≤ℤ (take_model requests name b).count)
          × (str_eq name "" ≡ false → requests name ≤ℤ (take_model requests name b).count))
taken requests name b h = elim (Bool-cases (str_eq name "")) [
  | inl e ↦ rw e (h, (ground arith, (λ f. ground (arith, f))))
  | inr e ↦ elim (Bool-cases (ltb_ℤ b.count (requests name))) [
    | inl l ↦ rw (e, l) (inr (e, refl), (ground (arith, l), (λ f. ground arith)))
    | inr l ↦ rw (e, l) (h, (ground arith, (λ f. ground (arith, l))))
  ]
]

false≢true : false ≡ true → ⊥
false≢true e = cc

at_most : (a b c : ℤ) → a ≤ℤ b → b ≤ℤ c → a ≤ℤ c
at_most a b c h k = ground (arith, h, k)

kept :
    (requests : String → ℤ) (names : List String) (b : Best)
    → IsHeld requests b
    → IsHeld requests (best_of requests names b)
      × ((b.count ≤ℤ (best_of requests names b).count)
          × ((name : String)
              → any_of (λ n. str_eq n name) names ≡ true
              → str_eq name "" ≡ false
              → requests name ≤ℤ (best_of requests names b).count))
unfolding best_of
kept requests [] b h = (h, (ground arith, (λ name f g. absurd (false≢true f))))
kept requests (n ∷ names) b h =
    let (held, (up, own)) = taken requests n b h in
    let (last, (grows, each)) = kept requests names (take_model requests n b) held in
    (
      last,
      (
        ground (arith, up, grows),
        (λ name f g. elim (Bool-cases (str_eq n name)) [
          | inl e ↦
              let same : n ≡ name = (eq_iff n name).0 e in
              rw (sym same) (at_most (requests n) _ _ (own (rw same g)) grows)
          | inr e ↦ each name (rw e at f) g
        ]),
      ),
    )

-- A record that can be stored, under a key and a date, with the tokens of the model that it names.
pub record IsStorable (m : List (String × ModelMetrics)) (r : Record) : Type 0 where
  pub session : str_eq r.session_id "" ≡ false
  pub dated : (r.timestamp == 0) ≡ false
  pub named : str_eq r.model "" ≡ false
  pub tokens : r.tokens ≡ model_tokens (metrics_of m r.model)
  pub key : r.dedupe_key ≡ str_append r.session_id (str_append ":" r.model)

abbrev pub requests_in : List (String × ModelMetrics) → String → ℤ
requests_in m name = (metrics_of m name).requests

names_own :
    (m : List (String × ModelMetrics)) (name : String)
    → any_of (λ n. str_eq n name) (sorted_models m)
      ≡ any_of (λ (e : String × ModelMetrics). str_eq e.0 name) m
unfolding sorted_models
names_own m name =
    any_of-sort_by str_ltb (λ n. str_eq n name) (map (λ (e : String × ModelMetrics). e.0) m)
    ∙ any_of-map (λ n. str_eq n name) (λ (e : String × ModelMetrics). e.0) m

below : (a : ℤ) → pos 0 ≤ℤ a → a ≤ℤ negsuc 0 → ⊥
below a low le = ground (arith, low, le)

held_named :
    (requests : String → ℤ) (b : Best) (name : String)
    → IsHeld requests b
    → pos 0 ≤ℤ requests name
    → requests name ≤ℤ b.count
    → (str_eq b.name "" ≡ false) × (requests name ≤ℤ requests b.name)
held_named requests b name (inl e) low le = absurd (below (requests name) low (rw e at le))
held_named requests b name (inr (named, e)) low le = (named, rw e at le)

-- Where a session names a model with a count of requests that is not negative, the model that its
-- code changes are credited to has a name, and no named model of the session has more requests.
pub dominant_model-IsMost :
    (m : List (String × ModelMetrics)) (name : String)
    → any_of (λ (e : String × ModelMetrics). str_eq e.0 name) m ≡ true
    → str_eq name "" ≡ false
    → pos 0 ≤ℤ requests_in m name
    → (str_eq (dominant_model m) "" ≡ false)
      × (requests_in m name ≤ℤ requests_in m (dominant_model m))
unfolding dominant_model
dominant_model-IsMost m name listed named low =
    let (held, (_, each)) = kept (requests_in m) (sorted_models m) no_best (inl refl) in
    held_named (requests_in m) _ name held low (each name (names_own m name ∙ listed) named)

-- Whether a record is of the model with the name.
abbrev pub names_model : String → Record → Bool
names_model name r = str_eq r.model name

storable :
    (shutdown : Event) (session credited : String) (at : ℕ) (names : List String)
    → str_eq session "" ≡ false
    → (at == 0) ≡ false
    → let w = model_records (model_record shutdown session at credited) names in
      All (IsStorable shutdown.model_metrics) w.0
      × ((length w.0 + w.1 ≡ length names)
          × ((name : String)
              → any_of (names_model name) w.0
                ≡ (not (str_eq name "") && any_of (λ n. str_eq n name) names)))
unfolding model_records model_record
storable shutdown session credited at [] s t = (tt, (refl, (λ name. ground arith)))
storable shutdown session credited at (n ∷ names) s t =
    let (all, (total, own)) = storable shutdown session credited at names s t in
    elim (Bool-cases (str_eq n "")) [
      | inl e ↦ rw e (
        all,
        (
          omega (arith, total),
          λ name. own name ∙ unnamed e name (any_of (λ x. str_eq x name) names),
        ),
      )
      | inr e ↦
          let one : IsStorable shutdown.model_metrics
              (model_record shutdown session at credited n) =
            record { session = s; dated = t; named = e; tokens = refl; key = refl } in
          rw e ((one, all), (omega (arith, total), λ name. added e name _ _ (own name)))
    ]
  where
    unnamed :
        str_eq n "" ≡ true
        → (name : String) (b : Bool)
        → (not (str_eq name "") && b) ≡ (not (str_eq name "") && (str_eq n name || b))
    unnamed e name b = ground (arith, e, eq_iff n "", eq_iff n name, eq_iff name "")

    added :
        str_eq n "" ≡ false
        → (name : String) (b c : Bool) → b ≡ (not (str_eq name "") && c)
        → (str_eq n name || b) ≡ (not (str_eq name "") && (str_eq n name || c))
    added e name b c h = ground (arith, e, h, eq_iff n "", eq_iff n name, eq_iff name "")

listed : (m : List (String × ModelMetrics)) → length (sorted_models m) ≡ length m
unfolding sorted_models
listed m =
    length-sort_by str_ltb (map (λ (e : String × ModelMetrics). e.0) m)
    ∙ length-map (λ (e : String × ModelMetrics). e.0) m

-- What a session with models accounts for, given whether it lacks an id or a date.
abbrev pub counted_as : Bool → List (String × ModelMetrics) → ℕ
counted_as true [] = 0
counted_as true (m ∷ ms) = 1
counted_as false ms = length ms

-- Whether a session lacks an id or a date.
abbrev pub is_unidentified : Event → Event → Bool
is_unidentified start shutdown =
    str_eq (session_of start shutdown) "" || time_of start shutdown == 0

-- The records and the skipped count of a session with the models m, given whether it lacks an id or a
-- date: the records of its named models, each at its own tokens, where it is identified.
pub record IsAccounted (lacking : Bool) (m : List (String × ModelMetrics)) (w : List Record × ℕ)
    : Type 0 where
  pub storable : All (IsStorable m) w.0
  pub counted : length w.0 + w.1 ≡ counted_as lacking m
  pub each :
      (name : String)
      → any_of (names_model name) w.0 ≡ (
          not lacking
          && (not (str_eq name "") && any_of (λ (e : String × ModelMetrics). str_eq e.0 name) m))
