-- ===== src/Label/Derived.antt =====
-- What internal/label/derive.go suggests.
use assaio.Prelude.{
  ℕ, ◌+◌, ◌≡◌, ◌≢◌, refl, String, Bool, true, false, not, ◌||◌, any_of, ap, sym, ◌∙◌, Bool-cases,
  ◌&&◌, inl, inr, Option, some, none, List, [], ◌∷◌, all_of, All, str_eq, eq_iff, arith,
}
use assaio.Label.{
  Rule, Compiled, Signals, Suggestion, Loaded, RuleError, engine, fault, is_valid, rule_fault,
  compiled_rule, go_on, new_engine, first_match, hit, also_hit, hits_on, agreed, also_agreed,
  derive_on, derive, axis_names,
}

-- A rule of the vocabulary.
abbrev pub IsSound : Compiled → Type 0
IsSound c = (c.rule.value ≢ "") × (is_valid c.rule.axis c.rule.value ≡ true)

sound_rule : (r : Rule) → rule_fault r ≡ none → (r.value ≢ "") × (is_valid r.axis r.value ≡ true)
unfolding rule_fault
sound_rule r h = (λ e. ground (arith, eq_iff r.value ""), ground (arith, eq_iff r.value ""))

engine_injective : {cs ds : List Compiled} → engine cs ≡ engine ds → cs ≡ ds
engine_injective h = cc

step-IsSound :
    (i : ℕ) (r : Rule) (e : Option RuleError) (m : Option (String → Bool)) (rest : Loaded)
    (cs : List Compiled)
    → rule_fault r ≡ e
    → ((ds : List Compiled) → rest ≡ engine ds → All IsSound ds)
    → go_on i (compiled_rule r e m) rest ≡ engine cs
    → All IsSound cs
step-IsSound i r (some x) m rest cs q h k = cc
step-IsSound i r none none rest cs q h k = cc
step-IsSound i r none (some m) (fault j x) cs q h k = cc
step-IsSound i r none (some m) (engine ds) cs q h k =
    rw (← engine_injective k) (sound_rule r q, h ds refl)

-- An engine that loads has only rules whose value is a stated value of their axis.
pub new_engine-IsSound :
    (compile : String → Option (String → Bool)) (i : ℕ) (rs : List Rule) (cs : List Compiled)
    → new_engine compile i rs ≡ engine cs
    → All IsSound cs
unfolding new_engine
new_engine-IsSound compile i [] cs h = rw (← engine_injective h) tt
new_engine-IsSound compile i (r ∷ rs) cs h =
    step-IsSound i r (rule_fault r) (compile r.pattern) (new_engine compile (i + 1) rs) cs refl
      (λ ds e. new_engine-IsSound compile (i + 1) rs ds e) h

-- A hit on an axis, with a value of its vocabulary.
abbrev IsHit : String → Suggestion → Type 0
IsHit axis h = (h.axis ≡ axis) × (h.value ≢ "") × (is_valid axis h.value ≡ true)

hit-IsHit :
    (axis : String) (c : Compiled) (o : Option String) (hs : List Suggestion)
    → IsSound c
    → All (IsHit axis) hs
    → All (IsHit axis) (also_hit axis (hit c o) hs)
hit-IsHit axis c none hs s h = h
hit-IsHit axis c (some v) hs s h = elim (Bool-cases (str_eq c.rule.axis axis)) [
  | inl e ↦
      let same : c.rule.axis ≡ axis = ground (arith, eq_iff c.rule.axis axis) in
      rw e ((same, s.0, rw (← same) s.1), h)
  | inr e ↦ rw e h
]

hits_on-IsHit :
    (axis : String) (sig : Signals) (cs : List Compiled)
    → All IsSound cs
    → All (IsHit axis) (hits_on axis sig cs)
unfolding hits_on
hits_on-IsHit axis sig [] h = tt
hits_on-IsHit axis sig (c ∷ cs) (s, h) =
    hit-IsHit axis c (first_match c.matches (sig c.rule.source)) (hits_on axis sig cs) s
      (hits_on-IsHit axis sig cs h)

abbrev is_some : Option String → Bool
is_some none = false
is_some (some v) = true

-- Whether a rule of the axis matches one of the values that its source has.
abbrev pub fires : String → Signals → Compiled → Bool
fires axis sig c =
    str_eq c.rule.axis axis && any_of (λ v. not (str_eq v "") && c.matches v) (sig c.rule.source)

first_match_any :
    (matches : String → Bool) (vs : List String)
    → is_some (first_match matches vs) ≡ any_of (λ v. not (str_eq v "") && matches v) vs
unfolding first_match
first_match_any matches [] = refl
first_match_any matches (v ∷ vs) = elim (Bool-cases (str_eq v "" || not (matches v))) [
  | inl e ↦ rw e (ground (arith, e, first_match_any matches vs))
  | inr e ↦ rw e (ground (arith, e))
]

module _ (axis : String) (p : String → Bool) where
  abbrev good : Suggestion → Bool
  good h = p h.value

  all-also_hit :
      (c : Compiled) (o : Option String) (hs : List Suggestion)
      → all_of good (also_hit axis (hit c o) hs)
        ≡ ((not (str_eq c.rule.axis axis && is_some o) || p c.rule.value) && all_of good hs)
  all-also_hit c none hs = ground arith
  all-also_hit c (some v) hs = elim (Bool-cases (str_eq c.rule.axis axis)) [
    | inl e ↦ rw e refl
    | inr e ↦ rw e refl
  ]

  any-also_hit :
      (c : Compiled) (o : Option String) (hs : List Suggestion)
      → any_of good (also_hit axis (hit c o) hs)
        ≡ (((str_eq c.rule.axis axis && is_some o) && p c.rule.value) || any_of good hs)
  any-also_hit c none hs = ground arith
  any-also_hit c (some v) hs = elim (Bool-cases (str_eq c.rule.axis axis)) [
    | inl e ↦ rw e refl
    | inr e ↦ rw e refl
  ]

  -- What holds of the hits of an axis is what holds of its rules that match.
  hits_on_all :
      (sig : Signals) (cs : List Compiled)
      → all_of good (hits_on axis sig cs)
        ≡ all_of (λ c. not (fires axis sig c) || p c.rule.value) cs
  unfolding hits_on
  hits_on_all sig [] = refl
  hits_on_all sig (c ∷ cs) =
      all-also_hit c (first_match c.matches (sig c.rule.source)) (hits_on axis sig cs)
      ∙ cc (first_match_any c.matches (sig c.rule.source), hits_on_all sig cs)

  hits_on_any :
      (sig : Signals) (cs : List Compiled)
      → any_of good (hits_on axis sig cs) ≡ any_of (λ c. fires axis sig c && p c.rule.value) cs
  unfolding hits_on
  hits_on_any sig [] = refl
  hits_on_any sig (c ∷ cs) =
      any-also_hit c (first_match c.matches (sig c.rule.source)) (hits_on axis sig cs)
      ∙ cc (first_match_any c.matches (sig c.rule.source), hits_on_any sig cs)

-- A suggestion with a value of its vocabulary, which a matching rule of its axis gives and no matching
-- rule of its axis contradicts.
pub record IsAgreed (sig : Signals) (cs : List Compiled) (s : Suggestion) : Type 0 where
  pub stated : s.value ≢ ""
  pub vocabulary : is_valid s.axis s.value ≡ true
  pub unanimous : all_of (λ c. not (fires s.axis sig c) || str_eq c.rule.value s.value) cs ≡ true
  pub evidence : any_of (λ c. fires s.axis sig c && str_eq c.rule.value s.value) cs ≡ true

own_value : (v : String) (b : Bool) → b ≡ true → (str_eq v v && b) ≡ true
own_value v b h = ground (arith, eq_iff v v)

first_own : (v : String) (b : Bool) → (str_eq v v || b) ≡ true
first_own v b = ground (arith, eq_iff v v)

-- Hits that agree with the value of the first one.
hits-IsAgreed :
    (sig : Signals) (cs : List Compiled) (x : Suggestion) (hs : List Suggestion) (axis : String)
    → hits_on axis sig cs ≡ x ∷ hs
    → IsHit axis x
    → all_of (λ h. str_eq h.value x.value) hs ≡ true
    → (s : Suggestion) → s.axis ≡ x.axis
    → s.value ≡ x.value
    → IsAgreed sig cs s
hits-IsAgreed sig cs x hs axis q h e s same_axis same_value =
    let own = λ (v : String). str_eq v x.value in
    let all : all_of (λ c. not (fires axis sig c) || str_eq c.rule.value x.value) cs ≡ true =
      sym (hits_on_all axis own sig cs)
      ∙ ap (λ l. all_of (λ (h : Suggestion). str_eq h.value x.value) l) q
      ∙ own_value x.value _ e in
    let one : any_of (λ c. fires axis sig c && str_eq c.rule.value x.value) cs ≡ true =
      sym (hits_on_any axis own sig cs)
      ∙ ap (λ l. any_of (λ (h : Suggestion). str_eq h.value x.value) l) q
      ∙ first_own x.value _ in
    record {
      stated = rw same_value h.1;
      vocabulary = rw (same_axis, same_value, h.0) h.2;
      unanimous = rw (same_axis, same_value, h.0) all;
      evidence = rw (same_axis, same_value, h.0) one;
    }

agreed-IsAgreed :
    (axis : String) (sig : Signals) (cs : List Compiled) (hs : List Suggestion)
    (ss : List Suggestion)
    → hits_on axis sig cs ≡ hs
    → All (IsHit axis) hs
    → All (IsAgreed sig cs) ss
    → All (IsAgreed sig cs) (also_agreed (agreed hs) ss)
unfolding agreed
agreed-IsAgreed axis sig cs [] ss q h k = k
agreed-IsAgreed axis sig cs (x ∷ []) ss q (h, _) k =
    (hits-IsAgreed sig cs x [] axis q h refl x refl refl, k)
agreed-IsAgreed axis sig cs (x ∷ y ∷ hs) ss q (h, _) k =
    elim (Bool-cases (all_of (λ s. str_eq s.value x.value) (y ∷ hs))) [
      | inl e ↦ rw e (hits-IsAgreed sig cs x (y ∷ hs) axis q h e _ refl refl, k)
      | inr e ↦ rw e k
    ]

derive_on-IsAgreed :
    (names : List String) (sig : Signals) (cs : List Compiled)
    → All IsSound cs
    → All (IsAgreed sig cs) (derive_on names sig cs)
unfolding derive_on
derive_on-IsAgreed [] sig cs h = tt
derive_on-IsAgreed (axis ∷ rest) sig cs h =
    agreed-IsAgreed axis sig cs (hits_on axis sig cs) (derive_on rest sig cs) refl
      (hits_on-IsHit axis sig cs h) (derive_on-IsAgreed rest sig cs h)

-- Every label that a loaded engine suggests is a stated value of its axis's vocabulary, rests on at
-- least one rule that matched, and is the value of every rule of that axis that matched.
pub derive-IsAgreed :
    (compile : String → Option (String → Bool)) (rs : List Rule) (cs : List Compiled)
    (sig : Signals)
    → new_engine compile 1 rs ≡ engine cs
    → All (IsAgreed sig cs) (derive sig cs)
unfolding derive
derive-IsAgreed compile rs cs sig h =
    derive_on-IsAgreed axis_names sig cs (new_engine-IsSound compile 1 rs cs h)
