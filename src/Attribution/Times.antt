-- ===== src/Attribution/Times.antt =====
-- Which times internal/attribution/landing.go judges a commit by.
use assaio.Prelude.{
  ℕ, ◌+◌, ◌≡◌, refl, ◌⊎◌, inl, inr, true, false, Option, none, some, List, [], ◌∷◌, Memᴰ, ltb, ◌==◌,
  ◌||◌, not, arith, All, Bool-cases, All-own, none≢some, some_injective, sym, ap, ◌≢◌, ◌&&◌, Bool,
  if◌then◌else◌,
}
use assaio.Event.{Event}
use assaio.Attribution.{Session, Relation, default_max_gap}
use assaio.Attribution.Landing.{
  Evidence, evidence_of, relate, relate_times, relate_following, first_inside, earlier,
  earliest_following, authored, payload_of,
}
use assaio.Prelude.Int.{pos, ltb_ℤ}

first_inside-mem : (s : Session) (ts : List ℕ) (t : ℕ) → first_inside s ts ≡ some t → Memᴰ t ts
unfolding first_inside
first_inside-mem s [] t h = absurd (none≢some h)
first_inside-mem s (x ∷ ts) t h =
    elim (Bool-cases (not (ltb x s.started_at) && not (ltb s.ended_at x))) [
      | inl p ↦ Memᴰ.head (sym (some_injective (rw p at h)))
      | inr p ↦ Memᴰ.tail (first_inside-mem s ts t (rw p at h))
    ]

module _ (P : ℕ → Type 0) (s : Session) where
  earlier_holds : (j t : ℕ) → (j ≡ 0) ⊎ P j → P t → (earlier s j t ≡ 0) ⊎ P (earlier s j t)
  earlier_holds j t h k =
      elim (Bool-cases (ltb t s.started_at || ltb (s.ended_at + default_max_gap) t)) [
        | inl p ↦ rw p h
        | inr p ↦ elim (Bool-cases (j == 0 || ltb t j)) [
          | inl q ↦ rw (p, q) (inr k)
          | inr q ↦ rw (p, q) h
        ]
      ]

  earliest_following_holds :
      (j : ℕ) (ts : List ℕ)
      → (j ≡ 0) ⊎ P j
      → All P ts
      → (earliest_following s j ts ≡ 0) ⊎ P (earliest_following s j ts)
  unfolding earliest_following
  earliest_following_holds j [] h k = h
  earliest_following_holds j (t ∷ ts) h k =
      earliest_following_holds (earlier s j t) ts (earlier_holds j t h k.0) k.1

relate_following_time :
    (ev : Evidence) (j : ℕ) (r : Relation × ℕ)
    → relate_following ev j ≡ some r
    → (r.1 ≡ j) × (j ≢ 0)
unfolding relate_following
relate_following_time ev j r h = ground arith

relate_times_mem :
    (ev : Evidence) (s : Session) (o : Option ℕ) (r : Relation × ℕ)
    → ((t : ℕ) → o ≡ some t → Memᴰ t ev.times)
    → relate_times ev s o ≡ some r
    → Memᴰ r.1 ev.times
unfolding relate_times
relate_times_mem ev s none r h e =
    let (same, stated) = relate_following_time ev _ r e in
    elim (earliest_following_holds (λ t. Memᴰ t ev.times) s 0 ev.times (inl refl)
      (All-own ev.times)) [ inl z ↦ absurd (stated z) | inr m ↦ rw same m ]
relate_times_mem ev s (some t) r h e =
    rw (← ap (λ (x : Relation × ℕ). x.1) (some_injective e)) (h t refl)

unlanded_mem :
    (b : Bool) (s : Session) (ts : List ℕ) (t : ℕ)
    → (if b then none else first_inside s ts) ≡ some t
    → Memᴰ t ts
unlanded_mem true s ts t h = absurd (none≢some h)
unlanded_mem false s ts t h = first_inside-mem s ts t h

pub relate_mem :
    (ev : Evidence) (s : Session) (r : Relation × ℕ) → relate ev s ≡ some r → Memᴰ r.1 ev.times
unfolding relate
relate_mem ev s r e = relate_times_mem ev s _ r (unlanded_mem ev.landed s ev.times) e

-- The times of a commit's evidence are its committer time or the author time that it states.
abbrev pub OwnTime : Event → ℕ → Type 0
OwnTime e t = (t ≡ e.occurred_at) ⊎ (t ≡ (payload_of e).authored_at)

authored_own : (e : Event) → OwnTime e (authored e)
authored_own e = elim (Bool-cases ((payload_of e).authored_at == 0)) [
  | inl p ↦ rw p (inl refl)
  | inr p ↦ rw p (inr refl)
]

pub evidence_own : (e : Event) → All (OwnTime e) (evidence_of e).times
unfolding evidence_of
evidence_own e = elim (Bool-cases (payload_of e).committed_by_forge) [
  | inl f ↦ elim (Bool-cases (ltb_ℤ (pos 1) (payload_of e).parents)) [
    | inl m ↦ rw (f, m) tt
    | inr m ↦ elim (Bool-cases (not (ltb (authored e) e.occurred_at))) [
      | inl a ↦ rw (f, m, a) (inl refl, tt)
      | inr a ↦ rw (f, m, a) (authored_own e, tt)
    ]
  ]
  | inr f ↦ elim (Bool-cases (authored e == e.occurred_at)) [
    | inl a ↦ rw (f, a) (inl refl, tt)
    | inr a ↦ rw (f, a) (authored_own e, (inl refl, tt))
  ]
]
