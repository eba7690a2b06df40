-- ===== src/Attribution/Links.antt =====
-- What linking adds to a result, and what it leaves alone.
use assaio.Prelude.{
  String, ◌≡◌, refl, ap, ◌∙◌, sym, Bool, true, false, ◌&&◌, ◌||◌, Option, none, some, List, [], ◌∷◌,
  map, any_of, str_eq, eq_iff, arith, Bool-cases, inl, inr, Option-cases, any_of-append,
  any_of-filter_if, any_of-map, any_of-sort_by,
}
use assaio.Prelude.Int.{ℤ, eq_ℤ, eq_ℤ→eq}
use assaio.Event.{Event}
use assaio.Event.Payloads.{PullRequestCommit}
use assaio.Attribution.{
  Session, Status, Method, Confidence, Candidate, Result, ChangeLink, Via, listed, merged_as,
}
use assaio.Attribution.Changes.{
  PullRequests, ChangeIndex, same_link, eq_via, add_link, add_all, index_requests, index_listing,
  index_event, index_listings, index, as_listing, as_request, links_of, link_before, link_from,
  merge_wrote, link_candidate, link_result, link_changes,
}

-- What a result claims, without its links, its reason and its pull request.
pub record Verdict : Type 0 where
  pub session : Session
  pub status : Status
  pub method : Method
  pub confidence : Confidence
  pub ambiguous : Bool
  pub provenance : String
  pub chosen : List String
  pub others : List String

abbrev ids : List Candidate → List String
ids = map (λ (c : Candidate). c.commit_id)

abbrev pub verdict_of : Result → Verdict
verdict_of r = record {
  session = r.session;
  status = r.status;
  method = r.method;
  confidence = r.confidence;
  ambiguous = r.ambiguous;
  provenance = r.provenance;
  chosen = ids r.candidates;
  others = ids r.alternatives;
}

ids-link_candidate :
    (idx : ChangeIndex) (cs : List Candidate) → ids (map (link_candidate idx) cs) ≡ ids cs
unfolding link_candidate
ids-link_candidate idx [] = refl
ids-link_candidate idx (c ∷ cs) = ap (λ rest. c.commit_id ∷ rest) (ids-link_candidate idx cs)

verdict_of-link_result :
    (idx : ChangeIndex) (r : Result) → verdict_of (link_result idx r) ≡ verdict_of r
unfolding link_result
verdict_of-link_result idx r =
    cc (ids-link_candidate idx r.candidates, ids-link_candidate idx r.alternatives)

-- Linking pull requests leaves every result's session, status, method, confidence, ambiguity and
-- provenance, and the commits that it offers, as the matching decided them.
pub link_changes_keeps :
    (results : List Result) (commits : List Event) (prs : PullRequests)
    → map verdict_of (link_changes results commits prs) ≡ map verdict_of results
unfolding link_changes
link_changes_keeps [] commits prs = refl
link_changes_keeps (r ∷ rs) commits prs =
    cc (verdict_of-link_result (index prs commits) r, link_changes_keeps rs commits prs)

or_right : (a b : Bool) → b ≡ true → (a || b) ≡ true
or_right a b h = ground arith

or_false : (a : Bool) → (a || false) ≡ a
or_false a = ground arith

absorbed : (a b : Bool) → (b ≡ true → a ≡ true) → a ≡ (a || b)
absorbed true b h = refl
absorbed false true h = h refl
absorbed false false h = refl

other_way : (a b c d : Bool) → d ≡ false → (a || b && (c && d)) ≡ a
other_way a b c d h = ground arith

and_true : (b c : Bool) → (b && (c && true)) ≡ (b && c)
and_true b c = ground arith

or_assoc : (a b c : Bool) → ((a || b) || c) ≡ (a || (b || c))
or_assoc a b c = ground arith

-- The entry's hash, number and way.
abbrev is_key : String → ℤ → Via → String × ChangeLink → Bool
is_key hash n v entry = str_eq entry.0 hash && (eq_ℤ entry.1.number n && eq_via entry.1.via v)

eq_via→eq : (a b : Via) → eq_via a b ≡ true → a ≡ b
eq_via→eq listed listed h = refl
eq_via→eq listed merged_as h = cc
eq_via→eq merged_as listed h = cc
eq_via→eq merged_as merged_as h = refl

module _ (hash : String) (n : ℤ) (v : Via) where
  is_key_same :
      (h : String) (l : ChangeLink) (entry : String × ChangeLink)
      → same_link h l entry ≡ true
      → is_key hash n v entry ≡ is_key hash n v (h, l)
  is_key_same h l entry q =
      let texts : entry.0 ≡ h = (eq_iff entry.0 h).0 (ground arith) in
      let numbers : entry.1.number ≡ l.number = eq_ℤ→eq _ _ (ground arith) in
      let ways : entry.1.via ≡ l.via = eq_via→eq _ _ (ground arith) in cc (texts, numbers, ways)

  any_key_same :
      (h : String) (l : ChangeLink) (links : List (String × ChangeLink))
      → any_of (same_link h l) links ≡ true
      → is_key hash n v (h, l) ≡ true
      → any_of (is_key hash n v) links ≡ true
  any_key_same h l [] q k = cc
  any_key_same h l (e ∷ es) q k = elim (Bool-cases (same_link h l e)) [
    | inl same ↦ rw (is_key_same h l e same) (rw k refl)
    | inr other ↦ or_right (is_key hash n v e) _ (any_key_same h l es (rw other at q) k)
  ]

  any_key-add_link :
      (h : String) (l : ChangeLink) (links : List (String × ChangeLink))
      → any_of (is_key hash n v) (add_link h l links)
        ≡ (any_of (is_key hash n v) links || is_key hash n v (h, l))
  unfolding add_link
  any_key-add_link h l links = elim (Bool-cases (any_of (same_link h l) links)) [
    | inl old ↦ rw old (absorbed _ _ (any_key_same h l links old))
    | inr new ↦ rw new (
        any_of-append (is_key hash n v) links ((h, l) ∷ [])
        ∙ ap (λ b. any_of (is_key hash n v) links || b) (or_false _))
  ]

  -- Adding a pull request's own merge commits adds no listing.
  any_key-add_all :
      (l : ChangeLink) (hashes : List String) (links : List (String × ChangeLink))
      → eq_via l.via v ≡ false
      → any_of (is_key hash n v) (add_all l hashes links) ≡ any_of (is_key hash n v) links
  unfolding add_all
  any_key-add_all l [] links h = refl
  any_key-add_all l (x ∷ xs) links h =
      any_key-add_all l xs (add_link x l links) h
      ∙ any_key-add_link x l links
      ∙ other_way (any_of (is_key hash n v) links) (str_eq x hash) (eq_ℤ l.number n)
          (eq_via l.via v) h

-- Whether an event lists the hash in the pull request.
abbrev pub names : String → ℤ → Option PullRequestCommit → Bool
names hash n none = false
names hash n (some pc) = str_eq pc.commit hash && eq_ℤ pc.number n

abbrev pub lists : String → ℤ → Event → Bool
lists hash n e = names hash n (as_listing e)

module _ (hash : String) (n : ℤ) (prs : PullRequests) where
  any_key-index_requests :
      (commits es : List Event) (links : List (String × ChangeLink))
      → any_of (is_key hash n listed) (index_requests prs commits es links)
        ≡ any_of (is_key hash n listed) links
  unfolding index_requests link_from
  any_key-index_requests commits [] links = refl
  any_key-index_requests commits (e ∷ es) links = elim (Option-cases (as_request e)) [
    | inl q ↦ rw q (any_key-index_requests commits es links)
    | inr (pr, q) ↦ rw q (
        any_key-index_requests commits es _
        ∙ any_key-add_all hash n listed (link_from pr.number merged_as e)
            (merge_wrote prs pr commits) links refl)
  ]

  any_key-index_event :
      (e : Event) (o : Option PullRequestCommit) (idx : ChangeIndex)
      → any_of (is_key hash n listed) (index_event prs e o idx).links
        ≡ (any_of (is_key hash n listed) idx.links || names hash n o)
  unfolding index_listing link_from
  any_key-index_event e none idx = sym (or_false _)
  any_key-index_event e (some pc) idx =
      any_key-add_link hash n listed pc.commit (link_from pc.number listed e) idx.links
      ∙ ap (λ b. any_of (is_key hash n listed) idx.links || b)
          (and_true (str_eq pc.commit hash) (eq_ℤ pc.number n))

  any_key-index_listings :
      (es : List Event) (idx : ChangeIndex)
      → any_of (is_key hash n listed) (index_listings prs es idx).links
        ≡ (any_of (is_key hash n listed) idx.links || any_of (lists hash n) es)
  unfolding index_listings
  any_key-index_listings [] idx = sym (or_false _)
  any_key-index_listings (e ∷ es) idx =
      any_key-index_listings es (index_event prs e (as_listing e) idx)
      ∙ ap (λ b. b || any_of (lists hash n) es) (any_key-index_event e (as_listing e) idx)
      ∙ or_assoc (any_of (is_key hash n listed) idx.links) (lists hash n e) _

-- Whether a link is the pull request's own list naming the commit.
abbrev pub is_listing_of : ℤ → ChangeLink → Bool
is_listing_of n l = eq_ℤ l.number n && eq_via l.via listed

-- A commit is linked to a pull request as listed exactly when some listing observation of that
-- pull request names the commit: no listing is lost, whatever merges it was also part of, and none
-- is made up.
pub links_of_listed :
    (hash : String) (n : ℤ) (commits : List Event) (prs : PullRequests)
    → any_of (is_listing_of n) (links_of hash (index prs commits))
      ≡ any_of (lists hash n) prs.listings
unfolding links_of index
links_of_listed hash n commits prs =
    any_of-sort_by link_before (is_listing_of n) _
    ∙ any_of-map (is_listing_of n) (λ e. e.1) _
    ∙ any_of-filter_if (λ e. is_listing_of n e.1) (λ e. str_eq e.0 hash) _
    ∙ any_key-index_listings hash n prs prs.listings _
    ∙ ap (λ b. b || any_of (lists hash n) prs.listings)
        (any_key-index_requests hash n prs commits prs.requests [])
