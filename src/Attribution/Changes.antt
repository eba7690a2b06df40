-- ===== src/Attribution/Changes.antt =====
-- internal/attribution/changes.go: which pull requests hold a result's candidates. A Go map from a
-- hash to its links is one list of (hash, link) pairs in the order of insertion.
use assaio.Prelude.{
  ℕ, String, Bool, true, false, ◌&&◌, ◌||◌, not, Option, none, some, List, [], ◌∷◌, ◌++◌, map,
  any_of, filter_if, sort_by, ltb, str_eq, if◌then◌else◌,
}
use assaio.Prelude.Int.{ℤ, pos, ltb_ℤ, eq_ℤ, ◌-ℤ◌, wrap64}
use assaio.Event.{Event}
use assaio.Event.Payloads.{PullRequest, PullRequestCommit, pull_request, pull_request_commit}
use assaio.Attribution.{
  Candidate, Result, Reason, ChangeLink, Via, listed, merged_as, no_candidate, listed_unreadable,
}
use assaio.Attribution.Landing.{evidence_of}

-- The fields of attribution.PullRequests that linking reads.
pub record PullRequests : Type 0 where
  pub requests : List Event
  pub listings : List Event
  pub lines : List (String × List String)
  pub not_local : List String
  pub unreadable : List String

unfoldable pub as_request : Event → Option PullRequest
as_request e = elim e.payload [
  | none ↦ none
  | some p ↦ elim p [ pull_request r ↦ some r | _ ↦ none ]
]

unfoldable pub as_listing : Event → Option PullRequestCommit
as_listing e = elim e.payload [
  | none ↦ none
  | some p ↦ elim p [ pull_request_commit r ↦ some r | _ ↦ none ]
]

-- attribution.changeIndex
pub record ChangeIndex : Type 0 where
  pub links : List (String × ChangeLink)
  pub unreadable_times : List ℕ

abbrev pub eq_via : Via → Via → Bool
eq_via listed listed = true
eq_via merged_as merged_as = true
eq_via _ _ = false

-- The test of changeIndex.add's loop.
abbrev pub same_link : String → ChangeLink → String × ChangeLink → Bool
same_link hash link entry =
    str_eq entry.0 hash && (eq_ℤ entry.1.number link.number && eq_via entry.1.via link.via)

-- changeIndex.add
unfoldable pub add_link :
    String → ChangeLink → List (String × ChangeLink) → List (String × ChangeLink)
add_link hash link links =
    if any_of (same_link hash link) links then links else links ++ (hash, link) ∷ []

-- linkFrom
unfoldable pub link_from : ℤ → Via → Event → ChangeLink
link_from number via e = record {
  number = number;
  via = via;
  source = e.source;
  time_source = e.time_source;
  provenance = e.provenance;
  privacy = e.privacy;
}

-- byID: the last commit with the hash.
unfoldable pub by_id : String → List Event → Option Event
by_id hash [] = none
by_id hash (e ∷ es) = elim (by_id hash es) [
  | some x ↦ some x
  | none ↦ if str_eq e.id hash then some e else none
]

unfoldable pub lines_of : String → List (String × List String) → List String
lines_of hash [] = []
lines_of hash ((h, l) ∷ rest) = if str_eq h hash then l else lines_of hash rest

-- merges: whether some pull request's merge commit is the hash.
abbrev pub is_merge_of : String → Event → Bool
is_merge_of hash e = elim (as_request e) [
  | none ↦ false
  | some pr ↦ not (str_eq pr.merge_commit "") && str_eq pr.merge_commit hash
]

abbrev pub replayed : Option Event → Bool
replayed o = elim o [ none ↦ false | some e ↦ (evidence_of e).rebased ]

-- The loop of mergeWrote; `first` is k = 0.
unfoldable pub walk_line : Bool → List Event → List Event → List String → List String
walk_line first commits requests [] = []
walk_line first commits requests (hash ∷ rest) =
    elim (not (replayed (by_id hash commits)) || not first && any_of (is_merge_of hash) requests) [
      | true ↦ []
      | false ↦
          if first
          then walk_line false commits requests rest
          else hash ∷ walk_line false commits requests rest
    ]

-- mergeWrote
unfoldable pub merge_wrote : PullRequests → PullRequest → List Event → List String
merge_wrote prs pr commits =
    if str_eq pr.merge_commit ""
    then []
    else pr.merge_commit ∷ walk_line true commits prs.requests (lines_of pr.merge_commit prs.lines)

unfoldable pub add_all :
    ChangeLink → List String → List (String × ChangeLink) → List (String × ChangeLink)
add_all link [] links = links
add_all link (hash ∷ rest) links = add_all link rest (add_link hash link links)

-- The second loop of index.
unfoldable pub index_requests :
    PullRequests → List Event → List Event → List (String × ChangeLink) → List (String × ChangeLink)
index_requests prs commits [] links = links
index_requests prs commits (e ∷ es) links = index_requests prs commits es (elim (as_request e) [
  | none ↦ links
  | some pr ↦ add_all (link_from pr.number merged_as e) (merge_wrote prs pr commits) links
])

abbrev pub numbered : ℤ → Event → Bool
numbered n e = elim (as_request e) [ none ↦ false | some pr ↦ eq_ℤ pr.number n ]

-- updated: the time of the last request with the number, the zero time without one.
unfoldable pub updated : ℤ → List Event → ℕ
updated n [] = 0
updated n (e ∷ es) =
    let later = updated n es in
    if any_of (numbered n) es then later else if numbered n e then e.occurred_at else 0

-- The test of cannotRead.
abbrev pub cannot_read : PullRequests → String → Bool
cannot_read prs hash = any_of (λ h. str_eq h hash) (prs.not_local ++ prs.unreadable)

-- The body of index's loop over the listings, for an event that is one.
unfoldable pub index_listing : PullRequests → Event → PullRequestCommit → ChangeIndex → ChangeIndex
index_listing prs e pc idx = record {
  links = add_link pc.commit (link_from pc.number listed e) idx.links;
  unreadable_times =
      if cannot_read prs pc.commit
      then idx.unreadable_times ++ updated pc.number prs.requests ∷ []
      else idx.unreadable_times;
}

-- `if !ok { continue }`, and the body.
abbrev pub index_event : PullRequests → Event → Option PullRequestCommit → ChangeIndex → ChangeIndex
index_event prs e none idx = idx
index_event prs e (some pc) idx = index_listing prs e pc idx

-- The last loop of index that adds.
unfoldable pub index_listings : PullRequests → List Event → ChangeIndex → ChangeIndex
index_listings prs [] idx = idx
index_listings prs (e ∷ es) idx = index_listings prs es (index_event prs e (as_listing e) idx)

-- index; its sort is in links_of, which reads one hash.
unfoldable pub index : PullRequests → List Event → ChangeIndex
index prs commits =
    index_listings prs prs.listings
      (record { links = index_requests prs commits prs.requests []; unreadable_times = [] })

abbrev pub via_before : Via → Via → Bool
via_before listed merged_as = true
via_before _ _ = false

-- The order of index's SortFunc: a negative int64 difference, or the texts of the two vias.
abbrev pub link_before : ChangeLink → ChangeLink → Bool
link_before a b =
    if eq_ℤ a.number b.number
    then via_before a.via b.via
    else ltb_ℤ (wrap64 (a.number -ℤ b.number)) (pos 0)

-- linksOf, after the sort.
unfoldable pub links_of : String → ChangeIndex → List ChangeLink
links_of hash idx =
    sort_by link_before
      (map (λ (e : String × ChangeLink). e.1) (filter_if (λ e. str_eq e.0 hash) idx.links))

-- unreadableSince
abbrev pub unreadable_since : ℕ → ChangeIndex → Bool
unreadable_since start idx = any_of (λ t. not (ltb t start)) idx.unreadable_times

abbrev pub contains : List ℤ → ℤ → Bool
contains ns n = any_of (λ m. eq_ℤ m n) ns

-- The loop of changeNumbers.
unfoldable pub numbers_from : List ℤ → List ChangeLink → List ℤ
numbers_from out [] = out
numbers_from out (l ∷ ls) =
    numbers_from (if contains out l.number then out else out ++ l.number ∷ []) ls

-- changeNumbers; an absent list has no numbers.
unfoldable pub change_numbers : Option (List ChangeLink) → List ℤ
unfolding numbers_from
change_numbers none = []
change_numbers (some links) = numbers_from [] links

-- One later round of oneChange's loop; `none` is its early return of 0.
unfoldable pub narrow : List ℤ → List ℤ → Option (List ℤ)
narrow [] shared = none
narrow (n ∷ ns) shared = some (filter_if (contains (n ∷ ns)) shared)

-- The loop of oneChange after its first round.
unfoldable pub shared_from : List ℤ → List Candidate → Option (List ℤ)
shared_from shared [] = some shared
shared_from shared (c ∷ cs) = elim (narrow (change_numbers c.changes) shared) [
  | none ↦ none
  | some kept ↦ shared_from kept cs
]

-- The first round of oneChange's loop.
abbrev pub first_round : List ℤ → List Candidate → Option (List ℤ)
first_round [] cs = none
first_round (n ∷ ns) cs = shared_from (n ∷ ns) cs

-- The end of oneChange.
abbrev pub the_one : Option (List ℤ) → ℤ
the_one (some (n ∷ [])) = n
the_one _ = pos 0

-- oneChange
unfoldable pub one_change : List Candidate → ℤ
one_change [] = pos 0
one_change (c ∷ cs) = the_one (first_round (change_numbers c.changes) cs)

unfoldable pub link_candidate : ChangeIndex → Candidate → Candidate
link_candidate idx c = record c { changes = some (links_of c.commit_id idx) }

-- The reason that LinkChanges leaves.
unfoldable pub link_reason : ChangeIndex → Result → Reason
link_reason idx r = elim r.reason [
  | no_candidate ↦
      if unreadable_since r.session.started_at idx then listed_unreadable else no_candidate
  | other ↦ other
]

-- The body of LinkChanges's loop.
unfoldable pub link_result : ChangeIndex → Result → Result
link_result idx r = record r {
  candidates = map (link_candidate idx) r.candidates;
  alternatives = map (link_candidate idx) r.alternatives;
  change = one_change (map (link_candidate idx) r.candidates);
  reason = link_reason idx r;
}

-- LinkChanges
unfoldable pub link_changes : List Result → List Event → PullRequests → List Result
unfolding link_result
link_changes results commits prs = map (link_result (index prs commits)) results
