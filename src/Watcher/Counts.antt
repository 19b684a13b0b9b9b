-- ===== src/Watcher/Counts.antt =====
-- How many events a candidate counts.
use semantic_intelligence_la.Base.Times.{ℤ}
use semantic_intelligence_la.Base.Dict.{Dict, lookup, insert, lookup-insert, Each, insert-Each}
use semantic_intelligence_la.Contracts.Sessions
use semantic_intelligence_la.Watcher.Candidates.{
  Candidate, qualifies_for_repeated_disconnect, group, counted, first_candidate, group_events,
}
use mathlib.Core.Path.{subst}
use semantic_intelligence_la.Base.{
  if◌then◌else◌, Bool-cases, length, All, filter_by, Text, eq_text, trim_space, eq_text_iff, ℕ, ◌+◌,
  ◌≤◌, ◌≡◌, refl, sym, ap, ◌∙◌, inl, inr, Bool, false, ◌&&◌, Option, none, some, List, [], ◌∷◌,
  arith,
}

abbrev pub count_in : Option Candidate → ℕ
count_in none = 0
count_in (some c) = c.count

-- what the map of candidates counts for a subscriber
abbrev pub count_of : Text → Dict Candidate → ℕ
count_of subscriber grouped = count_in (lookup subscriber grouped)

abbrev is_of : ℤ → Text → Sessions.Event → Bool
is_of threshold subscriber event =
    qualifies_for_repeated_disconnect event threshold
    && eq_text (trim_space event.subscriber_id) subscriber

-- the number of the subscriber's events that qualify
abbrev pub occurrences : ℤ → Text → List Sessions.Event → ℕ
occurrences threshold subscriber events = length (filter_by (is_of threshold subscriber) events)

abbrev pub IsPlain : Sessions.Event → Type 0
IsPlain event = trim_space event.subscriber_id ≡ event.subscriber_id

abbrev one_if : Bool → ℕ
one_if b = if b then 1 else 0

insert-count_of :
    (s k : Text) (v : Candidate) (grouped : Dict Candidate)
    → v.count ≡ count_of s grouped + 1
    → count_of k (insert s v grouped) ≡ count_of k grouped + one_if (eq_text s k)
insert-count_of s k v grouped h = elim (Bool-cases (eq_text s k)) [
  | inl e ↦
      rw (lookup-insert s k v grouped, e)
        (subst (λ x. v.count ≡ count_of x grouped + 1) ((eq_text_iff s k).0 e) h)
  | inr e ↦ rw (lookup-insert s k v grouped, e) (omega arith)
]

group-count_of :
    (tenant : Text) (grouped : Dict Candidate) (event : Sessions.Event) (k : Text)
    → IsPlain event
    → (found : Option Candidate) → lookup (trim_space event.subscriber_id) grouped ≡ found
    → count_of k (group tenant grouped event found)
      ≡ count_of k grouped + one_if (eq_text (trim_space event.subscriber_id) k)
group-count_of tenant grouped event k plain none p =
    let s = trim_space event.subscriber_id in
    insert-count_of s k (first_candidate tenant s event) grouped (rw p (omega arith))
group-count_of tenant grouped event k plain (some c) p =
    let s = trim_space event.subscriber_id in
    subst
      (λ key.
        count_of k (insert key (counted c event) grouped)
        ≡ count_of k grouped + one_if (eq_text s k))
      plain (insert-count_of s k (counted c event) grouped (rw p (omega arith)))

group_events-count_of_from :
    (tenant : Text) (threshold : ℤ) (grouped : Dict Candidate) (events : List Sessions.Event)
    (k : Text)
    → All IsPlain events
    → count_of k (group_events tenant threshold grouped events)
      ≡ count_of k grouped + occurrences threshold k events
unfolding group_events filter_by
group_events-count_of_from tenant threshold grouped [] k all = omega arith
group_events-count_of_from tenant threshold grouped (event ∷ events) k (plain, all) =
    let added = group tenant grouped event (lookup (trim_space event.subscriber_id) grouped) in
    elim (Bool-cases (qualifies_for_repeated_disconnect event threshold)) [
      | inl e ↦ rw e (
          let rest = group_events-count_of_from tenant threshold added events k all in
          let one =
            group-count_of tenant grouped event k plain
              (lookup (trim_space event.subscriber_id) grouped) refl in
          ground (arith, rest, one))
      | inr e ↦ rw e (group_events-count_of_from tenant threshold grouped events k all)
    ]

-- If the subscriber ids of the events have no space around them, detectCandidates counts for each
-- subscriber exactly the subscriber's events that qualify.
pub group_events-count_of :
    (tenant : Text) (threshold : ℤ) (events : List Sessions.Event) (k : Text)
    → All IsPlain events
    → count_of k (group_events tenant threshold [] events) ≡ occurrences threshold k events
unfolding lookup filter_by
group_events-count_of tenant threshold events k all =
    group_events-count_of_from tenant threshold [] events k all ∙ omega arith

-- the subscriber's id in the event has space around it
abbrev pub IsPadded : Text → Sessions.Event → Type 0
IsPadded name event =
    (trim_space event.subscriber_id ≡ name) × (eq_text event.subscriber_id name ≡ false)

abbrev pub CountsTwo : Text → Candidate → Type 0
CountsTwo key c = c.count ≤ 2

abbrev IsStuck : Text → Dict Candidate → Type 0
IsStuck name grouped = (count_of name grouped ≤ 1) × Each CountsTwo grouped

group-IsStuck :
    (tenant name : Text) (grouped : Dict Candidate) (event : Sessions.Event)
    → IsPadded name event
    → IsStuck name grouped
    → (found : Option Candidate) → lookup name grouped ≡ found
    → IsStuck name (group tenant grouped event found)
group-IsStuck tenant name grouped event (same, apart) (once, all) none p =
    let s = trim_space event.subscriber_id in
    let v = first_candidate tenant s event in
    (
      ground (arith, lookup-insert s name v grouped, once),
      insert-Each CountsTwo s v grouped (omega arith) all,
    )
group-IsStuck tenant name grouped event (same, apart) (once, all) (some c) p =
    let v = counted c event in
    let few : c.count ≤ 1 = subst (λ found. count_in found ≤ 1) p once in
    (
      rw (lookup-insert event.subscriber_id name v grouped, apart) once,
      insert-Each CountsTwo event.subscriber_id v grouped (omega (arith, few)) all,
    )

group_events-IsStuck :
    (tenant name : Text) (threshold : ℤ) (grouped : Dict Candidate) (events : List Sessions.Event)
    → All (IsPadded name) events
    → IsStuck name grouped
    → IsStuck name (group_events tenant threshold grouped events)
unfolding group_events
group_events-IsStuck tenant name threshold grouped [] all stuck = stuck
group_events-IsStuck tenant name threshold grouped (event ∷ events) (padded, all) stuck =
    elim (Bool-cases (qualifies_for_repeated_disconnect event threshold)) [
      | inl e ↦ rw e (
          group_events-IsStuck tenant name threshold
            (group tenant grouped event (lookup (trim_space event.subscriber_id) grouped)) events
            all
            (group-IsStuck tenant name grouped event padded stuck
              (lookup (trim_space event.subscriber_id) grouped)
              (ap (λ k. lookup k grouped) (sym padded.0))))
      | inr e ↦ rw e (group_events-IsStuck tenant name threshold grouped events all stuck)
    ]

-- If all the events are of one subscriber and their subscriber ids have space around them,
-- detectCandidates counts at most two of them, however many qualify.
pub group_events-CountsTwo :
    (tenant name : Text) (threshold : ℤ) (events : List Sessions.Event)
    → All (IsPadded name) events
    → Each CountsTwo (group_events tenant threshold [] events)
unfolding lookup
group_events-CountsTwo tenant name threshold events all =
    (group_events-IsStuck tenant name threshold [] events all (omega arith, tt)).1
