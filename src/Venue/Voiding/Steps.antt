-- ===== src/Venue/Voiding/Steps.antt =====
-- The steps of `applyVoid` of src/venue/service.ts when they are taken again.
use agentic_freight_venue.Common.{
  ℕ, ◌≡◌, refl, sym, ap, subst, ◌∙◌, ◌≢◌, true, Option, none, some, List, [], ◌∷◌, String,
  string_eq, ◌==◌, Keyed, lookup, insert, insert_same, lookup-insert_self, lookup-insert_ne, inl,
  inr, Option-cases, Bool-cases, arith,
}
use agentic_freight_venue.Mandate.Exposure.{ExposureBook, release as release_book}
use agentic_freight_venue.Mandate.Exposure.Once.{release_twice}
use agentic_freight_venue.Underwriting.Claims.{GuaranteeRecord, released, is_released}
use agentic_freight_venue.Underwriting.Engine.{Underwriting, release, release_open}
use agentic_freight_venue.Venue.Task.{NegotiationTask, PendingNotice}
use agentic_freight_venue.Venue.State.{CommitmentRecord, VoidJournal}
use agentic_freight_venue.Venue.Voiding.{
  without, is_voided, released_for, book_released, marked_void, outcome_noted, told_void,
}

-- Every guarantee is filed under its own identifier.
abbrev pub AreIdentified : Underwriting → Type 0
AreIdentified u =
    (k : String) (g : GuaranteeRecord) → lookup k u.guarantees ≡ some g → g.guarantee_id ≡ k

pub without_twice {ℓ} :
    {V : Type ℓ} (key : String) (rows : Keyed V) → without key (without key rows) ≡ without key rows
without_twice key [] = refl
without_twice key ((at, value) ∷ rows) = elim (Bool-cases (at == key)) [
  | inl here ↦ rw (here, without_twice key rows) refl
  | inr past ↦ rw (past, past, without_twice key rows) refl
]

release-released :
    (k reason : String) (now : ℕ) (u : Underwriting) (g : GuaranteeRecord)
    → lookup k u.guarantees ≡ some g
    → is_released g.status ≡ true
    → release k reason now u ≡ u
unfolding release
release-released k reason now u g found shut = rw (found, release, shut) refl

shut_found :
    (k r : String) (now : ℕ) (u : Underwriting) (g : GuaranteeRecord)
    → g.guarantee_id ≡ k
    → lookup k (release_open g r now u).guarantees
      ≡ some (record g { status = released; released_at = some now; release_reason = some r })
unfolding release_open
shut_found k r now u g e =
    let g' : GuaranteeRecord = record g {
      status = released;
      released_at = some now;
      release_reason = some r;
    } in
    subst (λ i. lookup i (insert g.guarantee_id g' u.guarantees) ≡ some g') e
      (lookup-insert_self g.guarantee_id g' u.guarantees)

release_again :
    (k r s : String) (now later : ℕ) (u : Underwriting)
    → AreIdentified u
    → release k s later (release k r now u) ≡ release k r now u
unfolding release
release_again k r s now later u ids = elim (Option-cases (lookup k u.guarantees)) [
  | inl unknown ↦
      let first : release k r now u ≡ u = rw (unknown, release) refl in
      ap (release k s later) first ∙ rw (unknown, release) refl
  | inr (g, found) ↦ elim (Bool-cases (is_released g.status)) [
    | inl shut ↦
        let first = release-released k r now u g found shut in
        ap (release k s later) first ∙ release-released k s later u g found shut ∙ sym first
    | inr live ↦
        let first : release k r now u ≡ release_open g r now u = rw (found, release, live) refl in
        ap (release k s later) first
        ∙ release-released k s later (release_open g r now u) _
            (shut_found k r now u g (ids k g found)) refl
        ∙ sym first
  ]
]

pub released_again :
    (g : Option String) (j : VoidJournal) (now later : ℕ) (u : Underwriting)
    → AreIdentified u
    → released_for g j later (released_for g j now u) ≡ released_for g j now u
released_again none j now later u ids = refl
released_again (some g) j now later u ids = release_again g _ _ now later u ids

book_again :
    (agent usdot : String) (rate : ℕ) (day id : String) (b : ExposureBook)
    (books : Keyed ExposureBook)
    → id ≢ ""
    → lookup agent books ≡ some (release_book usdot rate day (some id) b)
    → book_released agent usdot rate day id books ≡ books
book_again agent usdot rate day id b books named found =
    rw (found, release_twice id usdot usdot day day rate rate b named)
      (insert_same agent _ books found)

abbrev pub broker_released :
    VoidJournal → CommitmentRecord → Keyed ExposureBook → Keyed ExposureBook
broker_released j c books =
    book_released c.broker_agent_id c.carrier_usdot c.rate c.pickup_day j.commitment_id books

-- The broker's book releases a commitment once.
pub broker_again :
    (j : VoidJournal) (c : CommitmentRecord) (books : Keyed ExposureBook)
    → j.commitment_id ≢ ""
    → broker_released j c (broker_released j c books) ≡ broker_released j c books
broker_again j c books named =
    book_again c.broker_agent_id c.carrier_usdot c.rate c.pickup_day j.commitment_id _
      (broker_released j c books) named (lookup-insert_self c.broker_agent_id _ books)

abbrev pub books_released : VoidJournal → CommitmentRecord → Keyed ExposureBook → Keyed ExposureBook
books_released j c books =
    book_released c.carrier_agent_id c.broker_usdot c.rate c.pickup_day j.commitment_id
      (book_released c.broker_agent_id c.carrier_usdot c.rate c.pickup_day j.commitment_id books)

pub books_again :
    (j : VoidJournal) (c : CommitmentRecord) (books : Keyed ExposureBook)
    → j.commitment_id ≢ ""
    → c.broker_agent_id ≢ c.carrier_agent_id
    → books_released j c (books_released j c books) ≡ books_released j c books
books_again j c books named apart =
    let id = j.commitment_id in
    let brokered = book_released c.broker_agent_id c.carrier_usdot c.rate c.pickup_day id books in
    let broker_first =
      book_again c.broker_agent_id c.carrier_usdot c.rate c.pickup_day id _
        (books_released j c books) named
        (lookup-insert_ne c.carrier_agent_id c.broker_agent_id _ brokered (λ e. apart (sym e))
          ∙ lookup-insert_self c.broker_agent_id _ books) in
    ap (λ m. book_released c.carrier_agent_id c.broker_usdot c.rate c.pickup_day id m) broker_first
    ∙ book_again c.carrier_agent_id c.broker_usdot c.rate c.pickup_day id _
        (books_released j c books) named (lookup-insert_self c.carrier_agent_id _ brokered)

pub marked_again :
    (j : VoidJournal) (c : CommitmentRecord) → marked_void j (marked_void j c) ≡ marked_void j c
marked_again j c = elim (Bool-cases (is_voided c.status)) [
  | inl old ↦ rw (old, marked_void, old) refl
  | inr new ↦ rw (new, marked_void) refl
]

pub noted_again :
    (j : VoidJournal) (c : CommitmentRecord) (tasks : Keyed NegotiationTask)
    → outcome_noted j (marked_void j c) tasks ≡ tasks
noted_again j c tasks = elim (Bool-cases (is_voided c.status)) [
  | inl old ↦ rw (old, marked_void, old) refl
  | inr new ↦ rw (new, marked_void) refl
]

pub told_again :
    (j : VoidJournal) (c : CommitmentRecord) (outbox : List PendingNotice)
    → told_void j (marked_void j c) outbox ≡ outbox
told_again j c outbox = elim (Bool-cases (is_voided c.status)) [
  | inl old ↦ rw (old, marked_void, old) refl
  | inr new ↦ rw (new, marked_void) refl
]

pub same_parts :
    (j : VoidJournal) (c : CommitmentRecord)
    → let c' = marked_void j c in
      (c'.guarantee_id ≡ c.guarantee_id)
      × (c'.carrier_agent_id ≡ c.carrier_agent_id)
      × (c'.broker_usdot ≡ c.broker_usdot)
      × (c'.rate ≡ c.rate)
      × (c'.pickup_day ≡ c.pickup_day)
      × (c'.broker_agent_id ≡ c.broker_agent_id)
      × (c'.carrier_usdot ≡ c.carrier_usdot)
same_parts j c = ground arith
