-- ===== src/Venue/Commit/Steps.antt =====
-- The steps of `applyCommit` of src/venue/service.ts when they are taken again.
use mathlib.Core.Option
use agentic_freight_venue.Common.{
  ℕ, ◌≡◌, refl, sym, ap, ◌∙◌, ◌≢◌, Bool, true, none, some, [], ◌∷◌, String, string_eq, ◌==◌,
  ==_refl, Keyed, lookup, insert, insert_same, lookup-insert_self, lookup-insert_ne, values, find,
  arith, inl, inr, Bool-cases, Option-cases,
}
use agentic_freight_venue.Mandate.Exposure.{ExposureBook, add}
use agentic_freight_venue.Mandate.Exposure.Once.{add_twice}
use agentic_freight_venue.Underwriting.Claims.{GuaranteeRecord}
use agentic_freight_venue.Underwriting.Engine.{
  Underwriting, QuotedGuarantee, attached_record, attach_new, attach, guarantee_for_commitment,
}
use agentic_freight_venue.Venue.Task.{CommitJournal}
use agentic_freight_venue.Venue.Commit.{pickup_day, attached_for, book_added}

found-insert :
    (p : GuaranteeRecord → Bool) (key : String) (g : GuaranteeRecord) (rows : Keyed GuaranteeRecord)
    → p g ≡ true
    → (h : GuaranteeRecord) × (find p (values (insert key g rows)) ≡ some h)
unfolding insert
found-insert p key g [] e = (g, rw e refl)
found-insert p key g ((at, old) ∷ rows) e =
    let rest = found-insert p key g rows e in
    elim (Bool-cases (at == key)) [
      | inl here ↦ (g, rw (here, e) refl)
      | inr past ↦ elim (Bool-cases (p old)) [
        | inl first ↦ (old, rw (past, first) refl)
        | inr later ↦ (rest.0, rw (past, later) rest.1)
      ]
    ]

pub attach_known :
    (q : QuotedGuarantee) (id : String) (now : ℕ) (u : Underwriting) (g : GuaranteeRecord)
    → guarantee_for_commitment id u ≡ some g
    → (attach q id now u).1 ≡ u
unfolding attach
attach_known q id now u g found = rw (found, attach) refl

attach_new-found :
    (q : QuotedGuarantee) (id : String) (now : ℕ) (u : Underwriting)
    → (h : GuaranteeRecord) × (guarantee_for_commitment id
          (attach_new (attached_record q id now) now u)
        ≡ some h)
unfolding attach_new guarantee_for_commitment
attach_new-found q id now u =
    found-insert (λ g. g.commitment_id == id) q.guarantee_id (attached_record q id now) u.guarantees
      (==_refl id)

-- The guarantee of a commitment is attached once.
pub attach_again :
    (q : QuotedGuarantee) (id : String) (now later : ℕ) (u : Underwriting)
    → (attach q id later (attach q id now u).1).1 ≡ (attach q id now u).1
attach_again q id now later u = elim (Option-cases (guarantee_for_commitment id u)) [
  | inl none_yet ↦
      let first : (attach q id now u).1 ≡ attach_new (attached_record q id now) now u =
        unfold attach in rw (none_yet, attach) refl in
      let found = attach_new-found q id now u in
      ap (λ s. (attach q id later s).1) first
      ∙ attach_known q id later (attach_new (attached_record q id now) now u) found.0 found.1
      ∙ sym first
  | inr (g, found) ↦
      let first = attach_known q id now u g found in
      ap (λ s. (attach q id later s).1) first ∙ attach_known q id later u g found ∙ sym first
]

pub attached_again :
    (q : Option.Option QuotedGuarantee) (id : String) (now later : ℕ) (u : Underwriting)
    → (attached_for q id later (attached_for q id now u).1).1 ≡ (attached_for q id now u).1
attached_again none id now later u = refl
attached_again (some q) id now later u = attach_again q id now later u

book_again :
    (agent usdot : String) (rate : ℕ) (day id : String) (b : ExposureBook)
    (books : Keyed ExposureBook)
    → id ≢ ""
    → lookup agent books ≡ some (add usdot rate day (some id) b)
    → book_added agent usdot rate day id books ≡ books
book_again agent usdot rate day id b books named found =
    rw (found, add_twice id usdot usdot day day rate rate b named) (insert_same agent _ books found)

abbrev pub broker_added : CommitJournal → Keyed ExposureBook → Keyed ExposureBook
broker_added j books =
    book_added j.terms.broker_agent_id j.terms.carrier_entity.usdot j.terms.rate
      (pickup_day j.terms) j.commitment_id books

abbrev pub both_added : CommitJournal → String → Keyed ExposureBook → Keyed ExposureBook
both_added j day books =
    book_added j.terms.carrier_agent_id j.terms.broker_entity.usdot j.terms.rate day j.commitment_id
      (book_added j.terms.broker_agent_id j.terms.carrier_entity.usdot j.terms.rate day
        j.commitment_id books)

-- Both parties' books count a commitment once.
pub books_again :
    (j : CommitJournal) (day : String) (books : Keyed ExposureBook)
    → j.commitment_id ≢ ""
    → j.terms.broker_agent_id ≢ j.terms.carrier_agent_id
    → both_added j day (both_added j day books) ≡ both_added j day books
books_again j day books named apart =
    let b = j.terms.broker_agent_id in
    let k = j.terms.carrier_agent_id in
    let brokered =
      book_added b j.terms.carrier_entity.usdot j.terms.rate day j.commitment_id books in
    let broker_first =
      book_again b j.terms.carrier_entity.usdot j.terms.rate day j.commitment_id _
        (both_added j day books) named
        (lookup-insert_ne k b _ brokered (λ e. apart (sym e)) ∙ lookup-insert_self b _ books) in
    ap (λ m. book_added k j.terms.broker_entity.usdot j.terms.rate day j.commitment_id m)
      broker_first
    ∙ book_again k j.terms.broker_entity.usdot j.terms.rate day j.commitment_id _
        (both_added j day books) named (lookup-insert_self k _ brokered)

-- A guarantee that was just attached is the one that is found.
only-inserted :
    (p : GuaranteeRecord → Bool) (key : String) (g : GuaranteeRecord) (rows : Keyed GuaranteeRecord)
    → p g ≡ true
    → find p (values rows) ≡ none
    → find p (values (insert key g rows)) ≡ some g
unfolding insert
only-inserted p key g [] e new = rw e refl
only-inserted p key g ((at, old) ∷ rows) e new = elim (Bool-cases (at == key)) [
  | inl here ↦ rw (here, e) refl
  | inr past ↦ elim (Bool-cases (p old)) [
    | inl first ↦ ground arith
    | inr later ↦ rw (past, later) (only-inserted p key g rows e (ground arith))
  ]
]

attach-found :
    (q : QuotedGuarantee) (id : String) (now : ℕ) (u : Underwriting)
    → guarantee_for_commitment id (attach q id now u).1 ≡ some ((attach q id now u).0)
attach-found q id now u = elim (Option-cases (guarantee_for_commitment id u)) [
  | inl none_yet ↦
      let first : attach q id now u
          ≡ (attached_record q id now, attach_new (attached_record q id now) now u) =
        unfold attach in rw (none_yet, attach) refl in
      rw first (
        unfold attach_new guarantee_for_commitment in
        only-inserted (λ g. g.commitment_id == id) q.guarantee_id (attached_record q id now)
          u.guarantees (==_refl id) (unfold guarantee_for_commitment in none_yet))
  | inr (g, found) ↦
      let first : attach q id now u ≡ (g, u) = unfold attach in rw (found, attach) refl in
      rw first found
]

-- Attaching again finds the guarantee that the first attachment left, and changes nothing.
pub attached_same :
    (q : Option.Option QuotedGuarantee) (id : String) (now later : ℕ) (u : Underwriting)
    → attached_for q id later (attached_for q id now u).1 ≡ attached_for q id now u
attached_same none id now later u = refl
attached_same (some q) id now later u =
    let found = attach-found q id now u in
    let again : attach q id later (attach q id now u).1 ≡ attach q id now u =
      unfold attach in rw (found, attach) refl in
    ap (λ p. (some (p.0).guarantee_id, p.1)) again

-- The broker's book counts a commitment once.
pub broker_again :
    (j : CommitJournal) (books : Keyed ExposureBook)
    → j.commitment_id ≢ ""
    → broker_added j (broker_added j books) ≡ broker_added j books
broker_again j books named =
    book_again j.terms.broker_agent_id j.terms.carrier_entity.usdot j.terms.rate
      (pickup_day j.terms) j.commitment_id _ (broker_added j books) named
      (lookup-insert_self j.terms.broker_agent_id _ books)
