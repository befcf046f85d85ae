-- ===== src/Venue/Voiding/Again.antt =====
-- A voiding that is applied again, and one that a crash interrupted.
use agentic_freight_venue.Common.{
  ℕ, ◌≡◌, refl, sym, ap, ◌∙◌, ◌≢◌, some, string_eq, lookup, insert, insert_same, lookup-insert_self,
}
use agentic_freight_venue.Venue.State.{CommitmentRecord, VoidJournal, Venue}
use agentic_freight_venue.Venue.Voiding.{
  released_for, marked_void, outcome_noted, told_void, void_applied, apply_void,
}
use agentic_freight_venue.Venue.Voiding.Steps.{
  AreIdentified, without_twice, released_again, books_released, books_again, marked_again,
  noted_again, told_again, same_parts,
}

applied_again :
    (j : VoidJournal) (now later : ℕ) (v : Venue) (c : CommitmentRecord)
    → j.commitment_id ≢ ""
    → c.broker_agent_id ≢ c.carrier_agent_id
    → AreIdentified v.underwriting
    → void_applied j later (marked_void j c) (void_applied j now c v) ≡ void_applied j now c v
unfolding void_applied
applied_again j now later v c named apart ids =
    let parts = same_parts j c in
    rw
      (
        noted_again j c (outcome_noted j c v.tasks),
        told_again j c (told_void j c v.outbox),
        marked_again j c,
        parts.0,
        parts.1,
        parts.2,
        parts.3,
        parts.4,
        parts.5,
        parts.6,
        released_again c.guarantee_id j now later v.underwriting ids,
        books_again j c v.exposures named apart,
        insert_same j.commitment_id (marked_void j c)
            (insert j.commitment_id (marked_void j c) v.commitments)
            (lookup-insert_self j.commitment_id (marked_void j c) v.commitments),
        without_twice j.commitment_id v.journals,
      )
      refl

-- The same over a snapshot whose journal is still there.
pub snapshot_again :
    (j : VoidJournal) (now later : ℕ) (v : Venue) (c : CommitmentRecord)
    → j.commitment_id ≢ ""
    → c.broker_agent_id ≢ c.carrier_agent_id
    → AreIdentified v.underwriting
    → void_applied j later (marked_void j c) (record v {
      underwriting = released_for c.guarantee_id j now v.underwriting;
      exposures = books_released j c v.exposures;
      commitments = insert j.commitment_id (marked_void j c) v.commitments;
      tasks = outcome_noted j c v.tasks;
      outbox = told_void j c v.outbox;
    })
      ≡ void_applied j now c v
unfolding void_applied
snapshot_again j now later v c named apart ids =
    let parts = same_parts j c in
    rw
      (
        noted_again j c (outcome_noted j c v.tasks),
        told_again j c (told_void j c v.outbox),
        marked_again j c,
        parts.0,
        parts.1,
        parts.2,
        parts.3,
        parts.4,
        parts.5,
        parts.6,
        released_again c.guarantee_id j now later v.underwriting ids,
        books_again j c v.exposures named apart,
        insert_same j.commitment_id (marked_void j c)
            (insert j.commitment_id (marked_void j c) v.commitments)
            (lookup-insert_self j.commitment_id (marked_void j c) v.commitments),
      )
      refl

refound :
    (j : VoidJournal) (now : ℕ) (v : Venue) (c : CommitmentRecord)
    → lookup j.commitment_id (void_applied j now c v).commitments ≡ some (marked_void j c)
unfolding void_applied
refound j now v c = lookup-insert_self j.commitment_id (marked_void j c) v.commitments

-- A voiding that is applied to a commitment on file a second time, at any later time, changes nothing
-- more: the guarantee, both parties' exposures, the commitment and the journals stay as the first
-- application left them. This is what lets a restart finish a voiding without asking how far it got.
pub apply_void_again :
    (j : VoidJournal) (now later : ℕ) (v : Venue) (c : CommitmentRecord)
    → lookup j.commitment_id v.commitments ≡ some c
    → j.commitment_id ≢ ""
    → c.broker_agent_id ≢ c.carrier_agent_id
    → AreIdentified v.underwriting
    → apply_void j later (apply_void j now v) ≡ apply_void j now v
unfolding apply_void
apply_void_again j now later v c found named apart ids =
    let first : apply_void j now v ≡ void_applied j now c v = rw (found, apply_void) refl in
    let second : apply_void j later (void_applied j now c v)
        ≡ void_applied j later (marked_void j c) (void_applied j now c v) =
      rw (refound j now v c, apply_void) refl in
    ap (apply_void j later) first
    ∙ second
    ∙ applied_again j now later v c named apart ids
    ∙ sym first
