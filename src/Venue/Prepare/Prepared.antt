-- ===== src/Venue/Prepare/Prepared.antt =====
-- What a prepared commit carries: the result of PREPARE in `commit` of src/venue/service.ts.
use agentic_freight_venue.Common.{◌≡◌, refl, String, ℕ, Option, ◌||◌, lookup}
use agentic_freight_venue.Protocol.Canonical.{Primitives}
use agentic_freight_venue.Protocol.Terms.{Terms, terms_hash}
use agentic_freight_venue.Venue.Task.{RegisteredAgent, NegotiationTask, CommitJournal}
use agentic_freight_venue.Protocol.Insurance.{InsurerAttestation}
use agentic_freight_venue.Underwriting.Engine.{QuotedGuarantee}
use agentic_freight_venue.Venue.State.{Venue}
use agentic_freight_venue.Venue.Standing.{Standing}
use agentic_freight_venue.Venue.Step.{go, present, Returns, value, >>=-Returns, Returns-go}
use agentic_freight_venue.Venue.Prepare.{
  journal_of, prepare, fresh_at_commit, reverified, insurer_kept, quote_for, guarantee_or_stop,
  requires_guarantee, as_broker, as_carrier,
}

module _ (date : String → ℕ) (x : Primitives) (w : Standing) (t : NegotiationTask) (terms : Terms)
    (v : Venue) where
  abbrev IsOfTask : CommitJournal → Type 0
  IsOfTask j = (j.task_id ≡ t.id) × (j.terms ≡ terms) × (j.terms_hash ≡ terms_hash x terms)

  journal-IsOfTask :
      (broker : RegisteredAgent) (on_file : Option InsurerAttestation)
      (guarantee : Option QuotedGuarantee)
      → IsOfTask (journal_of date x w t terms broker on_file guarantee)
  journal-IsOfTask broker on_file guarantee = (refl, refl, refl)

  prepare-IsOfTask : Returns IsOfTask (prepare date x w t terms v)
  unfolding prepare
  prepare-IsOfTask = >>=-Returns IsOfTask (present (lookup t.broker_agent_id v.agents)) _ λ broker.
      >>=-Returns IsOfTask (present (lookup t.carrier_agent_id v.agents)) _ λ carrier.
        >>=-Returns IsOfTask (present (lookup t.broker_agent_id t.acceptances)) _ λ first.
          >>=-Returns IsOfTask (present (lookup t.carrier_agent_id t.acceptances)) _ λ second.
            >>=-Returns IsOfTask (fresh_at_commit date x w terms) _ λ _.
              >>=-Returns IsOfTask (present (w.credential broker.credential_id)) _ λ broker_now.
                >>=-Returns IsOfTask (present (w.credential carrier.credential_id)) _ λ carrier_now.
                  >>=-Returns IsOfTask
                    (reverified date x w (as_broker date x t terms) broker broker_now) _
                    λ _.
                      >>=-Returns IsOfTask
                        (reverified date x w (as_carrier date x t terms broker) carrier carrier_now)
                        _
                        λ _. >>=-Returns IsOfTask (insurer_kept date x w broker carrier) _ λ _.
                          >>=-Returns IsOfTask (insurer_kept date x w carrier broker) _ λ on_file.
                            >>=-Returns IsOfTask (quote_for date x w t terms v) _ λ decision.
                              >>=-Returns IsOfTask
                                (guarantee_or_stop date x w
                                  (requires_guarantee broker.envelope
                                    || requires_guarantee carrier.envelope)
                                  terms decision)
                                _
                                λ guarantee.
                                  >>=-Returns IsOfTask (present (w.credential first.credential_id))
                                    _
                                    λ _.
                                      >>=-Returns IsOfTask
                                        (present (w.credential second.credential_id)) _
                                        λ _. value _ (journal-IsOfTask broker on_file guarantee)

  -- The journal of a prepared commit is that of its negotiation and of the terms given, with their hash.
  pub prepare-journal :
      (j : CommitJournal)
      → prepare date x w t terms v ≡ go j
      → (j.task_id ≡ t.id) × (j.terms ≡ terms) × (j.terms_hash ≡ terms_hash x terms)
  prepare-journal j h = Returns-go IsOfTask _ j prepare-IsOfTask h
