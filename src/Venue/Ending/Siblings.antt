-- ===== src/Venue/Ending/Siblings.antt =====
-- First commitment wins: `cancelSiblings` of src/venue/service.ts.
use mathlib.Core.Option
use agentic_freight_venue.Common.{
  ◌≡◌, ◌≢◌, ◌↔◌, ◌⊎◌, inl, inr, refl, sym, subst, none, some, ==_iff, ap, ◌∙◌, Bool, true, false,
  not, ◌&&◌, ◌||◌, ◌==◌, List, [], ◌∷◌, String, string_eq, if◌then◌else◌, lookup, insert, values,
  All, arith,
}
use agentic_freight_venue.Protocol.Reasons.{load_already_committed}
use agentic_freight_venue.Protocol.Canonical.{Primitives, string}
use agentic_freight_venue.Protocol.Terms.{load_fingerprint}
use agentic_freight_venue.Venue.Task.{NegotiationTask, is_terminal}
use agentic_freight_venue.Venue.State.{CommitmentRecord, Venue}
use agentic_freight_venue.Venue.Ending.{
  canceling, ended, terminate, sibling_evidence, is_sibling, overtaken, cancel_each,
  cancel_siblings,
}
use agentic_freight_venue.Venue.Ending.Expired.{TasksFiled, IsUnended, IsUnended-iff, IsCanceled}
use agentic_freight_venue.Venue.Ending.Sweep.{
  sweep, changed, mapped, sweep-mapped, lookup-mapped, mapped-settled, changed-at, unchanged-at,
  refuted, All-map,
}

tests_iff :
    (a b d e f : Bool)
    → ((not a && b && not d && (e || f)) ≡ true)
      ↔ ((a ≡ false) × (b ≡ true) × (d ≡ false) × ((e ≡ true) ⊎ (f ≡ true)))
tests_iff true b d e f = ground arith
tests_iff false b d true f = ground arith
tests_iff false b d false f = ground arith

-- A venue with the negotiations and the notices of another.
abbrev pub retasked : Venue → Venue → Venue
retasked v w = record v { tasks = w.tasks; outbox = w.outbox }

module _ (x : Primitives) (normalized : String → String) (winner broker : String)
    (c : CommitmentRecord) where
  abbrev pub beaten : NegotiationTask → NegotiationTask
  beaten s =
      ended load_already_committed "venue.commitment" (sibling_evidence x normalized c s) canceling
        s

  written_if :
      (b : Bool) (s : NegotiationTask) (v : Venue)
      → (if b then overtaken x normalized c s v else v).tasks
        ≡ (if b then insert s.id (beaten s) v.tasks else v.tasks)
  unfolding terminate
  written_if true s v = refl
  written_if false s v = refl

  cancel_each-tasks :
      (ss : List NegotiationTask) (v : Venue)
      → (cancel_each x normalized winner broker c ss v).tasks
        ≡ sweep (λ t. t.id) (is_sibling x normalized winner broker c) beaten ss v.tasks
  unfolding cancel_each
  cancel_each-tasks [] v = refl
  cancel_each-tasks (s ∷ ss) v =
      cancel_each-tasks ss
        (if is_sibling x normalized winner broker c s then overtaken x normalized c s v else v)
      ∙ ap (sweep (λ t. t.id) (is_sibling x normalized winner broker c) beaten ss)
          (written_if (is_sibling x normalized winner broker c s) s v)

  pub canceled-mapped :
      (v : Venue)
      → TasksFiled v
      → (cancel_siblings x normalized winner broker c v).tasks
        ≡ mapped (is_sibling x normalized winner broker c) beaten v.tasks
  unfolding cancel_siblings
  canceled-mapped v filed =
      cancel_each-tasks (values v.tasks) v
      ∙ sweep-mapped (λ t. t.id) (is_sibling x normalized winner broker c) beaten v.tasks filed

  pub cancel_each_none :
      (ss : List NegotiationTask) (v : Venue)
      → All (λ s. is_sibling x normalized winner broker c s ≡ false) ss
      → cancel_each x normalized winner broker c ss v ≡ v
  unfolding cancel_each
  cancel_each_none [] v h = refl
  cancel_each_none (s ∷ ss) v h = rw (h.0) (cancel_each_none ss v h.1)

  beaten-settled :
      (s : NegotiationTask) → is_sibling x normalized winner broker c (beaten s) ≡ false
  unfolding ended
  beaten-settled s = ground arith

  pub none_left :
      (v : Venue)
      → TasksFiled v
      → All
          (λ s. is_sibling x normalized winner broker c s ≡ false)
          (values (cancel_siblings x normalized winner broker c v).tasks)
  none_left v filed = rw (canceled-mapped v filed) (
      mapped-settled (λ t. t.id) (is_sibling x normalized winner broker c) beaten beaten-settled
        v.tasks)

  retasked_if :
      (b : Bool) (s : NegotiationTask) (v w : Venue)
      → retasked (if b then overtaken x normalized c s v else v) w ≡ retasked v w
  unfolding terminate
  retasked_if true s v w = refl
  retasked_if false s v w = refl

  cancel_each-retasked :
      (ss : List NegotiationTask) (v : Venue)
      → let w = cancel_each x normalized winner broker c ss v in w ≡ retasked v w
  unfolding cancel_each
  cancel_each-retasked [] v = refl
  cancel_each-retasked (s ∷ ss) v =
      let v' =
        if is_sibling x normalized winner broker c s then overtaken x normalized c s v else v in
      cancel_each-retasked ss v'
      ∙ retasked_if (is_sibling x normalized winner broker c s) s v
          (cancel_each x normalized winner broker c ss v')

  -- Nothing but the tasks and the outbox is touched.
  pub cancel_siblings-retasked :
      (v : Venue) → let w = cancel_siblings x normalized winner broker c v in w ≡ retasked v w
  unfolding cancel_siblings
  cancel_siblings-retasked v = cancel_each-retasked (values v.tasks) v

  -- Another negotiation of the broker that has not ended, for the load of the commitment: by the load's
  -- reference or by its fingerprint.
  abbrev pub IsRival : NegotiationTask → Type 0
  IsRival s =
      (s.id ≢ winner)
      × (s.broker_agent_id ≡ broker)
      × IsUnended s.state
      × ((s.load_ref ≡ c.load_ref) ⊎ (load_fingerprint x normalized s.load ≡ c.load_fingerprint))

  IsRival-iff :
      (s : NegotiationTask) → (is_sibling x normalized winner broker c s ≡ true) ↔ IsRival s
  IsRival-iff s =
      let u = IsUnended-iff s.state in
      let all =
        tests_iff (s.id == winner) (s.broker_agent_id == broker) (is_terminal s.state)
          (s.load_ref == c.load_ref) (load_fingerprint x normalized s.load == c.load_fingerprint) in
      let named = ==_iff s.id winner in
      let own = ==_iff s.broker_agent_id broker in
      let by_ref = ==_iff s.load_ref c.load_ref in
      let by_print = ==_iff (load_fingerprint x normalized s.load) c.load_fingerprint in
      (
        λ h.
            let (other, ours, live, same) = all.0 h in
            (
              λ e. (let k = named.1 e in cc),
              own.0 ours,
              u.0 live,
              elim same [ inl e ↦ inl (by_ref.0 e) | inr e ↦ inr (by_print.0 e) ],
            ),
        λ (other, ours, live, same). all.1 (
          refuted (s.id == winner) (λ h. other (named.0 h)),
          own.1 ours,
          u.1 live,
          elim same [ inl e ↦ inl (by_ref.1 e) | inr e ↦ inr (by_print.1 e) ],
        ),
      )

  beaten-IsCanceled :
      (s : NegotiationTask)
      → s.broker_agent_id ≡ broker
      → IsCanceled load_already_committed broker s (some (beaten s))
  unfolding ended lookup
  beaten-IsCanceled s own = (_, refl, ap (λ b. some (string b)) own, refl)

  -- First commitment wins. Once a commitment is on record, over tasks filed under their identifiers, exactly
  -- the other negotiations of the broker for that load, by its reference or its fingerprint, that have not
  -- ended are canceled: each is on file as it was but for its end, which has the earlier commitment as its
  -- reason and names the broker. Every other negotiation, the winner's included, stays as it was, no task is
  -- added, no rival is left, and doing it again changes nothing at all, so no notice goes out twice.
  pub cancel_siblings_lem :
      (v : Venue)
      → TasksFiled v
      → let after = cancel_siblings x normalized winner broker c v in
        ((key : String) (s : NegotiationTask)
          → lookup key v.tasks ≡ some s
          → (IsRival s → IsCanceled load_already_committed broker s (lookup key after.tasks))
            × ((IsRival s → ⊥) → lookup key after.tasks ≡ some s))
        × ((key : String) → lookup key v.tasks ≡ none → lookup key after.tasks ≡ none)
        × All (λ s. IsRival s → ⊥) (values after.tasks)
        × (cancel_siblings x normalized winner broker c after ≡ after)
  cancel_siblings_lem v filed =
      let is = is_sibling x normalized winner broker c in
      let after = cancel_siblings x normalized winner broker c v in
      let at : (key : String)
          → lookup key after.tasks ≡ Option.map (changed is beaten) (lookup key v.tasks) =
        rw (canceled-mapped v filed) (λ key. lookup-mapped (λ t. t.id) is beaten key v.tasks) in
      (
        λ key s found. (
          λ rival.
              subst (IsCanceled load_already_committed broker s)
                (sym (at key ∙ changed-at is beaten key v.tasks s found ((IsRival-iff s).1 rival)))
                (beaten-IsCanceled s rival.1),
          λ no_rival.
              at key
              ∙ unchanged-at is beaten key v.tasks s found
                  (refuted (is s) (λ h. no_rival ((IsRival-iff s).0 h))),
        ),
        λ key absent. at key ∙ rw absent refl,
        All-map (λ s. is s ≡ false) (λ s. IsRival s → ⊥)
            (λ s other rival. let h = (IsRival-iff s).1 rival in cc) (values after.tasks)
            (none_left v filed),
        unfold cancel_siblings in cancel_each_none (values after.tasks) after (none_left v filed),
      )
