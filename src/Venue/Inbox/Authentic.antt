-- ===== src/Venue/Inbox/Authentic.antt =====
-- Whose messages `ingest` of src/venue/service.ts lets change anything.
use agentic_freight_venue.Common.{
  ℕ, ◌≡◌, refl, sym, ◌∙◌, Bool, ◌≢◌, ◌⊎◌, ◌+◌, ◌≤◌, subst, inl, inr, Bool-cases, includes,
  includes_iff, find, values, Has, List, ◌∷◌, ◌||◌, true, false, Option, none, some, [], String,
  string_eq, ◌==◌, ==_iff, arith,
}
use mathlib.Core.Option.{some-injective}
use agentic_freight_venue.Protocol.Canonical.{Primitives}
use agentic_freight_venue.Venue.Task.{RegisteredAgent}
use agentic_freight_venue.Venue.State.{Venue}
use agentic_freight_venue.Venue.Standing.{Credential, Standing}
use agentic_freight_venue.Venue.Inbox.{
  Message, Inspection, Inbox, Config, is_stale, agent_by_credential, identified, admitted, ingest,
}
use agentic_freight_venue.Venue.Inbox.Replay.{Sum-cases, taken}

find-Has :
    {A : Type 0} (p : A → Bool) (xs : List A) (a : A) → find p xs ≡ some a → Has a xs × (p a ≡ true)
find-Has p [] a h = cc
find-Has p (b ∷ bs) a h = elim (Bool-cases (p b)) [
  | inl here ↦
      let first : find p (b ∷ bs) ≡ some b = rw here refl in
      let same = some-injective _ _ (sym first ∙ h) in (inl same, subst (λ c. p c ≡ true) same here)
  | inr past ↦
      let next : find p (b ∷ bs) ≡ find p bs = rw past refl in
      let rest = find-Has p bs a (sym next ∙ h) in (inr rest.0, rest.1)
]

agent-held :
    (id : String) (agents : List RegisteredAgent) (a : RegisteredAgent)
    → find (λ a. a.credential_id == id || includes a.previous_credential_ids id) agents ≡ some a
    → Has a agents × ((a.credential_id ≡ id) ⊎ Has id a.previous_credential_ids)
agent-held id agents a h =
    let held =
      find-Has (λ a. a.credential_id == id || includes a.previous_credential_ids id) agents a h in
    (
      held.0,
      elim (Bool-cases (a.credential_id == id)) [
        | inl now ↦ inl ((==_iff a.credential_id id).0 now)
        | inr other ↦ inr ((includes_iff a.previous_credential_ids id).0 (ground arith))
      ],
    )

module _ (x : Primitives) (normalized : String → String) (date : String → ℕ) (signer : String)
    (iso : ℕ → String) (stamp : String → Option ℕ) (k : Config) (g : Inspection) where
  -- Who may change anything: a message in time, where its time can be read, under a valid credential that signed it, from the agent that
  -- is registered under that credential and that it names, with a payload that keeps the schema.
  pub record IsAuthentic (w : Standing) (m : Message) (v : Venue) : Type 0 where
    pub in_time :
        (t : ℕ)
        → stamp m.ts ≡ some t
        → (w.now ≤ t + k.message_max_age) × (t ≤ w.now + k.message_max_age)
    pub credential : Credential
    pub is_known : w.credential m.credential_id ≡ some credential
    pub is_valid : w.verdict credential ≡ none
    pub has_signed : g.presented m credential ≡ none
    pub sender : RegisteredAgent
    pub is_registered : Has sender (values v.agents)
    pub holds :
        (sender.credential_id ≡ credential.credential_id)
        ⊎ Has credential.credential_id sender.previous_credential_ids
    pub is_named : sender.agent_id ≡ m.sender_agent_id
    pub keeps_schema : g.schema m.payload ≡ []

  identified-sender :
      (w : Standing) (m : Message) (cred : Credential) (v : Venue) (sender : RegisteredAgent)
      → identified x normalized date signer iso stamp k g w m cred v ≡ inr sender
      → (w.verdict cred ≡ none)
        × (g.presented m cred ≡ none)
        × (agent_by_credential cred.credential_id v.agents ≡ some sender)
        × ((sender.agent_id == m.sender_agent_id) ≡ true)
        × (g.schema m.payload ≡ [])
  unfolding identified
  identified-sender w m cred v sender h = ground arith

  admitted-known :
      (w : Standing) (m : Message) (i : Inbox) (sender : RegisteredAgent) (cred : Credential)
      → admitted x normalized date signer iso stamp k g w m i ≡ inr (sender, cred)
      → (is_stale k.message_max_age w.now (stamp m.ts) ≡ false)
        × (w.credential m.credential_id ≡ some cred)
        × (identified x normalized date signer iso stamp k g w m cred i.venue ≡ inr sender)
  unfolding admitted
  admitted-known w m i sender cred h = ground arith

  timely :
      (w : Standing) (m : Message) (t : ℕ)
      → is_stale k.message_max_age w.now (stamp m.ts) ≡ false
      → stamp m.ts ≡ some t
      → (w.now ≤ t + k.message_max_age) × (t ≤ w.now + k.message_max_age)
  timely w m t fresh read =
      let near : is_stale k.message_max_age w.now (some t) ≡ false =
        subst (λ s. is_stale k.message_max_age w.now s ≡ false) read fresh in
      grind arith

  -- Handling a message changes nothing unless the message is authentic: within the age allowed of the clock
  -- if its time can be read, under a valid credential that signed it, sent by a registered agent that it
  -- names and whose credential this is or was, and with a payload that keeps the schema. A message whose time
  -- cannot be read is never late.
  pub ingest-IsAuthentic :
      (w : Standing) (id : String) (m : Message) (i : Inbox)
      → taken x normalized date signer iso stamp k g w id m i ≢ i
      → IsAuthentic w m i.venue
  unfolding ingest
  ingest-IsAuthentic w id m i changed =
      elim (Sum-cases (admitted x normalized date signer iso stamp k g w m i)) [
        | inl (code, e) ↦ absurd (changed (rw (e, taken) refl))
        | inr ((sender, cred), e) ↦
            let (early, known, sent) = admitted-known w m i sender cred e in
            let (valid, signed, registered, named, kept) =
              identified-sender w m cred i.venue sender sent in
            let held = agent-held cred.credential_id (values i.venue.agents) sender registered in
            record {
              in_time = λ t. timely w m t early;
              credential = cred;
              is_known = known;
              is_valid = valid;
              has_signed = signed;
              sender = sender;
              is_registered = held.0;
              holds = held.1;
              is_named = (==_iff sender.agent_id m.sender_agent_id).0 named;
              keeps_schema = kept;
            }
      ]
