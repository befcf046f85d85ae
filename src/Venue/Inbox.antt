-- ===== src/Venue/Inbox.antt =====
-- Every message of an agent passes through `ingest` of src/venue/service.ts, which uses up its nonce;
-- `sweepNonces` of src/venue/state.ts forgets nonces by age, with the table of nonces of src/venue/db.ts. The
-- signature of a message and the closed schema of its payload are judged by the parameter Inspection; the
-- parsing of a time may fail (`NaN`). A text that is absent is the empty one, which the source refuses alike.
-- Audit entries, the message log and evidence are left out.
pub mod Replay
pub mod Authentic
use Prim.Native.Nat.{Ordering}
use Prim.Native.String
use agentic_freight_venue.Common.{
  ℕ, ◌-◌, ◌*◌, Bool, true, false, not, ◌&&◌, ◌||◌, ◌⊎◌, inl, inr, Option, none, some, List, [], ◌∷◌,
  String, string_eq, ◌==◌, if◌then◌else◌, Keyed, lookup, insert, find, values, includes, any, ltb,
}
use agentic_freight_venue.Protocol.Reasons.{
  ReasonCode, protocol_violation, nonce_reused, message_stale, credential_unknown,
  untrusted_text_rejected,
}
use agentic_freight_venue.Protocol.Canonical.{Primitives}
use agentic_freight_venue.Venue.Task.{RegisteredAgent}
use agentic_freight_venue.Venue.State.{Venue}
use agentic_freight_venue.Venue.Standing.{Credential, Standing}
use agentic_freight_venue.Venue.Moves.{Move, Reply, refused, replied}
use agentic_freight_venue.Venue.Negotiation.{advance}
use agentic_freight_venue.Venue.Intake.{Tender, start_negotiation}

pub data Payload : Type 0 where
  no_payload : Payload
  tender : Tender → Payload
  move : Move → Payload
  other_payload : String → Payload

pub record Message : Type 0 where
  pub message_id : String
  pub credential_id : String
  pub sender_agent_id : String
  pub nonce : String
  pub ts : String
  pub task_id : Option String
  pub payload : Payload

pub data SchemaRule : Type 0 where
  unknown_key unknown_type bad_enum bad_format too_long unsafe_chars bad_number missing : SchemaRule

pub record Inspection : Type 0 where
  -- `verifyPresentation`: the reason to refuse, if any.
  pub presented : Message → Credential → Option ReasonCode
  -- The rules that `validateNegotiationPayload` finds broken.
  pub schema : Payload → List SchemaRule

pub record NonceSeen : Type 0 where
  pub message_id : String
  pub ts : String
  pub sender_agent_id : String

pub record Inbox : Type 0 where
  pub venue : Venue
  pub nonces : Keyed NonceSeen

-- Of the venue's configuration.
pub record Config : Type 0 where
  pub message_max_age : ℕ
  pub registry_max_age : ℕ
  pub max_rounds : ℕ

abbrev is_typed : Payload → Bool
is_typed no_payload = false
is_typed (other_payload type) = not (type == "")
is_typed _ = true

abbrev pub is_complete : Message → Bool
is_complete m =
    not (m.credential_id == "")
    && not (m.sender_agent_id == "")
    && not (m.nonce == "")
    && not (m.ts == "")
    && is_typed m.payload

-- `Math.abs(now - t) > maxAge`, which no `NaN` satisfies.
abbrev pub is_stale : ℕ → ℕ → Option ℕ → Bool
is_stale max_age now none = false
is_stale max_age now (some t) = ltb max_age (now - t) || ltb max_age (t - now)

-- `agentByCredential`: a superseded credential still finds its agent.
abbrev pub agent_by_credential : String → Keyed RegisteredAgent → Option RegisteredAgent
agent_by_credential id agents =
    find (λ a. a.credential_id == id || includes a.previous_credential_ids id) (values agents)

abbrev is_text_rule : SchemaRule → Bool
is_text_rule too_long = true
is_text_rule unsafe_chars = true
is_text_rule bad_enum = true
is_text_rule unknown_key = true
is_text_rule _ = false

abbrev schema_code : List SchemaRule → ReasonCode
schema_code rules = if any is_text_rule rules then untrusted_text_rejected else protocol_violation

-- `INSERT OR IGNORE`
abbrev pub insert_or_ignore : String → NonceSeen → Keyed NonceSeen → Keyed NonceSeen
insert_or_ignore key new rows = elim (lookup key rows) [
  | none ↦ insert key new rows
  | some _ ↦ rows
]

abbrev pub seen_as : Message → String → NonceSeen
seen_as m sender = record { message_id = m.message_id; ts = m.ts; sender_agent_id = sender }

-- `a < b` on texts.
abbrev pub is_before : String → String → Bool
is_before a b = elim (String.compare a b) [ Ordering.lt ↦ true | _ ↦ false ]

-- `DELETE FROM nonces WHERE ts < ?`
unfoldable pub nonce_sweep : String → Keyed NonceSeen → Keyed NonceSeen
nonce_sweep older_than [] = []
nonce_sweep older_than ((key, seen) ∷ rows) =
    if is_before seen.ts older_than
    then nonce_sweep older_than rows
    else (key, seen) ∷ nonce_sweep older_than rows

-- The job `nonce-sweep` of src/venue/server.ts: nonces are kept for twice the age allowed.
unfoldable pub sweep_nonces : (ℕ → String) → Config → ℕ → Inbox → Inbox
sweep_nonces iso k now i = record i {
  nonces = nonce_sweep (iso (now - 2 * k.message_max_age)) i.nonces;
}

module _ (x : Primitives) (normalized : String → String) (date : String → ℕ) (signer : String)
    (iso : ℕ → String) (stamp : String → Option ℕ) (k : Config) where
  -- The switch over the payload, with the identifier that a new task is given.
  unfoldable pub dispatch :
      Standing → RegisteredAgent → Credential → String → Message → Venue → Reply
  dispatch w sender cred id m v = elim (m.payload) [
    | tender d ↦
        replied (start_negotiation x normalized date k.registry_max_age w sender cred id d v)
    | move a ↦
        advance x normalized date signer iso k.max_rounds k.registry_max_age w sender cred m.task_id
          a v
    | _ ↦ refused protocol_violation
  ]

  -- The checks of the credential, of the presentation, of the sender and of the schema.
  unfoldable pub identified :
      Inspection → Standing → Message → Credential → Venue → ReasonCode ⊎ RegisteredAgent
  identified g w m cred v = elim (w.verdict cred) [
    | some code ↦ inl code
    | none ↦ elim (g.presented m cred) [
      | some code ↦ inl code
      | none ↦ elim (agent_by_credential cred.credential_id v.agents) [
        | none ↦ inl credential_unknown
        | some sender ↦
            if not (sender.agent_id == m.sender_agent_id)
            then inl credential_unknown
            else elim (g.schema m.payload) [
              | [] ↦ inr sender
              | rule ∷ rules ↦ inl (schema_code (rule ∷ rules))
            ]
      ]
    ]
  ]

  -- All checks, in the order of the source: the reason to refuse, or who sends.
  unfoldable pub admitted :
      Inspection → Standing → Message → Inbox → ReasonCode ⊎ (RegisteredAgent × Credential)
  admitted g w m i =
      if not (is_complete m) then inl protocol_violation else elim (lookup m.nonce i.nonces) [
        | some _ ↦ inl nonce_reused
        | none ↦
            if is_stale k.message_max_age w.now (stamp m.ts)
            then inl message_stale
            else elim (w.credential m.credential_id) [
              | none ↦ inl credential_unknown
              | some cred ↦ elim (identified g w m cred i.venue) [
                | inl code ↦ inl code
                | inr sender ↦ inr (sender, cred)
              ]
            ]
      ]

  abbrev pub nonce_set : Message → String → Inbox → Inbox
  nonce_set m sender i = record i { nonces = insert_or_ignore m.nonce (seen_as m sender) i.nonces }

  abbrev pub settled : Reply → Inbox → Inbox
  settled (replied v) i = record i { venue = v }
  settled _ i = i

  unfoldable pub ingest : Inspection → Standing → String → Message → Inbox → Reply × Inbox
  ingest g w id m i = elim (admitted g w m i) [
    | inl code ↦ (refused code, i)
    | inr (sender, cred) ↦
        let reply = dispatch w sender cred id m i.venue in
        (reply, settled reply (nonce_set m sender.agent_id i))
  ]
