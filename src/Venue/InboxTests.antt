-- ===== src/Venue/InboxTests.antt =====
-- A message that is sent twice to the venue of Scenario, with a sweep in between.
use agentic_freight_venue.Common.{
  ℕ, ◌<◌, ◌≡◌, refl, ap, subst, ◌≢◌, ◌⊎◌, inl, inr, true, Bool-cases, none, some, Option, [],
  String, ltb, ltb→lt, arith, if◌then◌else◌, lookup, insert,
}
use agentic_freight_venue.Protocol.Reasons.{nonce_reused, message_stale}
use agentic_freight_venue.Protocol.Examples.{toy}
use agentic_freight_venue.Venue.Moves.{refused}
use agentic_freight_venue.Venue.Inbox.{
  tender, Message, Inspection, Inbox, Config, is_before, sweep_nonces, identified, admitted,
  dispatch, ingest,
}
use agentic_freight_venue.Venue.Inbox.Replay.{at_once, swept, taken, replay-refused}
use agentic_freight_venue.Venue.Inbox.Authentic.{IsAuthentic, ingest-IsAuthentic}
use agentic_freight_venue.Venue.Standing.{Standing}
use agentic_freight_venue.Venue.Scenario.{same_text, date, standing, tender_to, venue}

-- The message's time is the latest one written as it is.
abbrev clock : ℕ → String
clock n = if ltb 48 n then "b" else "a"

abbrev stamp : String → Option ℕ
stamp s = some 48

abbrev config : Config
config = record { message_max_age = 10; registry_max_age = 1000; max_rounds = 5 }

abbrev inspection : Inspection
inspection = record { presented = λ m c. none; schema = λ p. [] }

abbrev message : Message
message = record {
  message_id = "m1";
  credential_id = "cb";
  sender_agent_id = "b";
  nonce = "n1";
  ts = "a";
  task_id = none;
  payload = tender (tender_to "k");
}

abbrev inbox : Inbox
inbox = record { venue = venue; nonces = [] }

abbrev later : Standing
later = record standing { now = 200 }

abbrev after : Inbox
after = taken toy same_text date "k1" clock stamp config inspection standing "t9" message inbox

changes : after ≢ inbox
unfolding ingest admitted identified dispatch lookup insert
changes e = let h = ap (λ (i : Inbox). i.nonces) e in cc h

in_order : (s : ℕ) → is_before "a" (clock s) ≡ true → 48 < s
in_order s h = elim (Bool-cases (ltb 48 s)) [
  | inl past ↦ ltb→lt 48 s past
  | inr early ↦
      let same = subst (λ b. is_before "a" (if b then "b" else "a") ≡ true) early h in cc same
]

replay-refused_example :
    let i' = sweep_nonces clock config 150 after in
    let again =
      ingest toy same_text date "k1" clock stamp config inspection later "t10" message i' in
    (again ≡ (refused nonce_reused, i')) ⊎ (again ≡ (refused message_stale, i'))
replay-refused_example =
    replay-refused toy same_text date "k1" clock stamp config inspection standing later "t9" "t10"
      message inbox (sweep_nonces clock config 150 after) 48 150 refl in_order changes
      (swept 50 150 150 after (sweep_nonces clock config 150 after) (omega arith)
        (at_once 150 (sweep_nonces clock config 150 after)))
      (omega arith)

ingest-IsAuthentic_example :
    IsAuthentic toy same_text date "k1" clock stamp config inspection standing message venue
ingest-IsAuthentic_example =
    ingest-IsAuthentic toy same_text date "k1" clock stamp config inspection standing "t9" message
      inbox changes
