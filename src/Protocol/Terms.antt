-- ===== src/Protocol/Terms.antt =====
-- The terms of a load and their hashes: `Stop`, `LoadSpec`, `Terms`, `termsHash` and `loadFingerprint` of
-- src/protocol/freight.ts. A rate is in cents; weight and miles are whole. `toLowerCase().trim()` is a
-- parameter of the fingerprint.
use agentic_freight_venue.Common.{ℕ, zero, suc, ◌+◌, ◌*◌, ◌/◌, Bool, Option, none, some, String}
use agentic_freight_venue.Mandate.Limits.{Equipment, van, reefer, flatbed, step_deck, power_only}
use agentic_freight_venue.Protocol.Canonical.{
  Json, string, number, amount, boolean, array, object, no_items, item, Fields, no_fields, field,
  undefined_field, Primitives, hash_object,
}

pub record Window : Type 0 where
  pub start : String
  pub end : String

pub record Stop : Type 0 where
  pub city : String
  pub state : String
  pub zip : String
  pub window : Window

pub record LoadSpec : Type 0 where
  pub load_ref : String
  pub origin : Stop
  pub destination : Stop
  pub equipment : Equipment
  pub weight : ℕ
  pub commodity : String
  pub miles : ℕ
  pub hazmat : Bool
  pub subcontract_permitted : Bool

pub record Entity : Type 0 where
  pub usdot : String
  pub mc : Option String

pub record Terms : Type 0 where
  pub load_ref : String
  pub load : LoadSpec
  pub rate : ℕ
  pub pickup : Window
  pub delivery : Window
  pub payment_terms_days : ℕ
  pub broker_agent_id : String
  pub carrier_agent_id : String
  pub broker_entity : Entity
  pub carrier_entity : Entity

abbrev pub equipment_name : Equipment → String
equipment_name van = "VAN"
equipment_name reefer = "REEFER"
equipment_name flatbed = "FLATBED"
equipment_name step_deck = "STEP_DECK"
equipment_name power_only = "POWER_ONLY"

abbrev window_json : Window → Json
window_json w =
    object (field "windowStart" (string w.start) (field "windowEnd" (string w.end) no_fields))

abbrev stop_json : Stop → Json
stop_json s = object (
    field "city" (string s.city) (
      field "state" (string s.state) (
        field "zip" (string s.zip) (
          field "windowStart" (string s.window.start)
            (field "windowEnd" (string s.window.end) no_fields)))))

abbrev load_json : LoadSpec → Json
load_json l = object (
    field "loadRef" (string l.load_ref) (
      field "origin" (stop_json l.origin) (
        field "destination" (stop_json l.destination) (
          field "equipment" (string (equipment_name l.equipment)) (
            field "weightLbs" (number l.weight) (
              field "commodity" (string l.commodity) (
                field "miles" (number l.miles) (
                  field "hazmat" (boolean l.hazmat) (
                    field "subcontractPermitted" (boolean l.subcontract_permitted)
                      no_fields)))))))))

abbrev mc_field : Option String → Fields
mc_field none = undefined_field "mc" no_fields
mc_field (some mc) = field "mc" (string mc) no_fields

abbrev entity_json : Entity → Json
entity_json e = object (field "usdot" (string e.usdot) (mc_field e.mc))

-- The terms as the value that is hashed.
unfoldable pub terms_json : Terms → Json
terms_json t = object (
    field "loadRef" (string t.load_ref) (
      field "load" (load_json t.load) (
        field "rateUsd" (amount t.rate) (
          field "pickup" (window_json t.pickup) (
            field "delivery" (window_json t.delivery) (
              field "paymentTermsDays" (number t.payment_terms_days) (
                field "brokerAgentId" (string t.broker_agent_id) (
                  field "carrierAgentId" (string t.carrier_agent_id) (
                    field "brokerEntity" (entity_json t.broker_entity)
                      (field "carrierEntity" (entity_json t.carrier_entity) no_fields))))))))))

-- `s.slice(0, n)`
abbrev pub prefix : ℕ → String → String
prefix zero s = ""
prefix (suc n) String.[] = ""
prefix (suc n) (String.◌∷◌ c s) = String.◌∷◌ c (prefix n s)

-- `Math.round(weightLbs / 500) * 500`
abbrev rounded_weight : ℕ → ℕ
rounded_weight w = (w + 250) / 500 * 500

module _ (x : Primitives) where
  unfoldable pub terms_hash : Terms → String
  terms_hash t = hash_object x (terms_json t)

  abbrev where_and_when : Stop → Json
  where_and_when s = array (item (string s.zip) (item (string (prefix 10 s.window.start)) no_items))

  unfoldable pub load_fingerprint : (String → String) → LoadSpec → String
  load_fingerprint normalized l = hash_object x (
      object (
        field "o" (where_and_when l.origin) (
          field "d" (where_and_when l.destination) (
            field "eq" (string (equipment_name l.equipment)) (
              field "w" (number (rounded_weight l.weight))
                (field "c" (string (normalized l.commodity)) no_fields))))))
