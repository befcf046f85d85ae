-- ===== src/Witness/Receipts.antt =====
-- Receipts of witnesses, proofs of equivocation, and what a quorum of receipts says: src/protocol/witness.ts.
-- The witness's time is in milliseconds, printed by an argument where it is signed.
pub mod Times
pub mod Quorum
use agentic_freight_venue.Common.{
  ℕ, ◌+◌, ◌-◌, min, max, Bool, true, false, not, ◌&&◌, ◌||◌, Option, none, some, List, [], ◌∷◌,
  String, string_eq, ◌==◌, if◌then◌else◌, ltb, leb, nat_beq, length, keep, find, Keyed, lookup,
  insert, values, or_else,
}
use agentic_freight_venue.Protocol.Canonical.{
  Json, string, number, object, no_fields, field, Primitives, canonicalize,
}

pub record LedgerHead : Type 0 where
  pub seq : ℕ
  pub hash : String

pub record WitnessReceipt : Type 0 where
  pub witness_id : String
  pub venue_id : String
  pub seq : ℕ
  pub hash : String
  pub at : ℕ
  pub signature : String

pub record WitnessKey : Type 0 where
  pub witness_id : String
  pub public_key : String

pub record EquivocationProof : Type 0 where
  pub venue_id : String
  pub seq : ℕ
  pub first : WitnessReceipt
  pub second : WitnessReceipt
  pub detected_by : String
  pub at : ℕ

pub record Witnessed : Type 0 where
  pub head : LedgerHead
  pub receipts : List WitnessReceipt

pub record WitnessPolicy : Type 0 where
  pub min_witnesses : Option ℕ
  pub required : List String

pub record AsOf : Type 0 where
  pub at : Option ℕ
  pub by : List String
  pub quorum : Bool
  pub missing_required : List String

abbrev pub key_of : List WitnessKey → String → Option WitnessKey
key_of keys id = find (λ w. w.witness_id == id) keys

abbrev pub is_none {ℓ} : {A : Type ℓ} → Option A → Bool
is_none none = true
is_none (some a) = false

-- The latest receipt of each witness.
abbrev is_newer : WitnessReceipt → Option WitnessReceipt → Bool
is_newer r none = true
is_newer r (some old) = ltb old.at r.at

unfoldable pub latest_by : List WitnessReceipt → Keyed WitnessReceipt → Keyed WitnessReceipt
latest_by [] latest = latest
latest_by (r ∷ rs) latest =
    latest_by rs
      (if is_newer r (lookup r.witness_id latest) then insert r.witness_id r latest else latest)

abbrev pub keys {ℓ} : {V : Type ℓ} → Keyed V → List String
keys [] = []
keys ((k, v) ∷ rows) = k ∷ keys rows

-- `sort((x, y) => y - x)`
abbrev pub insert_descending : ℕ → List ℕ → List ℕ
insert_descending t [] = t ∷ []
insert_descending t (u ∷ us) =
    let rest = insert_descending t us in if leb u t then t ∷ u ∷ us else u ∷ rest

abbrev pub descending : List ℕ → List ℕ
descending [] = []
descending (t ∷ ts) = insert_descending t (descending ts)

abbrev pub times : List WitnessReceipt → List ℕ
times [] = []
times (r ∷ rs) = r.at ∷ times rs

abbrev pub at_index : ℕ → List ℕ → Option ℕ
at_index n [] = none
at_index n (t ∷ ts) = let rest = at_index (n - 1) ts in if nat_beq n 0 then some t else rest

module _ (x : Primitives) (iso : ℕ → String) where
  abbrev body : String → ℕ → String → ℕ → String
  body venue_id seq hash at = canonicalize x (
      object (
        field "venueId" (string venue_id) (
          field "seq" (number seq)
            (field "hash" (string hash) (field "at" (string (iso at)) no_fields)))))

  unfoldable pub sign_receipt : String → String → String → LedgerHead → ℕ → WitnessReceipt
  sign_receipt witness witness_id venue_id head now = record {
    witness_id = witness_id;
    venue_id = venue_id;
    seq = head.seq;
    hash = head.hash;
    at = now;
    signature = x.sign witness (body venue_id head.seq head.hash now);
  }

  unfoldable pub verify_receipt : WitnessReceipt → String → Bool
  verify_receipt r key = x.verify key r.signature (body r.venue_id r.seq r.hash r.at)

  abbrev pub verifies_under : WitnessReceipt → Option WitnessKey → Bool
  verifies_under r none = false
  verifies_under r (some key) = verify_receipt r key.public_key

  unfoldable pub verify_equivocation_proof : EquivocationProof → List WitnessKey → Bool
  verify_equivocation_proof p witness_keys =
      let a = p.first in
      let b = p.second in
      if not (a.venue_id == p.venue_id)
        || not (b.venue_id == p.venue_id)
        || not (nat_beq a.seq p.seq)
        || not (nat_beq b.seq p.seq)
        || a.hash == b.hash
      then false
      else verifies_under a (key_of witness_keys a.witness_id)
        && verifies_under b (key_of witness_keys b.witness_id)

  -- A receipt of a pinned witness for the head that was published.
  unfoldable pub is_good : String → LedgerHead → List WitnessKey → WitnessReceipt → Bool
  is_good venue_id head witness_keys r =
      r.venue_id == venue_id
      && (nat_beq r.seq head.seq
          && (r.hash == head.hash && verifies_under r (key_of witness_keys r.witness_id)))

  unfoldable pub witnessed_as_of :
      String → Option Witnessed → List WitnessKey → WitnessPolicy → AsOf
  witnessed_as_of venue_id none witness_keys policy = record {
    at = none;
    by = [];
    quorum = false;
    missing_required = policy.required;
  }
  witnessed_as_of venue_id (some w) witness_keys policy =
      let k = max 1 (or_else policy.min_witnesses 1) in
      let latest = latest_by (keep (is_good venue_id w.head witness_keys) w.receipts) [] in
      let missing = keep (λ id. is_none (lookup id latest)) policy.required in
      let ts = descending (times (values latest)) in
      let quorum = leb k (length ts) && nat_beq (length missing) 0 in
      record {
        at = if quorum then at_index (min k (length ts) - 1) ts else none;
        by = keys latest;
        quorum = quorum;
        missing_required = missing;
      }

-- `makeEquivocationProof`
unfoldable pub make_equivocation_proof :
    WitnessReceipt → WitnessReceipt → String → ℕ → Option EquivocationProof
make_equivocation_proof a b detected_by now =
    if not (a.venue_id == b.venue_id) || not (nat_beq a.seq b.seq) || a.hash == b.hash
    then none
    else some (record {
      venue_id = a.venue_id;
      seq = a.seq;
      first = a;
      second = b;
      detected_by = detected_by;
      at = now;
    })
