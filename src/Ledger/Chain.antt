-- ===== src/Ledger/Chain.antt =====
-- The hash-chained ledger of src/ledger/chain.ts, verified under a single venue key. The file behind it
-- is a copy of its entries; the time is an argument.
pub mod Appended
pub mod Tampering
use agentic_freight_venue.Common.{
  ℕ, ◌+◌, Bool, true, false, not, Option, none, some, List, [], ◌∷◌, ◌++◌, String, string_eq, ◌==◌,
  if◌then◌else◌, length, find, keep, leb, ltb,
}
use agentic_freight_venue.Protocol.Canonical.{
  Json, string, number, object, no_fields, field, Primitives, hash_object,
}

pub data LedgerEntryType : Type 0 where
  genesis root_rotation commitment insurance_renewal lifecycle claim payout void key_rotation reseal
        reattestation credential_status :
      LedgerEntryType

abbrev type_name : LedgerEntryType → String
type_name genesis = "GENESIS"
type_name root_rotation = "ROOT_ROTATION"
type_name commitment = "COMMITMENT"
type_name insurance_renewal = "INSURANCE_RENEWAL"
type_name lifecycle = "LIFECYCLE"
type_name claim = "CLAIM"
type_name payout = "PAYOUT"
type_name void = "VOID"
type_name key_rotation = "KEY_ROTATION"
type_name reseal = "RESEAL"
type_name reattestation = "REATTESTATION"
type_name credential_status = "CREDENTIAL_STATUS"

-- What an entry's hash is taken of.
pub record Content : Type 0 where
  pub seq : ℕ
  pub ts : String
  pub entry_type : LedgerEntryType
  pub payload : Json
  pub prev_hash : String

pub record LedgerEntry : Type 0 where
  pub content : Content
  pub hash : String
  pub venue_sig : String

abbrev pub genesis_hash : String
genesis_hash = "0000000000000000000000000000000000000000000000000000000000000000"

-- The hash of the last entry, or what stands before the first.
abbrev pub head_hash : String → List LedgerEntry → String
head_hash prev [] = prev
head_hash prev (e ∷ es) = head_hash e.hash es

pub record ChainVerification : Type 0 where
  pub is_ok : Bool
  pub entries : ℕ
  pub first_bad_seq : Option ℕ
  pub error : Option String

module _ (x : Primitives) where
  unfoldable pub entry_hash : Content → String
  entry_hash c = hash_object x (
      object (
        field "seq" (number c.seq) (
          field "ts" (string c.ts) (
            field "type" (string (type_name c.entry_type))
              (field "payload" c.payload (field "prevHash" (string c.prev_hash) no_fields))))))

  -- The signature is over `{ hash }`, by the current signer or by the one that is given.
  unfoldable pub new_entry :
      String → LedgerEntryType → Json → String → List LedgerEntry → LedgerEntry
  unfolding entry_hash
  new_entry signer entry_type payload now entries =
      let c : Content = record {
        seq = length entries;
        ts = now;
        entry_type = entry_type;
        payload = payload;
        prev_hash = head_hash genesis_hash entries;
      } in
      record { content = c; hash = entry_hash c; venue_sig = x.sign signer (entry_hash c) }

  unfoldable pub append :
      String → LedgerEntryType → Json → String → List LedgerEntry → LedgerEntry × List LedgerEntry
  append signer entry_type payload now entries =
      let e = new_entry signer entry_type payload now entries in (e, entries ++ (e ∷ []))

  -- The constructor: an empty ledger gets its first entry.
  unfoldable pub opened : String → Json → String → List LedgerEntry → List LedgerEntry
  opened signer payload now [] = (append signer genesis payload now []).1
  opened signer payload now (e ∷ es) = e ∷ es

  abbrev bad : ℕ → LedgerEntry → String → ChainVerification
  bad n e error = record {
    is_ok = false;
    entries = n;
    first_bad_seq = some e.content.seq;
    error = some error;
  }

  -- The loop over the entries, under the public key, the length of the whole and the previous hash.
  unfoldable pub verify_entries : String → ℕ → String → List LedgerEntry → ChainVerification
  verify_entries key n prev [] = record {
    is_ok = true;
    entries = n;
    first_bad_seq = none;
    error = none;
  }
  verify_entries key n prev (e ∷ es) =
      let rest = verify_entries key n e.hash es in
      if not (e.content.prev_hash == prev)
      then bad n e "prevHash does not match previous entry"
      else if not (entry_hash e.content == e.hash)
      then bad n e "entry hash does not match content"
      else if not (x.verify key e.venue_sig e.hash)
      then bad n e "venue signature invalid"
      else rest

  unfoldable pub verify_chain : String → List LedgerEntry → ChainVerification
  verify_chain key entries = verify_entries key (length entries) genesis_hash entries

-- `slice`: the entries from a number on.
unfoldable pub slice : ℕ → List LedgerEntry → List LedgerEntry
slice from entries = keep (λ e. leb from e.content.seq) entries

-- The simulator's two: a ledger that is cut after a number, and one that goes on from there without some
-- of its entries, linked and signed anew.
unfoldable pub truncate : ℕ → List LedgerEntry → List LedgerEntry
truncate seq entries = keep (λ e. leb e.content.seq seq) entries

module _ (x : Primitives) where
  -- One past the last number, or the first.
  abbrev next_seq : List LedgerEntry → ℕ
  next_seq [] = 0
  next_seq (e ∷ []) = e.content.seq + 1
  next_seq (e ∷ d ∷ es) = next_seq (d ∷ es)

  abbrev relinked : String → LedgerEntry → List LedgerEntry → LedgerEntry
  relinked signer e out =
      let c : Content = record e.content {
        seq = next_seq out;
        prev_hash = head_hash genesis_hash out;
      } in
      record { content = c; hash = entry_hash x c; venue_sig = x.sign signer (entry_hash x c) }

  unfoldable pub fork_entries :
      String → (LedgerEntry → Bool) → List LedgerEntry → List LedgerEntry → List LedgerEntry
  fork_entries signer exclude [] out = out
  fork_entries signer exclude (e ∷ es) out =
      fork_entries signer exclude es
        (if exclude e then out else out ++ (relinked signer e out ∷ []))

  unfoldable pub fork_view : String → ℕ → (LedgerEntry → Bool) → List LedgerEntry → List LedgerEntry
  fork_view signer from_seq exclude entries =
      fork_entries signer exclude (keep (λ e. ltb from_seq e.content.seq) entries)
        (truncate from_seq entries)
