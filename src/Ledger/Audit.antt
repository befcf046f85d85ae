-- ===== src/Ledger/Audit.antt =====
-- The audit log of src/protocol/audit.ts. What a component reports (its name, the event, the outcome and
-- the rest) is kept as the fields of a canonical object; the file behind the log is the list of its
-- entries, and the observers of a write are left out. A missing `prevHash` or `hash` marks an entry
-- from before the chain.
pub mod Chained
pub mod Reopened
use Prim.Native.String
use agentic_freight_venue.Common.{
  ℕ, ◌+◌, Bool, true, false, not, ◌&&◌, ◌||◌, Option, none, some, List, [], ◌∷◌, ◌++◌, String,
  string_eq, ◌==◌, if◌then◌else◌, includes, length,
}
use agentic_freight_venue.Protocol.Canonical.{
  string, number, object, Fields, field, Primitives, canonicalize,
}
use agentic_freight_venue.Ledger.Chain.{genesis_hash}

-- What a component reports, and what the log adds to it.
pub record AuditContent : Type 0 where
  pub ts : String
  pub seq : ℕ
  pub key : Option String
  pub report : Fields

pub record AuditEntry : Type 0 where
  pub content : AuditContent
  pub prev_hash : Option String
  pub hash : Option String

-- The state of the log, its file included.
pub record AuditLog : Type 0 where
  pub seq : ℕ
  pub keys : List String
  pub prev_hash : String
  pub file : List AuditEntry

pub record AuditVerdict : Type 0 where
  pub is_ok : Bool
  pub first_bad_seq : Option ℕ
  pub error : Option String

-- `if (e.key)`, `if (e.hash)`: absent or empty is no.
abbrev pub is_given : Option String → Bool
is_given none = false
is_given (some s) = not (s == "")

abbrev pub with_key : List String → Option String → List String
with_key keys none = keys
with_key keys (some k) = if k == "" then keys else keys ++ (k ∷ [])

abbrev pub with_hash : String → Option String → String
with_hash prev none = prev
with_hash prev (some h) = if h == "" then prev else h

-- The loop of the constructor over the lines of the file.
unfoldable pub reread : List AuditEntry → List String → String → List String × String
reread [] keys prev = (keys, prev)
reread (e ∷ es) keys prev = reread es (with_key keys e.content.key) (with_hash prev e.hash)

unfoldable pub reopen : List AuditEntry → AuditLog
reopen file =
    let (keys, prev) = reread file [] genesis_hash in
    record { seq = length file; keys = keys; prev_hash = prev; file = file }

abbrev pub same_hash : Option String → String → Bool
same_hash none h = false
same_hash (some g) h = g == h

abbrev pub is_prechain : AuditEntry → Bool
is_prechain e = elim e.prev_hash [
  | none ↦ elim e.hash [ none ↦ true | some _ ↦ false ]
  | some _ ↦ false
]

abbrev found_bad : AuditEntry → String → AuditVerdict
found_bad e error = record { is_ok = false; first_bad_seq = some e.content.seq; error = some error }

abbrev pub keyed_fields : Option String → Fields → Fields
keyed_fields none report = report
keyed_fields (some k) report = field "key" (string k) report

module _ (x : Primitives) where
  unfoldable pub audit_entry_hash : String → AuditContent → String
  audit_entry_hash prev c = x.sha256_hex (
      String.◌++◌ prev (
        String.◌++◌ "\n" (
          canonicalize x (
            object (
              field "ts" (string c.ts)
                (field "seq" (number c.seq) (keyed_fields c.key c.report)))))))

  unfoldable pub verify_audit_from : String → List AuditEntry → AuditVerdict
  verify_audit_from prev [] = record { is_ok = true; first_bad_seq = none; error = none }
  verify_audit_from prev (e ∷ es) =
      let rest = verify_audit_from (audit_entry_hash prev e.content) es in
      let unchained = verify_audit_from "" es in
      if is_prechain e
      then unchained
      else if not (same_hash e.prev_hash prev)
      then found_bad e "prevHash does not match the previous entry"
      else if not (same_hash e.hash (audit_entry_hash prev e.content))
      then found_bad e "entry hash does not match its content"
      else rest

  unfoldable pub verify_audit_chain : List AuditEntry → AuditVerdict
  verify_audit_chain entries = verify_audit_from genesis_hash entries

  abbrev pub new_content : String → Option String → Fields → AuditLog → AuditContent
  new_content ts key report log = record { ts = ts; seq = log.seq + 1; key = key; report = report }

  unfoldable pub write : String → Option String → Fields → AuditLog → AuditEntry × AuditLog
  write ts key report log =
      let c = new_content ts key report log in
      let h = audit_entry_hash log.prev_hash c in
      let e : AuditEntry = record { content = c; prev_hash = some log.prev_hash; hash = some h } in
      (e, record log { seq = log.seq + 1; prev_hash = h; file = log.file ++ (e ∷ []) })

  unfoldable pub write_once : String → String → Fields → AuditLog → Option AuditEntry × AuditLog
  write_once ts key report log =
      if includes log.keys key
      then (none, log)
      else let (e, log') =
          write ts (some key) report (record log { keys = log.keys ++ (key ∷ []) }) in
        (some e, log')
