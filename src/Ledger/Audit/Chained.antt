-- ===== src/Ledger/Audit/Chained.antt =====
-- The chain of the audit log.
use agentic_freight_venue.Common.{
  ◌≡◌, refl, ◌∙◌, true, Option, none, some, List, [], ◌∷◌, ◌++◌, String, string_eq, ==_refl,
  if◌then◌else◌, includes, inl, inr, arith, Bool-cases,
}
use agentic_freight_venue.Protocol.Canonical.{Fields, Primitives}
use agentic_freight_venue.Ledger.Chain.{genesis_hash}
use agentic_freight_venue.Ledger.Audit.{
  AuditEntry, AuditLog, is_prechain, reread, reopen, audit_entry_hash, verify_audit_from,
  verify_audit_chain, write, write_once,
}

-- A call of the log.
pub data Write : Type 0 where
  writes : String → Fields → Write
  writes_once : String → String → Fields → Write

module _ (x : Primitives) where
  unfoldable pub perform : Write → AuditLog → AuditLog
  perform (writes ts report) log = (write x ts none report log).1
  perform (writes_once ts key report) log = (write_once x ts key report log).1

  unfoldable pub perform_all : List Write → AuditLog → AuditLog
  perform_all [] log = log
  perform_all (w ∷ ws) log = perform_all ws (perform w log)

  -- The hash that the verification carries past some entries.
  abbrev end_hash : String → List AuditEntry → String
  end_hash prev [] = prev
  end_hash prev (e ∷ es) =
      end_hash (if is_prechain e then "" else audit_entry_hash x prev e.content) es

  -- An entry chained to a hash.
  record IsChained (prev : String) (e : AuditEntry) : Type 0 where
    follows : e.prev_hash ≡ some prev
    sealed : e.hash ≡ some (audit_entry_hash x prev e.content)

  chained_ok :
      (prev : String) (e : AuditEntry)
      → IsChained prev e
      → (verify_audit_from x prev (e ∷ [])).is_ok ≡ true
  unfolding verify_audit_from
  chained_ok prev e c =
      rw (c.follows, c.sealed, ==_refl prev, ==_refl (audit_entry_hash x prev e.content)) refl

  verify-append :
      (prev : String) (es : List AuditEntry) (e : AuditEntry)
      → (verify_audit_from x prev es).is_ok ≡ true
      → (verify_audit_from x (end_hash prev es) (e ∷ [])).is_ok ≡ true
      → (verify_audit_from x prev (es ++ (e ∷ []))).is_ok ≡ true
  unfolding verify_audit_from
  verify-append prev [] e h k = k
  verify-append prev (d ∷ es) e h k =
      ground (arith, verify-append "" es e, verify-append (audit_entry_hash x prev d.content) es e)

  end_hash-append :
      (es : List AuditEntry) (prev : String) (e : AuditEntry)
      → end_hash prev (es ++ (e ∷ [])) ≡ end_hash (end_hash prev es) (e ∷ [])
  end_hash-append [] prev e = refl
  end_hash-append (d ∷ es) prev e =
      end_hash-append es (if is_prechain d then "" else audit_entry_hash x prev d.content) e

  -- The file verifies and the log holds the hash that its end asks for.
  record IsVerified (log : AuditLog) : Type 0 where
    verifies : (verify_audit_chain x log.file).is_ok ≡ true
    current : end_hash genesis_hash log.file ≡ log.prev_hash

  write-IsVerified :
      (ts : String) (key : Option String) (report : Fields) (log : AuditLog)
      → IsVerified log
      → IsVerified (write x ts key report log).1
  unfolding write verify_audit_chain
  write-IsVerified ts key report log h =
      let e = (write x ts key report log).0 in
      record {
        verifies =
            verify-append genesis_hash log.file e h.verifies (
              rw h.current (chained_ok log.prev_hash e (record { follows = refl; sealed = refl })));
        current = end_hash-append log.file genesis_hash e ∙ rw h.current refl;
      }

  once-IsVerified :
      (ts key : String) (report : Fields) (log : AuditLog)
      → IsVerified log
      → IsVerified (write_once x ts key report log).1
  unfolding write_once
  once-IsVerified ts key report log h = elim (Bool-cases (includes log.keys key)) [
    | inl known ↦ rw known h
    | inr new ↦ rw new (
        write-IsVerified ts (some key) report (record log { keys = log.keys ++ (key ∷ []) })
          (record { verifies = h.verifies; current = h.current }))
  ]

  perform-IsVerified : (w : Write) (log : AuditLog) → IsVerified log → IsVerified (perform w log)
  unfolding perform
  perform-IsVerified (writes ts report) log h = write-IsVerified ts none report log h
  perform-IsVerified (writes_once ts key report) log h = once-IsVerified ts key report log h

  performed-IsVerified :
      (ws : List Write) (log : AuditLog) → IsVerified log → IsVerified (perform_all ws log)
  unfolding perform_all
  performed-IsVerified [] log h = h
  performed-IsVerified (w ∷ ws) log h =
      performed-IsVerified ws (perform w log) (perform-IsVerified w log h)

  -- Whatever is written to a log that is opened over an empty file, plainly or once per key, its chain
  -- verifies.
  pub perform_all-verifies :
      (ws : List Write) → (verify_audit_chain x (perform_all ws (reopen [])).file).is_ok ≡ true
  perform_all-verifies ws =
      (performed-IsVerified ws (reopen []) (record {
        verifies = unfold verify_audit_chain verify_audit_from reopen in refl;
        current = unfold reopen reread in refl;
      })).verifies

  has_appended : (keys : List String) (key : String) → includes (keys ++ (key ∷ [])) key ≡ true
  has_appended [] key = rw (==_refl key) refl
  has_appended (k ∷ keys) key = ground (arith, has_appended keys key)

  -- A second write under a key writes nothing: it returns no entry and leaves the log as it was.
  pub write_once_again :
      (ts later key : String) (report other : Fields) (log : AuditLog)
      → write_once x later key other (write_once x ts key report log).1
        ≡ (none, (write_once x ts key report log).1)
  unfolding write_once write
  write_once_again ts later key report other log = elim (Bool-cases (includes log.keys key)) [
    | inl known ↦ rw (known, known) refl
    | inr new ↦ rw (new, has_appended log.keys key) refl
  ]
