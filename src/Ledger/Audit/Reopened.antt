-- ===== src/Ledger/Audit/Reopened.antt =====
-- The audit log read back from its file, and what its verification does with entries that carry no hash.
use agentic_freight_venue.Common.{
  ◌≡◌, refl, ap, ◌∙◌, ◌≢◌, true, false, Option, none, some, List, [], ◌∷◌, ◌++◌, String, string_eq,
  ◌==◌, ==_iff, includes, inl, inr, arith, All, Bool-cases, length, length-append,
}
use agentic_freight_venue.Protocol.Canonical.{Fields, Primitives}
use agentic_freight_venue.Ledger.Chain.{genesis_hash}
use agentic_freight_venue.Ledger.Audit.{
  AuditContent, AuditEntry, AuditLog, is_prechain, reread, reopen, audit_entry_hash,
  verify_audit_from, verify_audit_chain, write, write_once, with_key, with_hash,
}
use agentic_freight_venue.Ledger.Audit.Chained.{Write, writes, writes_once, perform, perform_all}

reread-append :
    (es : List AuditEntry) (e : AuditEntry) (keys : List String) (prev : String)
    → reread (es ++ (e ∷ [])) keys prev
      ≡ (with_key (reread es keys prev).0 e.content.key, with_hash (reread es keys prev).1 e.hash)
unfolding reread
reread-append [] e keys prev = refl
reread-append (d ∷ es) e keys prev =
    reread-append es e (with_key keys d.content.key) (with_hash prev d.hash)

-- The source reads an empty key as none at all.
abbrev pub IsKeyed : Write → Type 0
IsKeyed (writes ts report) = Unit
IsKeyed (writes_once ts key report) = key ≢ ""

not_empty : (s : String) → s ≢ "" → (s == "") ≡ false
not_empty s h = ground (arith, ==_iff s "")

module _ (x : Primitives) where
  -- What is read back from the file is what the log holds.
  record IsOnFile (log : AuditLog) : Type 0 where
    numbered : length log.file ≡ log.seq
    found : reread log.file [] genesis_hash ≡ (log.keys, log.prev_hash)

  no_empty_hash : (prev : String) (c : AuditContent) → (audit_entry_hash x prev c == "") ≡ false
  unfolding audit_entry_hash
  no_empty_hash prev c = not_empty _ (x.sha256_some _)

  write-IsOnFile :
      (ts : String) (report : Fields) (log : AuditLog)
      → IsOnFile log
      → IsOnFile (write x ts none report log).1
  unfolding write
  write-IsOnFile ts report log h = record {
    numbered =
        omega (arith, length-append log.file ((write x ts none report log).0 ∷ []), h.numbered);
    found =
        reread-append log.file (write x ts none report log).0 [] genesis_hash
        ∙ rw (h.found, no_empty_hash log.prev_hash (write x ts none report log).0.content) refl;
  }

  keyed-IsOnFile :
      (ts key : String) (report : Fields) (log : AuditLog)
      → key ≢ ""
      → IsOnFile log
      → IsOnFile (write x ts (some key) report (record log { keys = log.keys ++ (key ∷ []) })).1
  unfolding write
  keyed-IsOnFile ts key report log named h =
      let e = (write x ts (some key) report log).0 in
      record {
        numbered = omega (arith, length-append log.file (e ∷ []), h.numbered);
        found =
            reread-append log.file e [] genesis_hash
            ∙ rw (h.found, not_empty key named, no_empty_hash log.prev_hash e.content) refl;
      }

  once-IsOnFile :
      (ts key : String) (report : Fields) (log : AuditLog)
      → key ≢ ""
      → IsOnFile log
      → IsOnFile (write_once x ts key report log).1
  unfolding write_once
  once-IsOnFile ts key report log named h = elim (Bool-cases (includes log.keys key)) [
    | inl known ↦ rw known h
    | inr new ↦ rw new (keyed-IsOnFile ts key report log named h)
  ]

  perform-IsOnFile :
      (w : Write) (log : AuditLog) → IsKeyed w → IsOnFile log → IsOnFile (perform x w log)
  unfolding perform
  perform-IsOnFile (writes ts report) log k h = write-IsOnFile ts report log h
  perform-IsOnFile (writes_once ts key report) log k h = once-IsOnFile ts key report log k h

  performed-IsOnFile :
      (ws : List Write) (log : AuditLog)
      → All IsKeyed ws
      → IsOnFile log
      → IsOnFile (perform_all x ws log)
  unfolding perform_all
  performed-IsOnFile [] log k h = h
  performed-IsOnFile (w ∷ ws) log k h =
      performed-IsOnFile ws (perform x w log) k.1 (perform-IsOnFile w log k.0 h)

  -- A log that was opened over an empty file and written to under keys that are not empty is, after a
  -- restart, the log that it was: its number, its hash, its file, and the keys it will not write again.
  pub reopen-eq :
      (ws : List Write)
      → All IsKeyed ws
      → reopen (perform_all x ws (reopen [])).file ≡ perform_all x ws (reopen [])
  unfolding reopen
  reopen-eq ws k =
      let h =
        performed-IsOnFile ws (reopen []) k
          (record { numbered = unfold reopen in refl; found = unfold reopen reread in refl }) in
      rw (h.found, h.numbered) refl

  unchained_from :
      (es : List AuditEntry) (e : AuditEntry) (prev : String)
      → is_prechain e ≡ true
      → (verify_audit_from x prev es).is_ok ≡ true
      → (verify_audit_from x prev (es ++ (e ∷ []))).is_ok ≡ true
  unfolding verify_audit_from
  unchained_from [] e prev u h = rw u refl
  unchained_from (d ∷ es) e prev u h =
      ground
        (arith, unchained_from es e "" u, unchained_from es e (audit_entry_hash x prev d.content) u)

  -- An entry without its two hashes passes at the end of any log that verifies, whatever it says: the
  -- last entries of a log can be edited and stripped of their hashes without the chain showing it.
  pub unchained-passes :
      (es : List AuditEntry) (e : AuditEntry)
      → is_prechain e ≡ true
      → (verify_audit_chain x es).is_ok ≡ true
      → (verify_audit_chain x (es ++ (e ∷ []))).is_ok ≡ true
  unfolding verify_audit_chain
  unchained-passes es e u h = unchained_from es e genesis_hash u h

  no_hash : (e : AuditEntry) → is_prechain e ≡ true → e.hash ≡ none
  no_hash e h = ground arith

  reread-prechain :
      (es : List AuditEntry) (keys : List String) (prev : String)
      → All (λ e. is_prechain e ≡ true) es
      → (reread es keys prev).1 ≡ prev
  unfolding reread
  reread-prechain [] keys prev h = refl
  reread-prechain (e ∷ es) keys prev h =
      rw (no_hash e h.0) (reread-prechain es (with_key keys e.content.key) prev h.1)

  fails_after :
      (e d : AuditEntry) (es : List AuditEntry) (prev : String)
      → All (λ e. is_prechain e ≡ true) (d ∷ es)
      → e.prev_hash ≡ some genesis_hash
      → (verify_audit_from x prev ((d ∷ es) ++ (e ∷ []))).is_ok ≡ false
  unfolding verify_audit_from
  fails_after e d [] prev h s = rw (h.0, s) refl
  fails_after e d (c ∷ es) prev h s = rw h.0 (fails_after e c es "" h.1 s)

  -- On a log that holds entries from before the chain and nothing else, the first entry written after
  -- a restart makes the verification of the whole log fail: the log goes on from the genesis hash, and
  -- the verification asks for the empty one.
  pub prechain-breaks :
      (d : AuditEntry) (es : List AuditEntry) (ts : String) (key : Option String) (report : Fields)
      → All (λ e. is_prechain e ≡ true) (d ∷ es)
      → (verify_audit_chain x (write x ts key report (reopen (d ∷ es))).1.file).is_ok ≡ false
  unfolding verify_audit_chain write reopen
  prechain-breaks d es ts key report h =
      fails_after (write x ts key report (reopen (d ∷ es))).0 d es genesis_hash h
        (ap some (reread-prechain (d ∷ es) [] genesis_hash h))
