-- ===== src/Witness/Receipts/Quorum.antt =====
-- What a quorum of witnesses vouches for, and what a proof of equivocation shows.
use agentic_freight_venue.Common.{
  ℕ, ◌-◌, ◌≤◌, ◌≡◌, refl, sym, ◌∙◌, ◌≢◌, ◌↔◌, min, max, Bool, true, false, none, some, List, [],
  ◌∷◌, String, string_eq, ◌==◌, ==_iff, length, keep, Keyed, lookup, insert, values,
  lookup-insert_ne, or_else, All, arith, inl, inr, Bool-cases,
}
use agentic_freight_venue.Protocol.Canonical.{Primitives}
use agentic_freight_venue.Witness.Receipts.{
  WitnessReceipt, WitnessKey, EquivocationProof, Witnessed, WitnessPolicy, key_of, latest_by,
  descending, times, verifies_under, verify_equivocation_proof, is_good, is_newer, is_none,
  witnessed_as_of, make_equivocation_proof,
}
use agentic_freight_venue.Witness.Receipts.Times.{
  since, since-descending, descending-IsDescending, enough_since, index_found,
}

-- One receipt for each of some witnesses, all passing a test.
pub AreVouchers : (WitnessReceipt → Bool) → Keyed WitnessReceipt → Type 0
AreVouchers p [] = Unit
AreVouchers p ((id, r) ∷ rows) =
    (r.witness_id ≡ id) × (p r ≡ true) × (lookup id rows ≡ none) × AreVouchers p rows

insert-AreVouchers :
    (p : WitnessReceipt → Bool) (r : WitnessReceipt) (rows : Keyed WitnessReceipt)
    → p r ≡ true
    → AreVouchers p rows
    → AreVouchers p (insert r.witness_id r rows)
unfolding AreVouchers lookup insert
insert-AreVouchers p r [] g h = (refl, g, refl, tt)
insert-AreVouchers p r ((id, w) ∷ rows) g h = elim (Bool-cases (id == r.witness_id)) [
  | inl same ↦ rw same (sym ((==_iff id r.witness_id).0 same), g, h.2, h.3)
  | inr other ↦
      let apart : r.witness_id ≢ id = ground (arith, other, ==_iff id r.witness_id) in
      rw other (
        h.0,
        h.1,
        lookup-insert_ne r.witness_id id r rows apart ∙ h.2,
        insert-AreVouchers p r rows g h.3,
      )
]

latest-AreVouchers :
    (p : WitnessReceipt → Bool) (rs : List WitnessReceipt) (latest : Keyed WitnessReceipt)
    → All (λ r. p r ≡ true) rs
    → AreVouchers p latest
    → AreVouchers p (latest_by rs latest)
unfolding latest_by
latest-AreVouchers p [] latest g h = h
latest-AreVouchers p (r ∷ rs) latest g h =
    elim (Bool-cases (is_newer r (lookup r.witness_id latest))) [
      | inl newer ↦ rw newer (
          latest-AreVouchers p rs (insert r.witness_id r latest) g.1
            (insert-AreVouchers p r latest g.0 h))
      | inr older ↦ rw older (latest-AreVouchers p rs latest g.1 h)
    ]

kept : (p : WitnessReceipt → Bool) (rs : List WitnessReceipt) → All (λ r. p r ≡ true) (keep p rs)
kept p [] = tt
kept p (r ∷ rs) = elim (Bool-cases (p r)) [
  | inl yes_kept ↦ rw yes_kept (yes_kept, kept p rs)
  | inr dropped ↦ rw dropped (kept p rs)
]

none_kept :
    (p : String → Bool) (ids : List String) → length (keep p ids) ≡ 0 → All (λ id. p id ≡ false) ids
none_kept p [] h = tt
none_kept p (id ∷ ids) h = (ground arith, none_kept p ids (ground arith))

-- What a quorum shows at a time: receipts of different pinned witnesses for the head, enough of them not
-- before that time, and every required witness among them.
pub record IsVouched (p : WitnessReceipt → Bool) (k : ℕ) (required : List String) (t : ℕ)
    : Type 0 where
  pub latest : Keyed WitnessReceipt
  pub vouchers : AreVouchers p latest
  pub enough : k ≤ since t (times (values latest))
  pub none_missing : All (λ id. is_none (lookup id latest) ≡ false) required

module _ (x : Primitives) (iso : ℕ → String) where
  -- Where a publication reaches its quorum, it names a time such that at least as many different pinned
  -- witnesses as the policy asks for, and at least one, signed the published head at that time or
  -- later, and every required witness is among the signers.
  pub quorum-IsVouched :
      (venue_id : String) (w : Witnessed) (witness_keys : List WitnessKey) (policy : WitnessPolicy)
      → let a = witnessed_as_of x iso venue_id (some w) witness_keys policy in
        a.quorum ≡ true
        → (t : ℕ) × (a.at ≡ some t)
          × IsVouched
              (is_good x iso venue_id w.head witness_keys)
              (max 1 (or_else policy.min_witnesses 1))
              policy.required
              t
  unfolding witnessed_as_of
  quorum-IsVouched venue_id w witness_keys policy h =
      let p = is_good x iso venue_id w.head witness_keys in
      let k = max 1 (or_else policy.min_witnesses 1) in
      let latest = latest_by (keep p w.receipts) [] in
      let ts = descending (times (values latest)) in
      let missing = keep (λ id. is_none (lookup id latest)) policy.required in
      let enough : k ≤ length ts = ground (arith, h) in
      let complete : length missing ≡ 0 = ground (arith, h) in
      let found = index_found ts (min k (length ts) - 1) (omega (arith, enough)) in
      (
        found.0,
        rw h found.1,
        record {
          latest = latest;
          vouchers =
              latest-AreVouchers p (keep p w.receipts) [] (kept p w.receipts)
                (unfold AreVouchers in tt);
          enough = omega (
            arith,
            enough,
            enough_since ts (min k (length ts) - 1) found.0
                (descending-IsDescending (times (values latest))) found.1,
            since-descending found.0 (times (values latest)),
          );
          none_missing = none_kept (λ id. is_none (lookup id latest)) policy.required complete;
        },
      )

  -- Two receipts that verify under pinned keys make a proof that verifies, exactly where they are for one
  -- venue and one place in its ledger and differ in the hash.
  pub make-verifies_iff :
      (a b : WitnessReceipt) (detected_by : String) (now : ℕ) (witness_keys : List WitnessKey)
      → verifies_under x iso a (key_of witness_keys a.witness_id) ≡ true
      → verifies_under x iso b (key_of witness_keys b.witness_id) ≡ true
      → ((p : EquivocationProof) × (make_equivocation_proof a b detected_by now ≡ some p)
          × (verify_equivocation_proof x iso p witness_keys ≡ true))
        ↔ ((a.venue_id ≡ b.venue_id) × (a.seq ≡ b.seq) × (a.hash ≢ b.hash))
  unfolding make_equivocation_proof verify_equivocation_proof
  make-verifies_iff a b detected_by now witness_keys va vb = (
    λ (p, made, _). ground (arith, made, ==_iff a.venue_id b.venue_id, ==_iff a.hash b.hash),
    λ (venue, seq, differ).
        let p : EquivocationProof = record {
          venue_id = a.venue_id;
          seq = a.seq;
          first = a;
          second = b;
          detected_by = detected_by;
          at = now;
        } in
        let apart : (a.hash == b.hash) ≡ false = ground (arith, differ, ==_iff a.hash b.hash) in
        let here : (a.venue_id == b.venue_id) ≡ true = (==_iff a.venue_id b.venue_id).1 venue in
        let there : (b.venue_id == a.venue_id) ≡ true =
          (==_iff b.venue_id a.venue_id).1 (sym venue) in
        let self : (a.venue_id == a.venue_id) ≡ true = (==_iff a.venue_id a.venue_id).1 refl in
        (p, ground (arith, here, apart, seq), ground (arith, self, there, apart, seq, va, vb)),
  )
