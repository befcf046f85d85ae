-- ===== src/Venue/Inbox/Replay.antt =====
-- A message that `ingest` of src/venue/service.ts has taken is never taken again, although `sweepNonces` of
-- src/venue/state.ts forgets its nonce.
use agentic_freight_venue.Common.{
  ℕ, ◌+◌, ◌-◌, ◌*◌, ◌≤◌, ◌<◌, ◌≡◌, refl, sym, subst, ◌≢◌, ◌⊎◌, inl, inr, true, Option, none, some,
  Option-cases, [], ◌∷◌, String, string_eq, ==_iff, Keyed, lookup, lookup-insert,
  lookup-insert_self, arith,
}
use agentic_freight_venue.Protocol.Reasons.{ReasonCode, nonce_reused, message_stale}
use agentic_freight_venue.Protocol.Canonical.{Primitives}
use agentic_freight_venue.Venue.Task.{RegisteredAgent}
use agentic_freight_venue.Venue.State.{Venue}
use agentic_freight_venue.Venue.Standing.{Credential, Standing}
use agentic_freight_venue.Venue.Moves.{Reply, refused, thrown, replied}
use agentic_freight_venue.Venue.Inbox.{
  Message, Inspection, NonceSeen, Inbox, Config, is_complete, insert_or_ignore, seen_as, is_before,
  nonce_sweep, sweep_nonces, admitted, nonce_set, settled, dispatch, ingest,
}

sweep-lookup :
    (older_than key : String) (seen : NonceSeen) (rows : Keyed NonceSeen)
    → lookup key rows ≡ some seen
    → (lookup key (nonce_sweep older_than rows) ≡ some seen) ⊎ (is_before seen.ts older_than ≡ true)
unfolding lookup nonce_sweep
sweep-lookup older key seen [] h = cc
sweep-lookup older key seen ((at, s) ∷ rows) h = ground (arith, sweep-lookup older key seen rows)

ignore-lookup :
    (key other : String) (new seen : NonceSeen) (rows : Keyed NonceSeen)
    → lookup key rows ≡ some seen
    → lookup key (insert_or_ignore other new rows) ≡ some seen
ignore-lookup key other new seen rows h =
    ground (arith, lookup-insert other key new rows, ==_iff other key)

ignore-found :
    (key : String) (new : NonceSeen) (rows : Keyed NonceSeen)
    → lookup key rows ≡ none
    → lookup key (insert_or_ignore key new rows) ≡ some new
ignore-found key new rows h = rw (h, insert_or_ignore) (lookup-insert_self key new rows)

pub Sum-cases :
    {A : Type 0} {B : Type 0} (s : A ⊎ B) → ((a : A) × (s ≡ inl a)) ⊎ ((b : B) × (s ≡ inr b))
Sum-cases (inl a) = inl (a, refl)
Sum-cases (inr b) = inr (b, refl)

module _ (x : Primitives) (normalized : String → String) (date : String → ℕ) (signer : String)
    (iso : ℕ → String) (stamp : String → Option ℕ) (k : Config) (g : Inspection) where
  abbrev pub taken : Standing → String → Message → Inbox → Inbox
  taken w id m i = (ingest x normalized date signer iso stamp k g w id m i).1

  -- What may happen to the inbox as time passes: sweeps, messages, and any other change of the venue.
  pub data Later : ℕ → Inbox → ℕ → Inbox → Type 0 where
    at_once : (n : ℕ) (i : Inbox) → Later n i n i
    swept :
        (n s n' : ℕ) (i i' : Inbox)
        → n ≤ s
        → Later s (sweep_nonces iso k s i) n' i'
        → Later n i n' i'
    received :
        (n n' : ℕ) (w : Standing) (id : String) (m : Message) (i i' : Inbox)
        → n ≤ w.now
        → Later w.now (taken w id m i) n' i'
        → Later n i n' i'
    worked :
        (n n' : ℕ) (v : Venue) (i i' : Inbox)
        → Later n (record i { venue = v }) n' i'
        → Later n i n' i'

  settled-nonces :
      (r : Reply) (i : Inbox) → (settled x normalized date signer iso stamp k r i).nonces ≡ i.nonces
  settled-nonces (replied v) i = refl
  settled-nonces thrown i = refl
  settled-nonces (refused code) i = refl

  admitted-new :
      (w : Standing) (m : Message) (i : Inbox) (sender : RegisteredAgent) (cred : Credential)
      → admitted x normalized date signer iso stamp k g w m i ≡ inr (sender, cred)
      → (is_complete m ≡ true) × (lookup m.nonce i.nonces ≡ none)
  unfolding admitted
  admitted-new w m i sender cred h = ground arith

  -- A message is refused and changes nothing, or uses up its nonce.
  pub ingest-cases :
      (w : Standing) (id : String) (m : Message) (i : Inbox)
      → (taken w id m i ≡ i)
        ⊎ ((sender : String) × (is_complete m ≡ true)
            × (lookup m.nonce i.nonces ≡ none)
            × ((taken w id m i).nonces ≡ insert_or_ignore m.nonce (seen_as m sender) i.nonces))
  unfolding ingest
  ingest-cases w id m i = elim (Sum-cases (admitted x normalized date signer iso stamp k g w m i)) [
    | inl (code, e) ↦ inl (rw (e, taken) refl)
    | inr ((sender, cred), e) ↦
        let (complete, new) = admitted-new w m i sender cred e in
        inr (
          sender.agent_id,
          complete,
          new,
          rw (e, taken)
              (settled-nonces
                (dispatch x normalized date signer iso stamp k w sender cred id m i.venue)
                (nonce_set x normalized date signer iso stamp k m sender.agent_id i)),
        )
  ]

  -- A message is still on file, or can no longer be in time.
  abbrev IsGuarded : Message → ℕ → ℕ → Inbox → Type 0
  IsGuarded m t n i =
      ((seen : NonceSeen) × (lookup m.nonce i.nonces ≡ some seen) × (seen.ts ≡ m.ts))
      ⊎ (t + k.message_max_age < n)

  swept-IsGuarded :
      (m : Message) (t n s : ℕ) (i : Inbox)
      → ((s : ℕ) → is_before m.ts (iso s) ≡ true → t < s)
      → n ≤ s
      → IsGuarded m t n i
      → IsGuarded m t s (sweep_nonces iso k s i)
  unfolding sweep_nonces
  swept-IsGuarded m t n s i ordered le (inr past) = inr (omega arith)
  swept-IsGuarded m t n s i ordered le (inl (seen, found, same)) =
      let older = iso (s - 2 * k.message_max_age) in
      elim (sweep-lookup older m.nonce seen i.nonces found) [
        | inl kept ↦ inl (seen, kept, same)
        | inr gone ↦
            let lt =
              ordered (s - 2 * k.message_max_age)
                (subst (λ ts. is_before ts older ≡ true) same gone) in
            inr (omega arith)
      ]

  taken-IsGuarded :
      (m : Message) (t n : ℕ) (w : Standing) (id : String) (m' : Message) (i : Inbox)
      → n ≤ w.now
      → IsGuarded m t n i
      → IsGuarded m t w.now (taken w id m' i)
  taken-IsGuarded m t n w id m' i le (inr past) = inr (omega arith)
  taken-IsGuarded m t n w id m' i le (inl (seen, found, same)) = elim (ingest-cases w id m' i) [
    | inl e ↦ rw e (inl (seen, found, same))
    | inr (sender, complete, new, e) ↦ inl (
      seen,
      subst (λ rows. lookup m.nonce rows ≡ some seen) (sym e)
          (ignore-lookup m.nonce m'.nonce (seen_as m' sender) seen i.nonces found),
      same,
    )
  ]

  Later-IsGuarded :
      (m : Message) (t n n' : ℕ) (i i' : Inbox)
      → ((s : ℕ) → is_before m.ts (iso s) ≡ true → t < s)
      → Later n i n' i'
      → IsGuarded m t n i
      → IsGuarded m t n' i'
  Later-IsGuarded m t _ _ _ _ ordered (at_once n i) h = h
  Later-IsGuarded m t _ _ _ _ ordered (swept n s n' i i' le steps) h =
      Later-IsGuarded m t s n' (sweep_nonces iso k s i) i' ordered steps
        (swept-IsGuarded m t n s i ordered le h)
  Later-IsGuarded m t _ _ _ _ ordered (received n n' w id m' i i' le steps) h =
      Later-IsGuarded m t w.now n' (taken w id m' i) i' ordered steps
        (taken-IsGuarded m t n w id m' i le h)
  Later-IsGuarded m t _ _ _ _ ordered (worked n n' v i i' steps) h =
      Later-IsGuarded m t n n' (record i { venue = v }) i' ordered steps h

  admitted-reused :
      (w : Standing) (m : Message) (i : Inbox) (seen : NonceSeen)
      → is_complete m ≡ true
      → lookup m.nonce i.nonces ≡ some seen
      → admitted x normalized date signer iso stamp k g w m i ≡ inl nonce_reused
  unfolding admitted
  admitted-reused w m i seen complete found = rw (complete, found) refl

  admitted-stale :
      (w : Standing) (m : Message) (i : Inbox) (t : ℕ)
      → is_complete m ≡ true
      → lookup m.nonce i.nonces ≡ none
      → stamp m.ts ≡ some t
      → t + k.message_max_age < w.now
      → admitted x normalized date signer iso stamp k g w m i ≡ inl message_stale
  unfolding admitted
  admitted-stale w m i t complete new at past = ground arith

  ingest-refused :
      (w : Standing) (id : String) (m : Message) (i : Inbox) (code : ReasonCode)
      → admitted x normalized date signer iso stamp k g w m i ≡ inl code
      → ingest x normalized date signer iso stamp k g w id m i ≡ (refused code, i)
  unfolding ingest
  ingest-refused w id m i code e = rw (e, ingest) refl

  guarded-refused :
      (w : Standing) (id : String) (m : Message) (i : Inbox) (t n : ℕ)
      → is_complete m ≡ true
      → stamp m.ts ≡ some t
      → n ≤ w.now
      → IsGuarded m t n i
      → let again = ingest x normalized date signer iso stamp k g w id m i in
        (again ≡ (refused nonce_reused, i)) ⊎ (again ≡ (refused message_stale, i))
  guarded-refused w id m i t n complete at le h = elim (Option-cases (lookup m.nonce i.nonces)) [
    | inr (seen, found) ↦
        inl (ingest-refused w id m i nonce_reused (admitted-reused w m i seen complete found))
    | inl new ↦ elim h [
      | inl (seen, found, same) ↦ cc
      | inr past ↦ inr (
          ingest-refused w id m i message_stale
            (admitted-stale w m i t complete new at (omega arith)))
    ]
  ]

  -- A message that was taken once is refused ever after. If handling a message changed anything, its time can
  -- be read, and every reading of the clock that is written as a later text is later than that time, then,
  -- after any sweeps, messages and other changes of the venue in the order of time, the same message is
  -- refused because its nonce was used or because it is stale, and nothing changes.
  pub replay-refused :
      (w w' : Standing) (id id' : String) (m : Message) (i i' : Inbox) (t n : ℕ)
      → stamp m.ts ≡ some t
      → ((s : ℕ) → is_before m.ts (iso s) ≡ true → t < s)
      → taken w id m i ≢ i
      → Later w.now (taken w id m i) n i'
      → n ≤ w'.now
      → let again = ingest x normalized date signer iso stamp k g w' id' m i' in
        (again ≡ (refused nonce_reused, i')) ⊎ (again ≡ (refused message_stale, i'))
  replay-refused w w' id id' m i i' t n at ordered changed steps le = elim (ingest-cases w id m i) [
    | inl same ↦ absurd (changed same)
    | inr (sender, complete, new, e) ↦ guarded-refused w' id' m i' t n complete at le (
        Later-IsGuarded m t w.now n (taken w id m i) i' ordered steps (
          inl (
            seen_as m sender,
            subst (λ rows. lookup m.nonce rows ≡ some (seen_as m sender)) (sym e)
                (ignore-found m.nonce (seen_as m sender) i.nonces new),
            refl,
          )))
  ]
