-- ===== src/Store/Leases/Rows.antt =====
-- What a reader of the `leases` table sees after each write of src/longtask/persistence/leases.py.
use lhgp.Prelude.{
  ℕ, ◌≡◌, refl, Bool, true, false, Option, none, some, ◌&&◌, ◌==◌, nat_eq, if◌then◌else◌, inl, inr,
  Bool-cases, arith, ap, ◌∙◌, List,
}
use mathlib.Core.Option
use lhgp.Prelude.Tables.{
  find, update_where, delete_where, upsert, upserted, find_holds, find-upsert_self,
  find-upsert_other, find-update_self, find-update_other, find-delete_self, find-delete_other,
}
use lhgp.Contracts.Policies.{Ident}
use lhgp.Store.Types.{StoredLease, Store, Payload}
use lhgp.Store.Leases.{
  LeaseCall, partition_key, lease_at, get_lease, write_acquired, write_reclaimed, write_renewed,
  write_released,
}

-- The lease that a grant leaves behind.
abbrev pub granted : LeaseCall → Ident → ℕ → StoredLease
granted c holder generation = record {
  contract_id = c.contract_id;
  partition_id = partition_key c.partition_id;
  holder_attempt_id = holder;
  generation = generation;
  heartbeat_at = c.at;
  timeout = c.timeout;
}

-- The call is about this contract and this partition.
abbrev pub same_key : LeaseCall → Ident → Option Ident → Bool
same_key c cid part = c.contract_id == cid && partition_key c.partition_id == partition_key part

-- The tests for two keys agree on every row or never fit one row together.
key_apart :
    (a b a' b' : Ident) (x : StoredLease)
    → (a == a' && b == b') ≡ false
    → lease_at a b x ≡ true
    → lease_at a' b' x ≡ false
key_apart a b a' b' x apart h = ground arith

key_eq : (a a' b b' : Ident) → (a == a' && b == b') ≡ true → (a ≡ a') × (b ≡ b')
key_eq a a' b b' h = (ground arith, ground arith)

module _ (a b a' b' : Ident) (rows : List StoredLease) where
  find-upsert :
      (new : StoredLease) (f : StoredLease → StoredLease)
      → lease_at a b new ≡ true
      → ((x : StoredLease) → lease_at a b x ≡ true → f x ≡ new)
      → find (lease_at a' b') (upsert (lease_at a b) new f rows)
        ≡ (if a == a' && b == b' then some new else find (lease_at a' b') rows)
  find-upsert new f fits same = elim (Bool-cases (a == a' && b == b')) [
    | inl eq ↦
        let (ea, eb) = key_eq a a' b b' eq in
        rw (eq, ← ea, ← eb)
          (find-upsert_self (lease_at a b) new f rows fits (λ x h. rw (same x h) fits)
            ∙ ap some (settled (find (lease_at a b) rows) refl))
    | inr ne ↦ rw ne (
        find-upsert_other (lease_at a b) (lease_at a' b') new f rows
          (key_apart a b a' b' new ne fits) (λ x h. key_apart a b a' b' x ne h)
          (λ x h. rw (same x h) (key_apart a b a' b' new ne fits)))
  ]
    where
      settled : (o : Option StoredLease) → find (lease_at a b) rows ≡ o → upserted o new f ≡ new
      settled none e = refl
      settled (some x) e = same x (find_holds (lease_at a b) rows x e)

  find-update :
      (f : StoredLease → StoredLease)
      → ((x : StoredLease) → lease_at a b x ≡ true → lease_at a b (f x) ≡ true)
      → find (lease_at a' b') (update_where (lease_at a b) f rows) ≡ (
          if a == a' && b == b'
          then Option.map f (find (lease_at a' b') rows)
          else find (lease_at a' b') rows)
  find-update f keep = elim (Bool-cases (a == a' && b == b')) [
    | inl eq ↦
        let (ea, eb) = key_eq a a' b b' eq in
        rw (eq, ← ea, ← eb) (find-update_self (lease_at a b) f rows keep)
    | inr ne ↦ rw ne (
        find-update_other (lease_at a b) (lease_at a' b') f rows (λ x h. key_apart a b a' b' x ne h)
          (λ x h. key_apart a b a' b' (f x) ne (keep x h)))
  ]

  find-delete :
      find (lease_at a' b') (delete_where (lease_at a b) rows)
      ≡ (if a == a' && b == b' then none else find (lease_at a' b') rows)
  find-delete = elim (Bool-cases (a == a' && b == b')) [
    | inl eq ↦
        let (ea, eb) = key_eq a a' b b' eq in
        rw (eq, ← ea, ← eb) (find-delete_self (lease_at a b) rows)
    | inr ne ↦
        rw ne (
          find-delete_other (lease_at a b) (lease_at a' b') rows
            (λ x h. key_apart a b a' b' x ne h))
  ]

module _ (c : LeaseCall) (cid : Ident) (part : Option Ident) (s : Store) where
  pub get-acquired :
      (holder : Ident) (g : ℕ)
      → get_lease cid part (write_acquired c holder g s)
        ≡ (if same_key c cid part then some (granted c holder g) else get_lease cid part s)
  unfolding get_lease write_acquired
  get-acquired holder g =
      find-upsert c.contract_id (partition_key c.partition_id) cid (partition_key part) s.leases
        (granted c holder g) _ (ground arith) (λ x h. ground arith)

  -- A lease that is taken over or renewed was there before.
  pub get-reclaimed :
      (previous holder : Ident) (g : ℕ) (cause : Payload)
      → get_lease cid part (write_reclaimed c previous holder g cause s) ≡ (
          if same_key c cid part
          then Option.map {A = StoredLease}
              (λ old. record old {
                holder_attempt_id = holder;
                generation = g;
                heartbeat_at = c.at;
                timeout = c.timeout;
              })
              (get_lease cid part s)
          else get_lease cid part s)
  unfolding get_lease write_reclaimed
  get-reclaimed previous holder g cause =
      find-update c.contract_id (partition_key c.partition_id) cid (partition_key part) s.leases _
        (λ x h. h)

  pub get-renewed :
      (holder : Ident) (g : ℕ)
      → get_lease cid part (write_renewed c holder g s) ≡ (
          if same_key c cid part
          then Option.map {A = StoredLease}
              (λ old. record old { heartbeat_at = c.at; timeout = c.timeout })
              (get_lease cid part s)
          else get_lease cid part s)
  unfolding get_lease write_renewed
  get-renewed holder g =
      find-update c.contract_id (partition_key c.partition_id) cid (partition_key part) s.leases _
        (λ x h. h)

  pub get-released :
      (holder : Ident) (g : ℕ)
      → get_lease cid part (write_released c holder g s)
        ≡ (if same_key c cid part then none else get_lease cid part s)
  unfolding get_lease write_released
  get-released holder g =
      find-delete c.contract_id (partition_key c.partition_id) cid (partition_key part) s.leases
