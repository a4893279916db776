-- ===== src/CaptureLease/Authority.antt =====
-- apps/controller/src/jobs/capture-lease.ts: who holds a lease after a single call, on every branch.
use remote_build_orchestrato.Common.{
  ℕ, ◌+◌, ◌≡◌, Bool, true, false, Option, none, some, Result, ok, err, arith, ltb, leb,
  if◌then◌else◌,
}
use remote_build_orchestrato.Submission.{Key, key_eq, key_eq_refl, capturing, SubmissionRow}
use remote_build_orchestrato.CaptureLease.{
  CaptureLease, Identity, Database, Options, LeaseError, LeaseResult, ttl, first_lease, acquire_at,
  acquire_capture_lease, renew_capture_lease, release_capture_lease, has_capture_lease_authority,
}

-- The contract of an acquisition: who holds the key after it.
abbrev pub free_at : ℕ → Option CaptureLease → Bool
free_at now none = true
free_at now (some l) = leb l.expires_at now

abbrev pub next_lease : ℕ → ℕ → ℕ → Option CaptureLease → CaptureLease
next_lease owner now duration none = first_lease owner now duration
next_lease owner now duration (some l) =
    if leb l.expires_at now
    then record l {
      owner_token = owner;
      fencing_generation = l.fencing_generation + 1;
      expires_at = now + duration;
      updated_at = now;
    }
    else l

abbrev pub was_acquired : Result LeaseError LeaseResult → Bool
was_acquired (ok r) = r.acquired
was_acquired (err e) = false

module _ (db : Database) (k : Key) (o : Options) (submission : SubmissionRow) (now duration : ℕ)
    (found : db.submissions k ≡ some submission) (unfinished : submission.state ≡ capturing)
    (dated : o.now ≡ some now) (lasting : ttl o ≡ ok duration) where
  acquire_capturing_lem :
      acquire_capture_lease db k o ≡ acquire_at db k submission o.owner_token now duration
  unfolding acquire_capture_lease
  acquire_capturing_lem = ground arith

  -- While the submission is capturing, an acquisition with a valid clock and TTL is granted exactly
  -- when the key is free, and leaves the contract's lease; submissions and other keys stay.
  pub acquire_contract :
      let after = acquire_capture_lease db k o in
      (was_acquired after.1 ≡ free_at now (db.leases k))
      × (after.0.leases k ≡ some (next_lease o.owner_token now duration (db.leases k)))
      × (after.0.submissions ≡ db.submissions)
      × ((j : Key) → key_eq k j ≡ false → after.0.leases j ≡ db.leases j)
  unfolding acquire_at
  acquire_contract = rw acquire_capturing_lem (
    ground (arith, key_eq_refl k),
    ground (arith, key_eq_refl k),
    ground arith,
    λ j other. ground arith,
  )

module _ (db : Database) (i : Identity) (o : Options) (now duration : ℕ) (dated : o.now ≡ some now)
    (lasting : ttl o ≡ ok duration) where
  -- With a valid clock and TTL, a renewal succeeds exactly when the caller has authority at that
  -- time, and otherwise changes nothing.
  pub renew_iff_authority :
      let after = renew_capture_lease db i o in
      (has_capture_lease_authority db i now ≡ true
        → (after.1 ≡ ok (after.0.leases i.key))
          × ((t : ℕ) → has_capture_lease_authority after.0 i t ≡ ltb t (now + duration)))
      × (has_capture_lease_authority db i now ≡ false → after ≡ (db, ok none))
  unfolding renew_capture_lease has_capture_lease_authority
  renew_iff_authority = (
    λ h. (ground (arith, key_eq_refl i.key), λ t. ground (arith, key_eq_refl i.key)),
    λ h. ground arith,
  )

-- Once its owner has released a lease, nobody has authority over the key at any time, and the next
-- acquisition there by a valid call is granted with the following generation.
pub release_then_acquire :
    (db : Database) (i : Identity) (l : CaptureLease) (timestamp : ℕ)
    → db.leases i.key ≡ some l
    → l.owner_token ≡ i.owner_token
    → l.fencing_generation ≡ i.fencing_generation
    → let after = release_capture_lease db i timestamp in
      (after.1 ≡ true)
      × ((j : Identity) (t : ℕ) → j.key ≡ i.key → has_capture_lease_authority after.0 j t ≡ false)
      × ((owner now duration : ℕ)
          → let next = next_lease owner now duration (after.0.leases i.key) in
            (next.owner_token ≡ owner)
            × (next.fencing_generation ≡ l.fencing_generation + 1)
            × (next.expires_at ≡ now + duration))
unfolding release_capture_lease has_capture_lease_authority
release_then_acquire db i l timestamp found owner generation = (
  ground (arith, key_eq_refl i.key),
  λ j t same. ground (arith, key_eq_refl i.key),
  λ o now duration. ground (arith, key_eq_refl i.key),
)
