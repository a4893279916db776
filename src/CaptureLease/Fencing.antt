-- ===== src/CaptureLease/Fencing.antt =====
-- apps/controller/src/jobs/capture-lease.ts: what every call does to the generation and the owner
-- of a lease, over any sequence of calls.
use remote_build_orchestrato.Common.{
  ℕ, ◌<◌, ◌≡◌, ◌≢◌, refl, subst, ◌⊎◌, inl, inr, Bool, true, false, Option, none, some, List, [],
  ◌∷◌, ok, arith, Option-cases, Bool-cases,
}
use remote_build_orchestrato.Submission.{
  Key, key_eq, key_eq_refl, key_eq_iff, Table, put, SubmissionRow, reserve_submission,
}
use remote_build_orchestrato.CaptureLease.{
  CaptureLease, Identity, Database, Options, Call, reserve, acquire, renew, reclaim, release,
  complete, update_lease, reclaim_at, reclaim_expired_capture_lease, insert_lease, acquire_at,
  acquire_capture_lease, reserve_capture_lease, renew_capture_lease, release_capture_lease,
  has_capture_lease_authority, step, run,
}

-- A lease stays, and keeps its owner unless its generation grows.
abbrev pub Advances : Option CaptureLease → Option CaptureLease → Type 0
Advances none after = Unit
Advances (some l) none = ⊥
Advances (some l) (some m) =
    (l.fencing_generation < m.fencing_generation)
    ⊎ ((l.fencing_generation ≡ m.fencing_generation) × (l.owner_token ≡ m.owner_token))

Advances-refl : (o : Option CaptureLease) → Advances o o
Advances-refl none = tt
Advances-refl (some l) = inr (refl, refl)

Advances-trans : (a b c : Option CaptureLease) → Advances a b → Advances b c → Advances a c
Advances-trans none b c h k = tt
Advances-trans (some l) none c h k = absurd h
Advances-trans (some l) (some m) none h k = absurd k
Advances-trans (some l) (some m) (some n) h k = grind arith

put-Advances :
    (t : Table CaptureLease) (k j : Key) (l : CaptureLease)
    → Advances (t k) (some l)
    → Advances (t j) (put t k l j)
put-Advances t k j l h = elim (Bool-cases (key_eq k j)) [
  | inl same ↦ rw same (subst (λ i. Advances (t i) (some l)) ((key_eq_iff k j).0 same) h)
  | inr other ↦ rw other (Advances-refl (t j))
]

module _ (db : Database) (k j : Key) where
  update_lease-Advances :
      (condition : CaptureLease → Bool) (change : CaptureLease → CaptureLease)
      → ((l : CaptureLease) → condition l ≡ true → Advances (some l) (some (change l)))
      → Advances (db.leases j) ((update_lease db k condition change).0.leases j)
  update_lease-Advances condition change h = go (db.leases k) refl
    where
      go :
          (o : Option CaptureLease)
          → db.leases k ≡ o
          → Advances (db.leases j) ((update_lease db k condition change).0.leases j)
      go none e = rw (e, update_lease) (Advances-refl (db.leases j))
      go (some l) e = elim (Bool-cases (condition l)) [
        | inl held ↦
            rw (e, update_lease) (rw held (put-Advances db.leases k j (change l) (rw e (h l held))))
        | inr failing ↦ rw (e, update_lease) (rw failing (Advances-refl (db.leases j)))
      ]

  reclaim_at-Advances :
      (token generation owner now duration : ℕ)
      → Advances (db.leases j) ((reclaim_at db k token generation owner now duration).0.leases j)
  unfolding reclaim_at
  reclaim_at-Advances token generation owner now duration =
      update_lease-Advances _ _ (λ l h. inl (omega arith))

  insert_lease-Advances :
      (l : CaptureLease) → Advances (db.leases j) ((insert_lease db k l).0.leases j)
  unfolding insert_lease
  insert_lease-Advances l =
      ground (arith, put-Advances db.leases k j l, Advances-refl (db.leases j))

  acquire_at-Advances :
      (submission : SubmissionRow) (owner now duration : ℕ)
      → Advances (db.leases j) ((acquire_at db k submission owner now duration).0.leases j)
  unfolding acquire_at
  acquire_at-Advances submission owner now duration = elim (Option-cases (db.leases k)) [
    | inl e ↦ ground (arith, put-Advances db.leases k j, Advances-refl (db.leases j))
    | inr (l, e) ↦ ground (
      arith,
      Advances-refl (db.leases j),
      reclaim_at-Advances l.owner_token l.fencing_generation owner now duration,
    )
  ]

  acquire_capture_lease-Advances :
      (o : Options) → Advances (db.leases j) ((acquire_capture_lease db k o).0.leases j)
  unfolding acquire_capture_lease
  acquire_capture_lease-Advances o = grind (arith, Advances-refl (db.leases j), acquire_at-Advances)

reserve_capture_lease-Advances :
    (db : Database) (k j : Key) (timestamp : ℕ) (o : Options)
    → Advances (db.leases j) ((reserve_capture_lease db k timestamp o).0.leases j)
unfolding reserve_capture_lease
reserve_capture_lease-Advances db k j timestamp o =
    let after : Database = record db {
      submissions = (reserve_submission db.submissions k timestamp).0;
    } in
    ground (arith, Advances-refl (db.leases j), acquire_capture_lease-Advances after k j o)

renew_capture_lease-Advances :
    (db : Database) (i : Identity) (j : Key) (o : Options)
    → Advances (db.leases j) ((renew_capture_lease db i o).0.leases j)
unfolding renew_capture_lease
renew_capture_lease-Advances db i j o =
    ground (arith, Advances-refl (db.leases j), put-Advances db.leases i.key j)

reclaim_expired_capture_lease-Advances :
    (db : Database) (k j : Key) (token generation : ℕ) (o : Options)
    → Advances (db.leases j) ((reclaim_expired_capture_lease db k token generation o).0.leases j)
unfolding reclaim_expired_capture_lease
reclaim_expired_capture_lease-Advances db k j token generation o =
    ground (arith, Advances-refl (db.leases j), put-Advances db.leases k j)

release_capture_lease-Advances :
    (db : Database) (i : Identity) (j : Key) (timestamp : ℕ)
    → Advances (db.leases j) ((release_capture_lease db i timestamp).0.leases j)
unfolding release_capture_lease
release_capture_lease-Advances db i j timestamp =
    update_lease-Advances db i.key j _ _ (λ l h. inr (refl, refl))

step-Advances : (db : Database) (c : Call) (j : Key) → Advances (db.leases j) ((step db c).leases j)
unfolding step
step-Advances db (reserve k timestamp o) j = reserve_capture_lease-Advances db k j timestamp o
step-Advances db (acquire k o) j = acquire_capture_lease-Advances db k j o
step-Advances db (renew i o) j = renew_capture_lease-Advances db i j o
step-Advances db (reclaim k token generation o) j =
    reclaim_expired_capture_lease-Advances db k j token generation o
step-Advances db (release i timestamp) j = release_capture_lease-Advances db i j timestamp
step-Advances db (complete k state payload job now) j = Advances-refl (db.leases j)

-- Over any calls, on any keys, a lease never disappears, its generation never falls, and its owner
-- changes only with its generation.
run-Advances :
    (db : Database) (cs : List Call) (j : Key) → Advances (db.leases j) ((run db cs).leases j)
unfolding run
run-Advances db [] j = Advances-refl (db.leases j)
run-Advances db (c ∷ cs) j =
    Advances-trans (db.leases j) ((step db c).leases j) ((run (step db c) cs).leases j)
      (step-Advances db c j) (run-Advances (step db c) cs j)

-- An identity whose generation the lease has passed, or whose owner the lease of its generation
-- does not have.
abbrev pub Superseded : Identity → Option CaptureLease → Type 0
Superseded i none = ⊥
Superseded i (some l) =
    (i.fencing_generation < l.fencing_generation)
    ⊎ ((i.fencing_generation ≡ l.fencing_generation) × (i.owner_token ≢ l.owner_token))

Superseded-Advances :
    (i : Identity) (o o' : Option CaptureLease) → Superseded i o → Advances o o' → Superseded i o'
Superseded-Advances i none o' s a = absurd s
Superseded-Advances i (some l) none s a = absurd a
Superseded-Advances i (some l) (some m) s a = grind arith

Superseded-no_authority :
    (db : Database) (i : Identity) (now : ℕ)
    → Superseded i (db.leases i.key)
    → has_capture_lease_authority db i now ≡ false
unfolding has_capture_lease_authority
Superseded-no_authority db i now s = ground arith

-- A superseded identity has no authority, at any time, after any further calls.
pub Superseded-forever :
    (db : Database) (i : Identity) (cs : List Call) (now : ℕ)
    → Superseded i (db.leases i.key)
    → has_capture_lease_authority (run db cs) i now ≡ false
Superseded-forever db i cs now s = Superseded-no_authority (run db cs) i now (
    Superseded-Advances i (db.leases i.key) ((run db cs).leases i.key) s (run-Advances db cs i.key))

reclaim-Superseded :
    (db : Database) (i : Identity) (o : Options)
    → (reclaim_expired_capture_lease db i.key i.owner_token i.fencing_generation o).1 ≡ ok true
    → Superseded i (
        (reclaim_expired_capture_lease db i.key i.owner_token i.fencing_generation o).0.leases
          i.key)
unfolding reclaim_expired_capture_lease
reclaim-Superseded db i o h = ground (arith, key_eq_refl i.key)

-- A successful reclaim of the lease that an identity observed fences that identity out: after any
-- further calls it has no authority at any time.
pub reclaim_fences :
    (db : Database) (i : Identity) (o : Options) (cs : List Call) (now : ℕ)
    → (reclaim_expired_capture_lease db i.key i.owner_token i.fencing_generation o).1 ≡ ok true
    → has_capture_lease_authority
        (run (reclaim_expired_capture_lease db i.key i.owner_token i.fencing_generation o).0 cs)
        i
        now
      ≡ false
reclaim_fences db i o cs now h =
    Superseded-forever
      (reclaim_expired_capture_lease db i.key i.owner_token i.fencing_generation o).0 i cs now
      (reclaim-Superseded db i o h)

-- Whoever has authority over a key after further calls is the one that had it before, or has a
-- greater generation: two owners of one generation never both have it.
pub later_authority :
    (db : Database) (i j : Identity) (cs : List Call) (now later : ℕ)
    → i.key ≡ j.key
    → has_capture_lease_authority db i now ≡ true
    → has_capture_lease_authority (run db cs) j later ≡ true
    → (j ≡ i) ⊎ (i.fencing_generation < j.fencing_generation)
unfolding has_capture_lease_authority
later_authority db i j cs now later e h h' = ground (arith, run-Advances db cs i.key)
