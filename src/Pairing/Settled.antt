-- ===== src/Pairing/Settled.antt =====
-- apps/controller/src/security/pairing.ts: a request that is settled is never opened again, and the
-- delivery of a credential settles one.
use remote_build_orchestrato.Common.{
  ℕ, ◌≡◌, refl, ap, ◌∙◌, Bool, true, false, inl, inr, some, List, [], ◌∷◌, ◌++◌, ok, arith,
  Option-cases,
}
use remote_build_orchestrato.Common.Sort.{In}
use remote_build_orchestrato.Credential.{Agents, Claims, issue_agent_credential}
use remote_build_orchestrato.Pairing.{
  PairingRequestRow, pending, approved, claimed, rejected, expired, Registry, CreatePairingInput,
  is_live, is_some, find_row, update_rows, has_id, get_pairing_request,
  expire_stale_pairing_requests, create_pairing_request, new_row, claim_approved_pairing,
  approve_pairing_request, reject_pairing_request, resolve_to, is_stale, is_claimable,
}

abbrev NotLive : ℕ → List PairingRequestRow → Type 0
NotLive i [] = Unit
NotLive i (r ∷ rs) = (r.id ≡ i → is_live r.state ≡ false) × NotLive i rs

-- The table has the request, and no row of it is pending or approved.
abbrev pub Settled : ℕ → List PairingRequestRow → Type 0
Settled i rs = (is_some (find_row (has_id i) rs) ≡ true) × NotLive i rs

find_row-In :
    (p : PairingRequestRow → Bool) (rs : List PairingRequestRow) (r : PairingRequestRow)
    → find_row p rs ≡ some r
    → In r rs × (p r ≡ true)
find_row-In p [] r h = cc
find_row-In p (x ∷ rs) r h = ground (arith, find_row-In p rs r)

found-NotLive :
    (i : ℕ) (rs : List PairingRequestRow) (r : PairingRequestRow)
    → NotLive i rs
    → In r rs
    → r.id ≡ i
    → is_live r.state ≡ false
found-NotLive i [] r h m e = absurd m
found-NotLive i (x ∷ rs) r h (inl same) e = rw same (h.0 (rw (← same) e))
found-NotLive i (x ∷ rs) r h (inr m) e = found-NotLive i rs r h.1 m e

module _ (p : PairingRequestRow → Bool) (change : PairingRequestRow → PairingRequestRow)
    (same_id : (r : PairingRequestRow) → (change r).id ≡ r.id) where
  update_rows-found :
      (i : ℕ) (rs : List PairingRequestRow)
      → is_some (find_row (has_id i) (update_rows p change rs)) ≡ is_some (find_row (has_id i) rs)
  update_rows-found i [] = refl
  update_rows-found i (r ∷ rs) = ground (arith, same_id r, update_rows-found i rs)

  update_rows-NotLive :
      (i : ℕ) (rs : List PairingRequestRow)
      → ((r : PairingRequestRow) → p r ≡ true → r.id ≡ i → is_live (change r).state ≡ false)
      → NotLive i rs
      → NotLive i (update_rows p change rs)
  update_rows-NotLive i [] shuts h = tt
  update_rows-NotLive i (r ∷ rs) shuts h =
      (ground (arith, same_id r, shuts r), update_rows-NotLive i rs shuts h.1)

  update_rows-Settled :
      (i : ℕ) (rs : List PairingRequestRow)
      → ((r : PairingRequestRow) → p r ≡ true → r.id ≡ i → is_live (change r).state ≡ false)
      → Settled i rs
      → Settled i (update_rows p change rs)
  update_rows-Settled i rs shuts (found, h) =
      (update_rows-found i rs ∙ found, update_rows-NotLive i rs shuts h)

append-found :
    (i : ℕ) (rs : List PairingRequestRow) (r : PairingRequestRow)
    → is_some (find_row (has_id i) rs) ≡ true
    → is_some (find_row (has_id i) (rs ++ r ∷ [])) ≡ true
append-found i [] r h = cc
append-found i (x ∷ rs) r h = ground (arith, append-found i rs r)

append-NotLive :
    (i : ℕ) (rs : List PairingRequestRow) (r : PairingRequestRow)
    → (r.id ≡ i → is_live r.state ≡ false)
    → NotLive i rs
    → NotLive i (rs ++ r ∷ [])
append-NotLive i [] r shut h = (shut, tt)
append-NotLive i (x ∷ rs) r shut h = (h.0, append-NotLive i rs r shut h.1)

expire-Settled :
    (db : Registry) (now i : ℕ)
    → Settled i db.requests
    → Settled i (expire_stale_pairing_requests db now).requests
unfolding expire_stale_pairing_requests
expire-Settled db now i h =
    update_rows-Settled (is_stale now) _ (λ r. refl) i db.requests (λ r s e. refl) h

create-Settled :
    (thumbprint : ℕ → ℕ) (db : Registry) (input : CreatePairingInput) (id code now i : ℕ)
    → Settled i db.requests
    → Settled i (create_pairing_request thumbprint db input id code now).0.requests
unfolding create_pairing_request
create-Settled thumbprint db input id code now i h =
    let swept = expire_stale_pairing_requests db now in
    let kept = expire-Settled db now i h in
    ground (
      arith,
      append-found i swept.requests (new_row thumbprint input id code now),
      append-NotLive i swept.requests (new_row thumbprint input id code now),
    )

-- Approving a pending row leaves the settled requests alone.
approved-Settled :
    (rs : List PairingRequestRow) (request : PairingRequestRow) (agent now i : ℕ)
    → In request rs
    → request.state ≡ pending
    → Settled i rs
    → Settled i (
        update_rows
          (has_id request.id)
          (λ r. record r { state = approved; agent_id = some agent; resolved_at = some now })
          rs)
approved-Settled rs request agent now i m open_now h =
    update_rows-Settled (has_id request.id) _ (λ r. refl) i rs
      (λ r s e. absurd (ground (arith, found-NotLive i rs request h.1 m))) h

approve-Settled :
    (db : Registry) (id agent now i : ℕ)
    → Settled i db.requests
    → Settled i (approve_pairing_request db id agent now).0.requests
unfolding approve_pairing_request
approve-Settled db id agent now i h = elim (Option-cases (get_pairing_request db id)) [
  | inl e ↦ ground arith
  | inr (request, e) ↦
      let m = (find_row-In (has_id id) db.requests request e).0 in
      let closed =
        update_rows-Settled (has_id request.id) (resolve_to expired now) (λ r. refl) i db.requests
          (λ r s q. refl) h in
      ground (arith, approved-Settled db.requests request agent now i m)
]

reject-Settled :
    (db : Registry) (id now i : ℕ)
    → Settled i db.requests
    → Settled i (reject_pairing_request db id now).0.requests
unfolding reject_pairing_request
reject-Settled db id now i h =
    let kept =
      update_rows-Settled (has_id id) (resolve_to rejected now) (λ r. refl) i db.requests
        (λ r s e. refl) h in
    ground arith

claim-Settled :
    (thumbprint : ℕ → ℕ) (db : Registry) (controller_id key now i : ℕ)
    → Settled i db.requests
    → Settled i (claim_approved_pairing thumbprint db controller_id key now).0.requests
unfolding claim_approved_pairing
claim-Settled thumbprint db controller_id key now i h =
    elim (Option-cases (find_row (is_claimable thumbprint key) db.requests)) [
      | inl e ↦ ground arith
      | inr (request, e) ↦
          let kept =
            update_rows-Settled (has_id request.id) (resolve_to claimed now) (λ r. refl) i
              db.requests (λ r s q. refl) h in
          ground arith
    ]

In-found :
    (rs : List PairingRequestRow) (r : PairingRequestRow)
    → In r rs
    → is_some (find_row (has_id r.id) rs) ≡ true
In-found [] r m = absurd m
In-found (x ∷ rs) r (inl same) = ground (arith, ap PairingRequestRow.id same)
In-found (x ∷ rs) r (inr m) = ground (arith, In-found rs r m)

resolved-NotLive :
    (i now : ℕ) (rs : List PairingRequestRow)
    → NotLive i (update_rows (has_id i) (resolve_to claimed now) rs)
resolved-NotLive i now [] = tt
resolved-NotLive i now (r ∷ rs) = (ground arith, resolved-NotLive i now rs)

issued_sub :
    (agents : Agents) (controller_id id now : ℕ) (c : Claims)
    → (issue_agent_credential agents controller_id id now).1 ≡ ok c
    → c.sub ≡ id
unfolding issue_agent_credential
issued_sub agents controller_id id now c h = ground arith

-- The calls that change the table, with the identifiers that they generate.
pub data Call : Type 0 where
  sweeps : ℕ → Call
  creates : CreatePairingInput → ℕ → ℕ → ℕ → Call
  approves : ℕ → ℕ → ℕ → Call
  rejects : ℕ → ℕ → Call
  claims : ℕ → ℕ → ℕ → Call

module _ (thumbprint : ℕ → ℕ) where
  unfoldable pub step : Registry → Call → Registry
  step db (sweeps now) = expire_stale_pairing_requests db now
  step db (creates input id code now) = (create_pairing_request thumbprint db input id code now).0
  step db (approves id agent now) = (approve_pairing_request db id agent now).0
  step db (rejects id now) = (reject_pairing_request db id now).0
  step db (claims controller_id key now) =
      (claim_approved_pairing thumbprint db controller_id key now).0

  unfoldable pub run : Registry → List Call → Registry
  run db [] = db
  run db (c ∷ cs) = run (step db c) cs

  step-Settled :
      (db : Registry) (c : Call) (i : ℕ) → Settled i db.requests → Settled i (step db c).requests
  unfolding step
  step-Settled db (sweeps now) i h = expire-Settled db now i h
  step-Settled db (creates input id code now) i h =
      create-Settled thumbprint db input id code now i h
  step-Settled db (approves id agent now) i h = approve-Settled db id agent now i h
  step-Settled db (rejects id now) i h = reject-Settled db id now i h
  step-Settled db (claims controller_id key now) i h =
      claim-Settled thumbprint db controller_id key now i h

  -- A request that was claimed, rejected or expired is never pending or approved again, whatever
  -- calls follow.
  Settled-forever :
      (db : Registry) (cs : List Call) (i : ℕ)
      → Settled i db.requests
      → Settled i (run db cs).requests
  unfolding run
  Settled-forever db [] i h = h
  Settled-forever db (c ∷ cs) i h = Settled-forever (step db c) cs i (step-Settled db c i h)

  -- A claim that delivers a credential found an approved request of the device's key, delivers the
  -- credential of the Agent of that request, and settles the request: whatever calls follow, no
  -- row of it is pending or approved.
  pub claim_settles :
      (db : Registry) (controller_id key now agent : ℕ) (credential : Claims)
      → let (after, outcome) = claim_approved_pairing thumbprint db controller_id key now in
        outcome ≡ ok (some (agent, credential))
        → (request : PairingRequestRow) × In request db.requests
          × (request.state ≡ approved)
          × (request.device_thumbprint ≡ thumbprint key)
          × (request.agent_id ≡ some agent)
          × (credential.sub ≡ agent)
          × ((cs : List Call) → Settled request.id (run after cs).requests)
  unfolding claim_approved_pairing
  claim_settles db controller_id key now agent credential h =
      elim (Option-cases (find_row (is_claimable thumbprint key) db.requests)) [
        | inl e ↦ absurd (ground arith)
        | inr (request, e) ↦
            let (m, suits) = find_row-In (is_claimable thumbprint key) db.requests request e in
            let after = (claim_approved_pairing thumbprint db controller_id key now).0 in
            let resolved : after.requests
                ≡ update_rows (has_id request.id) (resolve_to claimed now) db.requests =
              ground arith in
            (
              request,
              m,
              ground arith,
              ground arith,
              ground arith,
              ground (arith, issued_sub db.agents controller_id agent now credential),
              λ cs. Settled-forever after cs request.id (
                  rw resolved (
                    update_rows-found (has_id request.id) (resolve_to claimed now) (λ r. refl)
                          request.id db.requests
                        ∙ In-found db.requests request m,
                    resolved-NotLive request.id now db.requests,
                  )),
            )
      ]
