-- ===== src/Credential/Rotation.antt =====
-- apps/controller/src/security/credentials.ts: issuing a credential rotates it.
use remote_build_orchestrato.Common.{
  ℕ, ◌+◌, ◌≡◌, false, none, some, ok, arith, ltb, ◌*◌, ◌/◌, ◌==◌, if◌then◌else◌,
}
use remote_build_orchestrato.Credential.{
  AgentRow, Agents, Claims, claims_of, issue_agent_credential, verify_agent_credential,
  VerifiedCredential,
}

-- An Agent that may hold a credential: not revoked, with a key on record that has its thumbprint.
pub record Enrolled (thumbprint : ℕ → ℕ) (agents : Agents) (id : ℕ) : Type 0 where
  pub row : AgentRow
  pub key : ℕ
  pub stored : agents id ≡ some row
  pub in_force : row.revoked_at ≡ none
  pub keyed : row.device_public_key ≡ some key
  pub printed : row.device_thumbprint ≡ some (thumbprint key)

module _ (thumbprint : ℕ → ℕ) (agents : Agents) (controller_id id now_ms : ℕ) where
  -- The credential of an enrolled Agent verifies from its issue on for thirty days, counted in whole
  -- seconds, and no longer: as that Agent with the key on record and the next version. The other
  -- Agents are left as they were.
  pub issued-verifies :
      (e : Enrolled thumbprint agents id) (at_ms : ℕ)
      → let (after, issued) = issue_agent_credential agents controller_id id now_ms in
        (claims : Claims) × (issued ≡ ok claims)
        × (verify_agent_credential thumbprint after controller_id (some claims) at_ms ≡ (
            if ltb (at_ms / 1000) (now_ms / 1000 + 30 * 24 * 3600)
            then some (record {
              agent_id = id;
              device_public_key = e.key;
              credential_version = e.row.credential_version + 1;
            })
            else none))
        × ((j : ℕ) → (j == id) ≡ false → after j ≡ agents j)
  unfolding issue_agent_credential verify_agent_credential
  issued-verifies e at_ms = (
    claims_of controller_id id (thumbprint e.key) (e.row.credential_version + 1) now_ms,
    ground arith,
    ground arith,
    λ j other. ground arith,
  )

  -- Issuing a credential ends the ones before: a credential that verified for the Agent at some time
  -- no longer does at any time.
  pub older_refused :
      (older : Claims) (v : VerifiedCredential) (before_ms at_ms : ℕ)
      → older.sub ≡ id
      → verify_agent_credential thumbprint agents controller_id (some older) before_ms ≡ some v
      → let after = (issue_agent_credential agents controller_id id now_ms).0 in
        verify_agent_credential thumbprint after controller_id (some older) at_ms ≡ none
  unfolding issue_agent_credential verify_agent_credential
  older_refused older v before_ms at_ms same h = ground arith
