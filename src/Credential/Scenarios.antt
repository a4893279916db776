-- ===== src/Credential/Scenarios.antt =====
-- An Agent whose credential is issued twice.
use remote_build_orchestrato.Common.{ℕ, ◌+◌, ◌≡◌, refl, false, none, some, ok, ◌==◌, if◌then◌else◌}
use remote_build_orchestrato.Credential.{
  Agents, AgentRow, Claims, claims_of, issue_agent_credential, verify_agent_credential,
}
use remote_build_orchestrato.Credential.Rotation.{Enrolled, issued-verifies, older_refused}

abbrev digest : ℕ → ℕ
digest key = key + 1000

abbrev builder : AgentRow
builder = record {
  display_name = 1;
  hostname = none;
  paired_at = 5000;
  device_public_key = some 3;
  device_thumbprint = some 1003;
  credential_version = 4;
  revoked_at = none;
}

abbrev agents : Agents
agents id = if id == 7 then some builder else none

abbrev builder_enrolled : Enrolled digest agents 7
builder_enrolled = record {
  row = builder;
  key = 3;
  stored = refl;
  in_force = refl;
  keyed = refl;
  printed = refl;
}

issued-verifies_example :
    let (after, issued) = issue_agent_credential agents 1 7 9000 in
    (claims : Claims) × (issued ≡ ok claims)
    × (verify_agent_credential digest after 1 (some claims) 2592008000
        ≡ some (record { agent_id = 7; device_public_key = 3; credential_version = 5 }))
    × ((j : ℕ) → (j == 7) ≡ false → after j ≡ agents j)
issued-verifies_example = issued-verifies digest agents 1 7 9000 builder_enrolled 2592008000

older_refused_example :
    let after = (issue_agent_credential agents 1 7 9000).0 in
    verify_agent_credential digest after 1 (some (claims_of 1 7 1003 4 8000)) 9000 ≡ none
unfolding verify_agent_credential
older_refused_example =
    older_refused digest agents 1 7 9000 (claims_of 1 7 1003 4 8000)
      (record { agent_id = 7; device_public_key = 3; credential_version = 4 }) 8500 9000 refl refl

expired :
    let (after, issued) = issue_agent_credential agents 1 7 9000 in
    verify_agent_credential digest after 1 (some (claims_of 1 7 1003 5 9000)) 2592009000 ≡ none
unfolding verify_agent_credential issue_agent_credential
expired = refl
