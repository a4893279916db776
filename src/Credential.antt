-- ===== src/Credential.antt =====
-- apps/controller/src/security/credentials.ts: the credentials of a paired Agent.
-- A credential is the claims that `signEdDsaJwt` signs; a token whose header or signature
-- `verifyEdDsaJwt` of packages/shared/src/crypto.ts refuses is `none`, and its check of the expiry is
-- verify_eddsa_jwt. `thumbprint` is the digest of a public key. Identifiers, keys and
-- instants are numbers; `exp` is in seconds.
pub mod Rotation
mod Scenarios
use remote_build_orchestrato.Common.{
  ℕ, suc, ◌+◌, ◌*◌, ◌/◌, Bool, true, false, not, ◌&&◌, ◌||◌, Option, none, some, Result, ok, err,
  ◌==◌, leb, if◌then◌else◌,
}

pub record AgentRow : Type 0 where
  pub display_name : ℕ
  pub hostname : Option ℕ
  pub paired_at : ℕ
  pub device_public_key : Option ℕ
  pub device_thumbprint : Option ℕ
  pub credential_version : ℕ
  pub revoked_at : Option ℕ

-- The agents by their primary key.
abbrev pub Agents : Type 0
Agents = ℕ → Option AgentRow

abbrev pub put_agent : Agents → ℕ → AgentRow → Agents
put_agent agents id row j = if j == id then some row else agents j

pub record Claims : Type 0 where
  pub sub : ℕ
  pub aud : ℕ
  pub device_thumbprint : ℕ
  pub credential_version : ℕ
  pub exp : ℕ

pub data CredentialError : Type 0 where
  unknown_agent revoked_agent no_device_key : CredentialError

abbrev pub credential_ttl_seconds : ℕ
credential_ttl_seconds = 30 * 24 * 3600

abbrev pub claims_of : ℕ → ℕ → ℕ → ℕ → ℕ → Claims
claims_of controller_id id key_thumbprint version now_ms = record {
  sub = id;
  aud = controller_id;
  device_thumbprint = key_thumbprint;
  credential_version = version;
  exp = now_ms / 1000 + credential_ttl_seconds;
}

issue_to : Agents → ℕ → ℕ → AgentRow → ℕ → Agents × Result CredentialError Claims
issue_to agents controller_id id row now_ms = elim row.revoked_at [
  | some t ↦ (agents, err revoked_agent)
  | none ↦ elim row.device_thumbprint [
    | none ↦ (agents, err no_device_key)
    | some key_thumbprint ↦
        let version = row.credential_version + 1 in
        (
          put_agent agents id (record row { credential_version = version }),
          ok (claims_of controller_id id key_thumbprint version now_ms),
        )
  ]
]

unfoldable pub issue_agent_credential : Agents → ℕ → ℕ → ℕ → Agents × Result CredentialError Claims
unfolding issue_to
issue_agent_credential agents controller_id id now_ms = elim (agents id) [
  | none ↦ (agents, err unknown_agent)
  | some row ↦ issue_to agents controller_id id row now_ms
]

-- The claims of a token, unless they have expired at `now_ms`.
unfoldable pub verify_eddsa_jwt : Option Claims → ℕ → Option Claims
verify_eddsa_jwt none now_ms = none
verify_eddsa_jwt (some claims) now_ms = if leb claims.exp (now_ms / 1000) then none else some claims

pub record VerifiedCredential : Type 0 where
  pub agent_id : ℕ
  pub device_public_key : ℕ
  pub credential_version : ℕ

module _ (thumbprint : ℕ → ℕ) where
  verify_row : Claims → AgentRow → Option VerifiedCredential
  verify_row claims row = elim row.revoked_at [
    | some t ↦ none
    | none ↦ elim row.device_public_key [
      | none ↦ none
      | some key ↦ elim row.device_thumbprint [
        | none ↦ none
        | some key_thumbprint ↦
            if not (claims.credential_version == row.credential_version)
            then none
            else if not (claims.device_thumbprint == key_thumbprint)
            then none
            else if not (thumbprint key == key_thumbprint)
            then none
            else some (record {
              agent_id = claims.sub;
              device_public_key = key;
              credential_version = row.credential_version;
            })
      ]
    ]
  ]

  verify_claims : Agents → ℕ → Claims → Option VerifiedCredential
  unfolding verify_row
  verify_claims agents controller_id claims =
      if not (claims.aud == controller_id)
      then none
      else elim (agents claims.sub) [ none ↦ none | some row ↦ verify_row claims row ]

  verify_known : Agents → ℕ → Option Claims → Option VerifiedCredential
  unfolding verify_claims
  verify_known agents controller_id none = none
  verify_known agents controller_id (some claims) = verify_claims agents controller_id claims

  unfoldable pub verify_agent_credential :
      Agents → ℕ → Option Claims → ℕ → Option VerifiedCredential
  unfolding verify_eddsa_jwt verify_known
  verify_agent_credential agents controller_id token now_ms =
      verify_known agents controller_id (verify_eddsa_jwt token now_ms)
