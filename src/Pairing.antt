-- ===== src/Pairing.antt =====
-- apps/controller/src/security/pairing.ts: how a device is paired as an Agent.
-- The pairing requests are the rows in the order of their insertion. The reads of the clock within
-- one call give one instant, in milliseconds; the identifiers that a call generates and the
-- one-time code are arguments, and a generated identifier that the table has violates its primary
-- key. A query that can match several rows takes the first.
pub mod Settled
mod Scenarios
use remote_build_orchestrato.Common.{
  ℕ, suc, ◌+◌, ◌*◌, Bool, true, false, not, ◌&&◌, ◌||◌, Option, none, some, List, [], ◌∷◌, ◌++◌,
  Result, ok, err, ltb, leb, ◌==◌, if◌then◌else◌,
}
use remote_build_orchestrato.Credential.{
  Agents, AgentRow, put_agent, Claims, CredentialError, issue_agent_credential,
}

abbrev pub pairing_ttl_ms : ℕ
pairing_ttl_ms = 15 * 60 * 1000

pub data PairingState : Type 0 where
  pending approved claimed rejected expired : PairingState

pub record PairingRequestRow : Type 0 where
  pub id : ℕ
  pub device_public_key : ℕ
  pub device_thumbprint : ℕ
  pub display_name : ℕ
  pub hostname : Option ℕ
  pub metadata_json : Option ℕ
  pub one_time_code : ℕ
  pub state : PairingState
  pub agent_id : Option ℕ
  pub created_at : ℕ
  pub expires_at : ℕ
  pub resolved_at : Option ℕ

pub record CreatePairingInput : Type 0 where
  pub device_public_key : ℕ
  pub display_name : ℕ
  pub hostname : Option ℕ
  pub metadata : Option ℕ

pub record Registry : Type 0 where
  pub requests : List PairingRequestRow
  pub agents : Agents

pub data PairingError : Type 0 where
  unknown_request not_pending has_expired key_taken : PairingError
  credential : CredentialError → PairingError

abbrev pub is_live : PairingState → Bool
is_live pending = true
is_live approved = true
is_live claimed = false
is_live rejected = false
is_live expired = false

abbrev is_pending : PairingState → Bool
is_pending pending = true
is_pending approved = false
is_pending claimed = false
is_pending rejected = false
is_pending expired = false

abbrev is_approved : PairingState → Bool
is_approved pending = false
is_approved approved = true
is_approved claimed = false
is_approved rejected = false
is_approved expired = false

-- The first row that a query matches.
abbrev pub find_row : (PairingRequestRow → Bool) → List PairingRequestRow → Option PairingRequestRow
find_row p [] = none
find_row p (r ∷ rs) = let later = find_row p rs in if p r then some r else later

-- UPDATE of the rows that a condition selects.
abbrev pub update_rows :
    (PairingRequestRow → Bool)
    → (PairingRequestRow → PairingRequestRow)
    → List PairingRequestRow
    → List PairingRequestRow
update_rows p change [] = []
update_rows p change (r ∷ rs) = (if p r then change r else r) ∷ update_rows p change rs

abbrev pub has_id : ℕ → PairingRequestRow → Bool
has_id id r = r.id == id

abbrev pub get_pairing_request : Registry → ℕ → Option PairingRequestRow
get_pairing_request db id = find_row (has_id id) db.requests

abbrev coalesce : Option ℕ → ℕ → Option ℕ
coalesce none b = some b
coalesce (some a) b = some a

abbrev is_stale : ℕ → PairingRequestRow → Bool
is_stale now r = is_live r.state && leb r.expires_at now

unfoldable pub expire_stale_pairing_requests : Registry → ℕ → Registry
expire_stale_pairing_requests db now = record db {
  requests =
      update_rows (is_stale now)
        (λ r. record r { state = expired; resolved_at = coalesce r.resolved_at now }) db.requests;
}

abbrev pub resolve_to : PairingState → ℕ → PairingRequestRow → PairingRequestRow
resolve_to state now r = record r { state = state; resolved_at = some now }

abbrev is_some : {A : Type 0} → Option A → Bool
is_some none = false
is_some (some a) = true

module _ (thumbprint : ℕ → ℕ) where
  abbrev is_reusable : ℕ → ℕ → PairingRequestRow → Bool
  is_reusable key now r =
      r.device_thumbprint == thumbprint key && is_live r.state && ltb now r.expires_at

  abbrev pub new_row : CreatePairingInput → ℕ → ℕ → ℕ → PairingRequestRow
  new_row input id code now = record {
    id = id;
    device_public_key = input.device_public_key;
    device_thumbprint = thumbprint input.device_public_key;
    display_name = input.display_name;
    hostname = input.hostname;
    metadata_json = input.metadata;
    one_time_code = code;
    state = pending;
    agent_id = none;
    created_at = now;
    expires_at = now + pairing_ttl_ms;
    resolved_at = none;
  }

  insert_row : Registry → PairingRequestRow → Registry × Result PairingError PairingRequestRow
  insert_row db row =
      if is_some (get_pairing_request db row.id)
      then (db, err key_taken)
      else (record db { requests = db.requests ++ row ∷ [] }, ok row)

  unfoldable pub create_pairing_request :
      Registry → CreatePairingInput → ℕ → ℕ → ℕ → Registry × Result PairingError PairingRequestRow
  unfolding expire_stale_pairing_requests insert_row
  create_pairing_request db input id code now =
      let swept = expire_stale_pairing_requests db now in
      elim (find_row (is_reusable input.device_public_key now) swept.requests) [
        | some existing ↦ (swept, ok existing)
        | none ↦ insert_row swept (new_row input id code now)
      ]

  abbrev is_claimable : ℕ → PairingRequestRow → Bool
  is_claimable key r =
      r.device_thumbprint == thumbprint key && is_approved r.state && is_some r.agent_id

  claim_row :
      Registry
      → ℕ
      → PairingRequestRow
      → ℕ
      → ℕ
      → Registry × Result PairingError (Option (ℕ × Claims))
  claim_row db controller_id request agent now =
      let (agents, issued) = issue_agent_credential db.agents controller_id agent now in
      elim issued [
        | err e ↦ (db, err (credential e))
        | ok claims ↦ (
          record {
            requests = update_rows (has_id request.id) (resolve_to claimed now) db.requests;
            agents = agents;
          },
          ok (some (agent, claims)),
        )
      ]

  unfoldable pub claim_approved_pairing :
      Registry → ℕ → ℕ → ℕ → Registry × Result PairingError (Option (ℕ × Claims))
  unfolding claim_row
  claim_approved_pairing db controller_id key now = elim (find_row (is_claimable key) db.requests) [
    | none ↦ (db, ok none)
    | some request ↦ elim request.agent_id [
      | none ↦ (db, ok none)
      | some agent ↦ claim_row db controller_id request agent now
    ]
  ]

abbrev enrolled_agent : PairingRequestRow → ℕ → AgentRow
enrolled_agent r now = record {
  display_name = r.display_name;
  hostname = r.hostname;
  paired_at = now;
  device_public_key = some r.device_public_key;
  device_thumbprint = some r.device_thumbprint;
  credential_version = 0;
  revoked_at = none;
}

approve_row : Registry → PairingRequestRow → ℕ → ℕ → Registry × Result PairingError ℕ
approve_row db request agent now =
    if not (is_pending request.state)
    then (db, err not_pending)
    else if leb request.expires_at now
    then (
      record db { requests = update_rows (has_id request.id) (resolve_to expired now) db.requests },
      err has_expired,
    )
    else if is_some (db.agents agent)
    then (db, err key_taken)
    else (
      record {
        requests =
            update_rows (has_id request.id)
              (λ r. record r { state = approved; agent_id = some agent; resolved_at = some now })
              db.requests;
        agents = put_agent db.agents agent (enrolled_agent request now);
      },
      ok agent,
    )

-- `agent` is the generated identifier of the new Agent.
unfoldable pub approve_pairing_request : Registry → ℕ → ℕ → ℕ → Registry × Result PairingError ℕ
unfolding approve_row
approve_pairing_request db id agent now = elim (get_pairing_request db id) [
  | none ↦ (db, err unknown_request)
  | some request ↦ approve_row db request agent now
]

unfoldable pub reject_pairing_request : Registry → ℕ → ℕ → Registry × Result PairingError (Unit {0})
reject_pairing_request db id now = elim (get_pairing_request db id) [
  | none ↦ (db, err unknown_request)
  | some request ↦ (
    record db { requests = update_rows (has_id id) (resolve_to rejected now) db.requests },
    ok tt,
  )
]
