-- ===== src/Pairing/Scenarios.antt =====
-- A device that asks to be paired, is approved, and claims its credential.
use remote_build_orchestrato.Common.{ℕ, ◌+◌, ◌≡◌, refl, none, some, List, [], ◌∷◌}
use remote_build_orchestrato.Common.Sort.{In}
use remote_build_orchestrato.Credential.{Claims, claims_of}
use remote_build_orchestrato.Pairing.{
  PairingRequestRow, approved, claimed, rejected, Registry, CreatePairingInput, find_row, has_id,
  claim_approved_pairing, create_pairing_request,
}
use remote_build_orchestrato.Pairing.Settled.{
  Call, sweeps, creates, approves, rejects, claims, run, Settled, claim_settles,
}

abbrev digest : ℕ → ℕ
digest key = key + 1000

abbrev device : CreatePairingInput
device = record { device_public_key = 3; display_name = 1; hostname = none; metadata = none }

abbrev no_requests : Registry
no_requests = record { requests = []; agents = λ id. none }

abbrev approved_device : Registry
approved_device = run digest no_requests (creates device 11 123456 0 ∷ approves 11 7 10 ∷ [])

-- While a request of a device lives, a second one gives the same row.
reused :
    let (after, first) = create_pairing_request digest no_requests device 11 123456 0 in
    (create_pairing_request digest after device 12 654321 5).1 ≡ first
unfolding create_pairing_request
reused = refl

claim_settles_example :
    (request : PairingRequestRow) × In request approved_device.requests
    × (request.state ≡ approved)
    × (request.device_thumbprint ≡ 1003)
    × (request.agent_id ≡ some 7)
    × ((claims_of 1 7 1003 1 20).sub ≡ 7)
    × ((cs : List Call)
        → Settled request.id
            (run digest (claim_approved_pairing digest approved_device 1 3 20).0 cs).requests)
unfolding claim_approved_pairing run remote_build_orchestrato.Pairing.Settled.step
    remote_build_orchestrato.Pairing.approve_pairing_request create_pairing_request
    remote_build_orchestrato.Credential.issue_agent_credential
claim_settles_example = claim_settles digest approved_device 1 3 20 7 (claims_of 1 7 1003 1 20) refl

abbrev claimed_device : Registry
claimed_device = run digest approved_device (claims 1 3 20 ∷ [])
