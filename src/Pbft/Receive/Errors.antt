-- ===== src/Pbft/Receive/Errors.antt =====
-- The error results of `recvPrePrepare`.
use client_sdk.Prelude.{
  ◌≡◌, ◌↔◌, sym, ◌∙◌, true, false, none, some, arith, inl, inr, has_key, nat_eq, string_eq,
  string_beq_iff, Option-cases,
}
use client_sdk.Pbft.Messages.{Request, PrePrepare}
use client_sdk.Pbft.State.{
  PbftCore, Env, validation_failed, nil_pointer, hash_req, get_cert, set_cert,
}
use client_sdk.Pbft.Quorum.{primary, in_wv}
use client_sdk.Pbft.Receive.{recv_pre_prepare, accept_pre_prepare, store_pre_prepare}

req_store-store_pre_prepare :
    (p : PrePrepare) (c : PbftCore) → (store_pre_prepare p c).req_store ≡ c.req_store
unfolding store_pre_prepare get_cert set_cert
req_store-store_pre_prepare p c = ground arith

-- The pre-prepare passes the guards, and its request is not in the request store.
abbrev pub ReachesRequest : PrePrepare → PbftCore → Type 0
ReachesRequest p c =
    (c.active_view ≡ true)
    × (primary c.view c ≡ p.replica_id)
    × (in_wv p.view p.sequence_number c ≡ true)
    × (has_key p.request_digest c.req_store ≡ false)

module _ (env : Env) (p : PrePrepare) (c : PbftCore) where
  -- A backup dereferences a nil request exactly on a pre-prepare of the primary, in the window, that
  -- carries no request and the digest of no request, where that digest is not in the store.
  pub recv_pre_prepare-nil_pointer_iff :
      ((recv_pre_prepare env p c).1 ≡ nil_pointer)
      ↔ (ReachesRequest p c × (p.request ≡ none) × (p.request_digest ≡ hash_req env none))
  unfolding recv_pre_prepare accept_pre_prepare
  recv_pre_prepare-nil_pointer_iff = elim (Option-cases p.request) [
    | inl missing ↦ ground (
      arith,
      missing,
      req_store-store_pre_prepare p c,
      string_beq_iff (hash_req env none) p.request_digest,
    )
    | inr (req, has) ↦ ground (arith, has)
  ]

  -- It reports a request that does not validate exactly where the request is new, is the one of the
  -- digest, and the consumer refuses its payload.
  pub recv_pre_prepare-validation_failed_iff :
      ((recv_pre_prepare env p c).1 ≡ validation_failed) ↔ (
        ReachesRequest p c
        × (hash_req env p.request ≡ p.request_digest)
        × (req : Request) × (p.request ≡ some req)
        × (env.validate req.payload ≡ false))
  unfolding recv_pre_prepare accept_pre_prepare
  recv_pre_prepare-validation_failed_iff = elim (Option-cases p.request) [
    | inl missing ↦ ground (
      arith,
      missing,
      req_store-store_pre_prepare p c,
      string_beq_iff (hash_req env p.request) p.request_digest,
    )
    | inr (req, has) ↦ (
      λ e.
          let parts : ReachesRequest p c
              × (hash_req env p.request ≡ p.request_digest)
              × (env.validate req.payload ≡ false) =
            ground (
              arith,
              has,
              req_store-store_pre_prepare p c,
              string_beq_iff (hash_req env p.request) p.request_digest,
            ) in
          (parts.0, parts.1, req, has, parts.2),
      λ all.
          let same : some req ≡ some all.2 = sym has ∙ all.3 in
          ground (
            arith,
            has,
            req_store-store_pre_prepare p c,
            string_beq_iff (hash_req env p.request) p.request_digest,
          ),
    )
  ]
