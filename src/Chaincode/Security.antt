-- ===== src/Chaincode/Security.antt =====
-- The encryption of a chaincode's state with the context of its transaction.
use client_sdk.Prelude.{ℕ, String, Bool, true, false, not, Option, none, some, List, if◌then◌else◌}
use client_sdk.Chaincode.{
  chaincode_deploy, chaincode_invoke, chaincode_query, other_kind, HandlerEnv,
}
use client_sdk.Chaincode.Handler.{Handler, get_tx_context}

module _ (E : HandlerEnv) where
  -- The encryptor of a transaction, with the transaction that deployed the chaincode; an error and a nil encryptor are both refused.
  unfoldable pub encryptor : Option E.Tx → E.Tx → Option E.Enc
  encryptor deploy tx =
      let refused : Option (Option E.Enc) → Option E.Enc =
        λ o. elim o [ none ↦ none | some enc ↦ enc ] in
      elim (E.tx_kind tx) [
        | chaincode_deploy ↦ refused (E.get_state_encryptor deploy deploy)
        | chaincode_invoke ↦ refused (E.get_state_encryptor deploy (some tx))
        | chaincode_query ↦ refused (E.get_state_encryptor deploy (some tx))
        | other_kind ↦ none
      ]

  unfoldable pub encrypt_or_decrypt : Bool → String → List ℕ → Handler E → Option (List ℕ)
  encrypt_or_decrypt encrypting uuid payload h =
      if not E.has_sec_helper then some payload else elim (get_tx_context E uuid h) [
        | none ↦ none
        | some ctx ↦ elim ctx.transaction_sec_context [
          | none ↦ none
          | some tx ↦
              if E.is_public tx then some payload else elim (encryptor h.deploy_tx_sec_context tx) [
                | none ↦ none
                | some enc ↦ if encrypting then E.encrypt enc payload else E.decrypt enc payload
              ]
        ]
      ]

  unfoldable pub decrypt : String → List ℕ → Handler E → Option (List ℕ)
  decrypt = encrypt_or_decrypt false

  unfoldable pub encrypt : String → List ℕ → Handler E → Option (List ℕ)
  encrypt = encrypt_or_decrypt true
