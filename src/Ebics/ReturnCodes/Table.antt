-- ===== src/Ebics/ReturnCodes/Table.antt =====
-- The return codes that the engine names: `_TABLE` of painfree/ebics3/returncodes.py.
use painfree_ebics_middlewar.Prelude.{List, [], ◌∷◌}
use painfree_ebics_middlewar.Ebics.ReturnCodes.Defs.{ReturnCode, Family, Disposition, named}

-- `_TABLE`, in the order of the source.
unfoldable pub table : List ReturnCode
unfolding named
table =
    named "000000" "EBICS_OK" Family.success Disposition.success
    ∷ named "011000" "EBICS_DOWNLOAD_POSTPROCESS_DONE" Family.transaction Disposition.completed
    ∷ named "011001" "EBICS_DOWNLOAD_POSTPROCESS_SKIPPED" Family.transaction Disposition.completed
    ∷ named "011101" "EBICS_TX_SEGMENT_NUMBER_UNDERRUN" Family.transaction Disposition.terminal
    ∷ named "011301" "EBICS_NO_ONLINE_CHECKS" Family.technical Disposition.notice
    ∷ named "031001" "EBICS_ORDER_PARAMS_IGNORED" Family.technical Disposition.notice
    ∷ named "061001" "EBICS_AUTHENTICATION_FAILED" Family.authentication Disposition.terminal
    ∷ named "061002" "EBICS_INVALID_REQUEST" Family.technical Disposition.terminal
    ∷ named "061099" "EBICS_INTERNAL_ERROR" Family.technical Disposition.retryable
    ∷ named "061101" "EBICS_TX_RECOVERY_SYNC" Family.transaction Disposition.recoverable
    ∷ named "090003" "EBICS_AUTHORISATION_ORDER_TYPE_FAILED" Family.business Disposition.terminal
    ∷ named "090004" "EBICS_INVALID_ORDER_DATA_FORMAT" Family.business Disposition.terminal
    ∷ named "090005" "EBICS_NO_DOWNLOAD_DATA_AVAILABLE" Family.transaction Disposition.completed
    ∷ named "090006" "EBICS_UNSUPPORTED_REQUEST_FOR_ORDER_INSTANCE" Family.business
        Disposition.terminal
    ∷ named "091001" "EBICS_DOWNLOAD_SIGNED_ONLY" Family.business Disposition.terminal
    ∷ named "091002" "EBICS_INVALID_USER_OR_USER_STATE" Family.authentication Disposition.terminal
    ∷ named "091003" "EBICS_USER_UNKNOWN" Family.authentication Disposition.terminal
    ∷ named "091004" "EBICS_INVALID_USER_STATE" Family.authentication Disposition.terminal
    ∷ named "091005" "EBICS_INVALID_ORDER_TYPE" Family.business Disposition.terminal
    ∷ named "091006" "EBICS_UNSUPPORTED_ORDER_TYPE" Family.business Disposition.terminal
    ∷ named "091007" "EBICS_DISTRIBUTED_SIGNATURE_AUTHORISATION_FAILED" Family.business
        Disposition.terminal
    ∷ named "091008" "EBICS_BANK_PUBKEY_UPDATE_REQUIRED" Family.key_management Disposition.terminal
    ∷ named "091009" "EBICS_SEGMENT_SIZE_EXCEEDED" Family.transaction Disposition.terminal
    ∷ named "091010" "EBICS_INVALID_XML" Family.technical Disposition.terminal
    ∷ named "091011" "EBICS_INVALID_HOST_ID" Family.technical Disposition.terminal
    ∷ named "091101" "EBICS_TX_UNKNOWN_TXID" Family.transaction Disposition.terminal
    ∷ named "091102" "EBICS_TX_ABORT" Family.transaction Disposition.terminal
    ∷ named "091103" "EBICS_TX_MESSAGE_REPLAY" Family.transaction Disposition.terminal
    ∷ named "091104" "EBICS_TX_SEGMENT_NUMBER_EXCEEDED" Family.transaction Disposition.terminal
    ∷ named "091105" "EBICS_RECOVERY_NOT_SUPPORTED" Family.transaction Disposition.terminal
    ∷ named "091111" "EBICS_INVALID_SIGNATURE_FILE_FORMAT" Family.business Disposition.terminal
    ∷ named "091112" "EBICS_INVALID_ORDER_PARAMS" Family.business Disposition.terminal
    ∷ named "091113" "EBICS_INVALID_REQUEST_CONTENT" Family.technical Disposition.terminal
    ∷ named "091114" "EBICS_ORDERID_UNKNOWN" Family.business Disposition.terminal
    ∷ named "091115" "EBICS_ORDERID_ALREADY_EXISTS" Family.business Disposition.terminal
    ∷ named "091116" "EBICS_PROCESSING_ERROR" Family.business Disposition.terminal
    ∷ named "091117" "EBICS_MAX_ORDER_DATA_SIZE_EXCEEDED" Family.transaction Disposition.terminal
    ∷ named "091118" "EBICS_MAX_SEGMENTS_EXCEEDED" Family.transaction Disposition.terminal
    ∷ named "091119" "EBICS_MAX_TRANSACTIONS_EXCEEDED" Family.transaction Disposition.retryable
    ∷ named "091120" "EBICS_PARTNER_ID_MISMATCH" Family.business Disposition.terminal
    ∷ named "091121" "EBICS_INCOMPATIBLE_ORDER_ATTRIBUTE" Family.business Disposition.terminal
    ∷ named "091201" "EBICS_KEYMGMT_UNSUPPORTED_VERSION_SIGNATURE" Family.key_management
        Disposition.terminal
    ∷ named "091202" "EBICS_KEYMGMT_UNSUPPORTED_VERSION_AUTHENTICATION" Family.key_management
        Disposition.terminal
    ∷ named "091203" "EBICS_KEYMGMT_UNSUPPORTED_VERSION_ENCRYPTION" Family.key_management
        Disposition.terminal
    ∷ named "091204" "EBICS_KEYMGMT_KEYLENGTH_ERROR_SIGNATURE" Family.key_management
        Disposition.terminal
    ∷ named "091205" "EBICS_KEYMGMT_KEYLENGTH_ERROR_AUTHENTICATION" Family.key_management
        Disposition.terminal
    ∷ named "091206" "EBICS_KEYMGMT_KEYLENGTH_ERROR_ENCRYPTION" Family.key_management
        Disposition.terminal
    ∷ named "091207" "EBICS_KEYMGMT_NO_X509_SUPPORT" Family.key_management Disposition.terminal
    ∷ named "091208" "EBICS_X509_CERTIFICATE_EXPIRED" Family.key_management Disposition.terminal
    ∷ named "091209" "EBICS_X509_CERTIFICATE_NOT_VALID_YET" Family.key_management
        Disposition.terminal
    ∷ named "091210" "EBICS_X509_WRONG_KEY_USAGE" Family.key_management Disposition.terminal
    ∷ named "091211" "EBICS_X509_WRONG_ALGORITHM" Family.key_management Disposition.terminal
    ∷ named "091212" "EBICS_X509_INVALID_THUMBPRINT" Family.key_management Disposition.terminal
    ∷ named "091213" "EBICS_X509_CTL_INVALID" Family.key_management Disposition.terminal
    ∷ named "091214" "EBICS_X509_UNKNOWN_CERTIFICATE_AUTHORITY" Family.key_management
        Disposition.terminal
    ∷ named "091215" "EBICS_X509_INVALID_POLICY" Family.key_management Disposition.terminal
    ∷ named "091216" "EBICS_X509_INVALID_BASIC_CONSTRAINTS" Family.key_management
        Disposition.terminal
    ∷ named "091217" "EBICS_ONLY_X509_SUPPORT" Family.key_management Disposition.terminal
    ∷ named "091218" "EBICS_KEYMGMT_DUPLICATE_KEY" Family.key_management Disposition.terminal
    ∷ named "091219" "EBICS_CERTIFICATES_VALIDATION_ERROR" Family.key_management
        Disposition.terminal
    ∷ named "091301" "EBICS_SIGNATURE_VERIFICATION_FAILED" Family.business Disposition.terminal
    ∷ named "091302" "EBICS_ACCOUNT_AUTHORISATION_FAILED" Family.business Disposition.terminal
    ∷ named "091303" "EBICS_AMOUNT_CHECK_FAILED" Family.business Disposition.terminal
    ∷ named "091304" "EBICS_SIGNER_UNKNOWN" Family.business Disposition.terminal
    ∷ named "091305" "EBICS_INVALID_SIGNER_STATE" Family.business Disposition.terminal
    ∷ named "091306" "EBICS_DUPLICATE_SIGNATURE" Family.business Disposition.terminal
    ∷ []
