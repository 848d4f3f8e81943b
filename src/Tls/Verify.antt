-- ===== src/Tls/Verify.antt =====
-- verify_callback of exmpp_tls_openssl.c, which OpenSSL calls for each certificate of the peer's chain.
pub mod Identity
use hz_platform.Prelude.{
  ℕ, Bool, true, false, not, ◌&&◌, ◌||◌, List, [], ◌∷◌, Option, none, some, ltb, ◌==◌, length,
  if◌then◌else◌,
}
use hz_platform.Text.{up_to_nul}
use hz_platform.Tls.{Data}
use hz_platform.Tls.Hostname.{match_hostname}

-- The codes X509_V_ERR_* that the callback names.
pub data VerifyError : Type 0 where
  unable_to_get_issuer_cert unable_to_get_crl cert_signature_failure crl_signature_failure :
      VerifyError
  depth_zero_self_signed_cert self_signed_cert_in_chain : VerifyError
  unable_to_get_issuer_cert_locally unable_to_verify_leaf_signature : VerifyError
  cert_chain_too_long invalid_ca path_length_exceeded invalid_purpose : VerifyError
  cert_untrusted cert_rejected subject_issuer_mismatch akid_skid_mismatch : VerifyError
  akid_issuer_serial_mismatch keyusage_no_certsign : VerifyError
  cert_not_yet_valid cert_has_expired crl_not_yet_valid crl_has_expired : VerifyError
  cert_revoked : VerifyError
  unable_to_decrypt_cert_signature unable_to_decrypt_crl_signature : VerifyError
  unable_to_decode_issuer_public_key : VerifyError
  error_in_cert_not_before_field error_in_cert_not_after_field : VerifyError
  error_in_crl_last_update_field error_in_crl_next_update_field : VerifyError
  another_error : VerifyError

-- A GENERAL_NAME: whether its type is GEN_DNS, whether it holds an IA5String, and its bytes, which
-- OpenSSL ends with a 0.
pub record GeneralName : Type 0 where
  pub is_dns : Bool
  pub is_ia5 : Bool
  pub bytes : List ℕ

-- What the callback reads from its X509_STORE_CTX: the error, its depth, and the alternative names of
-- the certificate at it, if it has that extension.
pub record StoreCtx : Type 0 where
  pub error : VerifyError
  pub depth : ℕ
  pub alt_names : Option (List GeneralName)

module _ {C S : Type 0} where
  -- Whether an error is acceptable for the user.
  unfoldable pub is_accepted : VerifyError → Data C S → Bool
  is_accepted unable_to_get_issuer_cert edd = edd.accept_non_trusted_cert
  is_accepted unable_to_get_crl edd = edd.accept_non_trusted_cert
  is_accepted cert_signature_failure edd = edd.accept_non_trusted_cert
  is_accepted crl_signature_failure edd = edd.accept_non_trusted_cert
  is_accepted depth_zero_self_signed_cert edd = edd.accept_non_trusted_cert
  is_accepted self_signed_cert_in_chain edd = edd.accept_non_trusted_cert
  is_accepted unable_to_get_issuer_cert_locally edd = edd.accept_non_trusted_cert
  is_accepted unable_to_verify_leaf_signature edd = edd.accept_non_trusted_cert
  is_accepted cert_chain_too_long edd = edd.accept_non_trusted_cert
  is_accepted invalid_ca edd = edd.accept_non_trusted_cert
  is_accepted path_length_exceeded edd = edd.accept_non_trusted_cert
  is_accepted invalid_purpose edd = edd.accept_non_trusted_cert
  is_accepted cert_untrusted edd = edd.accept_non_trusted_cert
  is_accepted cert_rejected edd = edd.accept_non_trusted_cert
  is_accepted subject_issuer_mismatch edd = edd.accept_non_trusted_cert
  is_accepted akid_skid_mismatch edd = edd.accept_non_trusted_cert
  is_accepted akid_issuer_serial_mismatch edd = edd.accept_non_trusted_cert
  is_accepted keyusage_no_certsign edd = edd.accept_non_trusted_cert
  is_accepted cert_not_yet_valid edd = edd.accept_expired_cert
  is_accepted cert_has_expired edd = edd.accept_expired_cert
  is_accepted crl_not_yet_valid edd = edd.accept_expired_cert
  is_accepted crl_has_expired edd = edd.accept_expired_cert
  is_accepted cert_revoked edd = edd.accept_revoked_cert
  is_accepted unable_to_decrypt_cert_signature edd = edd.accept_corrupted_cert
  is_accepted unable_to_decrypt_crl_signature edd = edd.accept_corrupted_cert
  is_accepted unable_to_decode_issuer_public_key edd = edd.accept_corrupted_cert
  is_accepted error_in_cert_not_before_field edd = edd.accept_corrupted_cert
  is_accepted error_in_cert_not_after_field edd = edd.accept_corrupted_cert
  is_accepted error_in_crl_last_update_field edd = edd.accept_corrupted_cert
  is_accepted error_in_crl_next_update_field edd = edd.accept_corrupted_cert
  is_accepted another_error edd = false

-- A name that is safe to compare: a dNSName without a 0 in it.
abbrev pub is_usable : GeneralName → Bool
is_usable gen = gen.is_dns && gen.is_ia5 && length gen.bytes == length (up_to_nul gen.bytes)

-- The walk over the names. Whether or not it has seen a name that is usable, the callback refuses the
-- certificate when the walk is over.
unfoldable pub match_names : List ℕ → List GeneralName → Bool
match_names expected_id [] = false
match_names expected_id (gen ∷ gens) =
    let rest = match_names expected_id gens in
    if not (is_usable gen)
    then rest
    else (if match_hostname (up_to_nul gen.bytes) (up_to_nul expected_id) then true else rest)

abbrev pub match_extension : List ℕ → Option (List GeneralName) → Bool
match_extension expected_id none = false
match_extension expected_id (some gens) = match_names expected_id gens

-- `depth > 0 || edd->expected_id == NULL`, and the names otherwise.
abbrev pub check_identity : Option (List ℕ) → StoreCtx → Bool
check_identity none x509_ctx = true
check_identity (some id) x509_ctx =
    if ltb 0 x509_ctx.depth then true else match_extension id x509_ctx.alt_names

unfoldable pub verify_callback : {C S : Type 0} → Data C S → (preverify_ok : Bool) → StoreCtx → Bool
verify_callback edd preverify_ok x509_ctx =
    if not preverify_ok && not (is_accepted x509_ctx.error edd)
    then false
    else check_identity edd.expected_id x509_ctx
