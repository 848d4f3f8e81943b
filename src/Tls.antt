-- ===== src/Tls.antt =====
-- The TLS driver: lib/exmpp-0.9.8-05-g6987a0a/c_src/exmpp_tls.c and exmpp_tls_openssl.c. OpenSSL is not
-- part of the repository: a context is a value of a type `C`, a connection with its two memory BIOs
-- one of a type `S`. This file has the driver's data.
pub mod Hostname
pub mod Verify
pub mod Openssl
pub mod Prepare
pub mod Control
mod Tests
use hz_platform.Prelude.{ℕ, Bool, false, List, [], ◌∷◌, ◌++◌, Option, none, some, ℤ, pos}

-- Where `bio_read` and `bio_write` point to. SSL_set_bio hands them to the connection, and SSL_free
-- frees them with it; `lost` are those of a connection that `ssl` does not point to any longer.
pub data Bios (S : Type 0) : Type 0 where
  unset of_ssl freed : Bios S
  lost : S → Bios S

-- struct exmpp_tls_openssl_data, NULL as `none`.
pub record Data (C S : Type 0) : Type 0 where
  pub mode : ℤ
  pub certificate : Option (List ℕ)
  pub private_key : Option (List ℕ)
  pub verify_peer : Bool
  pub expected_id : Option (List ℕ)
  pub trusted_certs : Option (List ℕ)
  pub peer_cert_required : Bool
  pub accept_expired_cert : Bool
  pub accept_revoked_cert : Bool
  pub accept_non_trusted_cert : Bool
  pub accept_corrupted_cert : Bool
  pub ctx : Option C
  pub ssl : Option S
  pub bios : Bios S

abbrev if_set : Option (List ℕ) → List (List ℕ)
if_set none = []
if_set (some text) = text ∷ []

unfoldable pub exmpp_tls_openssl_start : (C S : Type 0) → Data C S
exmpp_tls_openssl_start C S = record {
  mode = pos 0;
  certificate = none;
  private_key = none;
  verify_peer = false;
  expected_id = none;
  trusted_certs = none;
  peer_cert_required = false;
  accept_expired_cert = false;
  accept_revoked_cert = false;
  accept_non_trusted_cert = false;
  accept_corrupted_cert = false;
  ctx = none;
  ssl = none;
  bios = unset;
}

-- exmpp_tls_openssl_stop: the texts, the connection and the context that are freed.
unfoldable pub exmpp_tls_openssl_stop :
    {C S : Type 0} → Data C S → List (List ℕ) × Option S × Option C
exmpp_tls_openssl_stop edd = (
  if_set edd.certificate
      ++ if_set edd.private_key
      ++ if_set edd.expected_id
      ++ if_set edd.trusted_certs,
  edd.ssl,
  edd.ctx,
)
