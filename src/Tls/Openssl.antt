-- ===== src/Tls/Openssl.antt =====
-- What the driver asks of OpenSSL.
use hz_platform.Prelude.{ℕ, Bool, List, Option, ℤ}
use hz_platform.Tls.Verify.{StoreCtx}

-- The settings of a context.
pub data Setting : Type 0 where
  no_sslv2 no_ticket session_cache_off release_buffers : Setting
  single_dh_use tmp_dh single_ecdh_use tmp_ecdh : Setting
  cipher_list : List ℕ → Setting
  -- SSL_VERIFY_PEER with SSL_VERIFY_CLIENT_ONCE, and SSL_VERIFY_FAIL_IF_NO_PEER_CERT.
  verify : (peer fail_if_no_cert : Bool) → Setting

-- How a call ends: with a positive return value, or by what SSL_get_error tells, the first code in
-- OpenSSL's queue being the argument of an error.
pub data Outcome (A : Type 0) : Type 0 where
  gives : A → Outcome A
  wants_read : Outcome A
  fails : ℕ → Outcome A

-- What SSL_shutdown returns: 1, 0, or a negative value.
pub data Closing : Type 0 where
  complete half : Closing
  wants_close : Closing
  close_fails : ℕ → Closing

-- A certificate of the peer, as the bytes of i2d_X509 if that succeeds.
pub data Certificate : Type 0 where
  no_certificate undecodable : Certificate
  der : List ℕ → Certificate

-- A verification callback: what OpenSSL made of a certificate, and whether to go on.
abbrev pub Callback : Type 0
Callback = Bool → StoreCtx → Bool

-- The calls, and how OpenSSL was built: whether there are the parameters for ephemeral keys, and
-- SSL_MODE_RELEASE_BUFFERS. `bio_write` puts bytes into the BIO that the connection reads from,
-- `bio_read` takes all of the one that it writes to. SSL_get_peer_certificate looks whether there is
-- a connection, and is called without one too.
pub record Library (C S : Type 0) : Type 0 where
  pub has_dh : Bool
  pub has_ecdh : Bool
  pub has_release_buffers : Bool
  pub ctx_new : Option C
  pub configure : Setting → C → C
  pub use_certificate_chain_file : List ℕ → C → C × Bool
  pub use_private_key_file : List ℕ → C → C × Bool
  pub load_verify_locations : List ℕ → C → C × Bool
  pub ssl_new : C → Option S
  pub set_bio : S → S
  pub set_accept_state : S → S
  pub set_connect_state : S → S
  pub do_handshake : Callback → S → S × Outcome ℕ
  pub ssl_read : Callback → ℕ → S → S × Outcome (List ℕ)
  pub ssl_write : Callback → List ℕ → S → S × Outcome ℕ
  pub bio_write : List ℕ → S → S
  pub bio_read : S → S × List ℕ
  pub get_peer_certificate : Option S → Certificate
  pub get_verify_result : S → ℤ
  pub has_sent_shutdown : S → Bool
  pub ssl_shutdown : S → S × Closing
  pub quiet_shutdown : S → S
  pub get_peer_finished : S → List ℕ
  pub get_finished : S → List ℕ
  pub error_string : ℤ → List ℕ
