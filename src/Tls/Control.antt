-- ===== src/Tls/Control.antt =====
-- exmpp_tls_openssl_control, for each command. Memory is available, but not for a binary of 2^31 bytes
-- or more.
pub mod Sound
pub mod Ready
pub mod Session
pub mod Expected
use hz_platform.Prelude.{
  ℕ, ◌+◌, ◌-◌, ◌%◌, ◌^◌, Bool, true, false, not, List, [], ◌∷◌, Option, none, some, ℤ, pos, to_int,
  wrap_int, leb, ◌==◌, length, if◌then◌else◌,
}
use hz_platform.Run.{
  Run, ok, fault, heap_overflow, use_after_free, out_of_bounds, null_pointer, ◌>>=◌,
}
use hz_platform.Ei.{Buff, tuple_header, atom, string, long, ulong}
use hz_platform.Ei.Input.{
  Kind, an_atom, a_string, get_type, decode_atom, decode_string, decode_long, decode_ulong,
  decode_boolean, skip_tuple_header, exmpp_skip_version,
}
use hz_platform.Text.{codes, str_eq, up_to_nul}
use hz_platform.Answer.{Answer, reply, bytes, done}
use hz_platform.Tls.{Data, Bios, unset, of_ssl, freed, lost}
use hz_platform.Tls.Verify.{verify_callback}
use hz_platform.Tls.Openssl.{
  Library, Outcome, gives, wants_read, fails, Closing, complete, half, wants_close, close_fails,
  Certificate, no_certificate, undecodable, der,
}
use hz_platform.Tls.Prepare.{init_library}

-- The commands, in the order of their numbers, with the bytes or the terms they are given.
pub data Command : Type 0 where
  set_mode set_identity set_peer_verif set_trusted_certs set_options : Buff → Command
  prepare_handshake handshake : Command
  set_encrypted_input : List ℕ → Command
  get_decrypted_input : Buff → Command
  set_decrypted_output : List ℕ → Command
  get_encrypted_output get_peer_certificate get_verify_result : Command
  shutdown quiet_shutdown port_revision get_peer_finished get_finished : Command
  unknown : ℕ → Command

abbrev pub buf_size : ℕ
buf_size = 1024

-- What the local variables and a new block hold before they are written.
pub record Garbage : Type 0 where
  pub mode : ℤ
  pub name : List ℕ
  pub flag : Bool
  pub data_len : ℕ
  pub block : List ℕ

abbrev pub value_or {ℓ} : {A : Type ℓ} → A → Option A → A
value_or garbage none = garbage
value_or garbage (some a) = a

-- RET_WANT_READ and RET_WANT_WRITE
abbrev pub want_read : Answer
want_read = bytes 2 []

abbrev pub want_write : Answer
want_write = bytes 3 []

abbrev pub refused : List ℕ → Answer
refused reason = reply 1 (atom reason ∷ [])

-- ei_decode_string into a new block of the term's size.
abbrev pub text_of : Garbage → Buff → List ℕ × Buff
text_of garbage buf = value_or (garbage.block, buf) (decode_string buf)

abbrev pub name_of : Garbage → Buff → List ℕ × Buff
name_of garbage buf = value_or (garbage.name, buf) (decode_atom buf)

module _ {S : Type 0} where
  -- A call on `edd->ssl`, which OpenSSL dereferences.
  abbrev pub connection : Option S → Run S
  connection none = fault null_pointer
  connection (some s) = ok s

  -- The connection that owns `bio_read` and `bio_write`.
  abbrev pub owner : Bios S → Option S → Run S
  owner unset ssl = fault null_pointer
  owner of_ssl ssl = connection ssl
  owner freed ssl = fault use_after_free
  owner (lost s) ssl = ok s

module _ {C S : Type 0} where
  abbrev pub unsupported_method : List ℕ → Data C S → Data C S × Answer
  unsupported_method name edd = (
    edd,
    reply 1
        (tuple_header 2 ∷ atom (codes "unsupported_auth_method") ∷ string (up_to_nul name) ∷ []),
  )

  -- COMMAND_SET_IDENTITY and COMMAND_SET_TRUSTED_CERTS, behind the version.
  unfoldable pub identify : Garbage → Buff → Data C S → Data C S × Answer
  identify garbage buf edd =
      let (name, files) = name_of garbage (skip_tuple_header buf) in
      let (certificate, rest) = text_of garbage files in
      let private_key = (text_of garbage rest).0 in
      if not (str_eq (up_to_nul name) (codes "x509"))
      then unsupported_method name edd
      else (record edd { certificate = some certificate; private_key = some private_key }, done)

  unfoldable pub trust : Garbage → Buff → Data C S → Data C S × Answer
  trust garbage buf edd =
      let (name, files) = name_of garbage (skip_tuple_header buf) in
      if not (str_eq (up_to_nul name) (codes "x509"))
      then unsupported_method name edd
      else (record edd { trusted_certs = some (text_of garbage files).0 }, done)

  -- COMMAND_SET_PEER_VERIF, by the type of the term.
  unfoldable pub verify_peer : Garbage → Kind → Buff → Data C S → Data C S
  verify_peer garbage an_atom buf edd = record edd {
    verify_peer = value_or edd.verify_peer (decode_boolean buf);
  }
  verify_peer garbage a_string buf edd = record edd {
    expected_id = some (text_of garbage buf).0;
    verify_peer = true;
  }
  verify_peer garbage _ buf edd = edd

  -- COMMAND_SET_OPTIONS, with the option's name and value.
  unfoldable pub set_option : List ℕ → Bool → Data C S → Data C S × Answer
  set_option name flag edd =
      if str_eq name (codes "peer_cert_required")
      then (record edd { peer_cert_required = flag }, done)
      else (if str_eq name (codes "accept_expired_cert")
          then (record edd { accept_expired_cert = flag }, done)
          else (if str_eq name (codes "accept_non_trusted_cert")
              then (record edd { accept_non_trusted_cert = flag }, done)
              else (if str_eq name (codes "accept_revoked_cert")
                  then (record edd { accept_revoked_cert = flag }, done)
                  else (if str_eq name (codes "accept_corrupted_cert")
                      then (record edd { accept_corrupted_cert = flag }, done)
                      else (
                        edd,
                        reply 1
                            (tuple_header 2 ∷ atom (codes "unsupported_option") ∷ atom name ∷ []),
                      )))))

  unfoldable pub put_back : S → Bios S → Data C S → Data C S
  put_back s (lost old) edd = record edd { bios = lost s }
  put_back s _ edd = record edd { ssl = some s }

-- A binary that SSL_get_finished has filled up to BUF_SIZE bytes, reallocated to the message's length.
abbrev pub finished : List ℕ → Run Answer
finished message =
    if leb (length message) buf_size then ok (bytes 0 message) else fault out_of_bounds

abbrev pub certified : Certificate → Answer
certified (der out) = bytes 0 out
certified _ = refused (codes "no_certificate")

-- An allocation of `rlen` bytes for the status and the bytes that SSL_read puts behind it.
abbrev pub answer_read : ℕ → Outcome (List ℕ) → Run Answer
answer_read rlen (gives out) =
    if leb (1 + length out) rlen then ok (bytes 0 out) else fault heap_overflow
answer_read rlen wants_read = ok want_read
answer_read rlen (fails n) = ok (refused (codes "decrypt_failed"))

abbrev pub answer_write : Outcome ℕ → Answer
answer_write (gives n) = done
answer_write wants_read = want_read
answer_write (fails n) = refused (codes "encrypt_failed")

module _ {C S : Type 0} (lib : Library C S) where
  -- `ret = ERR_get_error()`, an `int`.
  abbrev pub library_error : ℕ → Answer
  library_error n =
      let ret = wrap_int (n % 2 ^ 32) in
      reply 1 (tuple_header 2 ∷ long ret ∷ string (lib.error_string ret) ∷ [])

  abbrev pub answer_handshake : Outcome ℕ → Answer
  answer_handshake (gives n) = done
  answer_handshake wants_read = want_read
  answer_handshake (fails n) = library_error n

  -- The test of COMMAND_SHUTDOWN is for the "close notify" sent before the call.
  abbrev pub answer_shutdown : (was_sent : Bool) → Closing → Answer
  answer_shutdown was_sent complete = if was_sent then done else want_write
  answer_shutdown was_sent half = if was_sent then want_read else want_write
  answer_shutdown was_sent wants_close = want_read
  answer_shutdown was_sent (close_fails n) = library_error n

  -- COMMAND_GET_DECRYPTED_INPUT with a length, `rlen` being an `int`.
  unfoldable pub decrypt : ℕ → Data C S → Run (Data C S × Answer)
  decrypt data_len edd =
      let wanted = if data_len == 0 then buf_size else data_len in
      let rlen = (wanted + 1) % 2 ^ 32 in
      if rlen == 0
      then fault heap_overflow
      else (if leb (2 ^ 31) rlen then fault null_pointer else do
        s ← connection edd.ssl
        let r = lib.ssl_read (verify_callback edd) (rlen - 1) s
        answer ← answer_read rlen r.1
        ok (record edd { ssl = some r.0 }, answer))

  module _ (garbage : Garbage) where
    unfoldable pub exmpp_tls_openssl_control : Command → Data C S → Run (Data C S × Answer)
    exmpp_tls_openssl_control (set_mode buf) edd = do
      terms ← exmpp_skip_version buf
      ok (record edd { mode = to_int (value_or garbage.mode (decode_long terms)) }, done)
    exmpp_tls_openssl_control (set_identity buf) edd = do
      terms ← exmpp_skip_version buf
      ok (identify garbage terms edd)
    exmpp_tls_openssl_control (set_peer_verif buf) edd = do
      terms ← exmpp_skip_version buf
      ok (verify_peer garbage (get_type terms) terms edd, done)
    exmpp_tls_openssl_control (set_trusted_certs buf) edd = do
      terms ← exmpp_skip_version buf
      ok (trust garbage terms edd)
    exmpp_tls_openssl_control (set_options buf) edd = do
      terms ← exmpp_skip_version buf
      let (name, rest) = name_of garbage (skip_tuple_header terms)
      ok (set_option (up_to_nul name) (value_or garbage.flag (decode_boolean rest)) edd)
    exmpp_tls_openssl_control prepare_handshake edd =
        let (edd', failure) = init_library lib edd in ok (edd', value_or done failure)
    exmpp_tls_openssl_control handshake edd = do
      s ← connection edd.ssl
      let r = lib.do_handshake (verify_callback edd) s
      ok (record edd { ssl = some r.0 }, answer_handshake r.1)
    exmpp_tls_openssl_control (set_encrypted_input buf) edd = do
      s ← owner edd.bios edd.ssl
      ok (put_back (lib.bio_write buf s) edd.bios edd, done)
    exmpp_tls_openssl_control (get_decrypted_input buf) edd = do
      terms ← exmpp_skip_version buf
      decrypt (value_or garbage.data_len (decode_ulong terms)) edd
    exmpp_tls_openssl_control (set_decrypted_output buf) edd = do
      s ← connection edd.ssl
      let r = lib.ssl_write (verify_callback edd) buf s
      ok (record edd { ssl = some r.0 }, answer_write r.1)
    exmpp_tls_openssl_control get_encrypted_output edd = do
      s ← owner edd.bios edd.ssl
      let r = lib.bio_read s
      ok (put_back r.0 edd.bios edd, bytes 0 r.1)
    exmpp_tls_openssl_control get_peer_certificate edd =
        ok (edd, certified (lib.get_peer_certificate edd.ssl))
    exmpp_tls_openssl_control get_verify_result edd = do
      s ← connection edd.ssl
      ok (edd, reply 0 (long (lib.get_verify_result s) ∷ []))
    exmpp_tls_openssl_control shutdown edd = do
      s ← connection edd.ssl
      let r = lib.ssl_shutdown s
      ok (record edd { ssl = some r.0 }, answer_shutdown (lib.has_sent_shutdown s) r.1)
    exmpp_tls_openssl_control quiet_shutdown edd = do
      s ← connection edd.ssl
      ok (record edd { ssl = some (lib.quiet_shutdown s) }, done)
    exmpp_tls_openssl_control port_revision edd =
        ok (edd, reply 1 (string (codes "$Revision$") ∷ []))
    exmpp_tls_openssl_control get_peer_finished edd = do
      s ← connection edd.ssl
      answer ← finished (lib.get_peer_finished s)
      ok (edd, answer)
    exmpp_tls_openssl_control get_finished edd = do
      s ← connection edd.ssl
      answer ← finished (lib.get_finished s)
      ok (edd, answer)
    exmpp_tls_openssl_control (unknown n) edd =
        ok (edd, reply 1 (tuple_header 2 ∷ atom (codes "unknown_command") ∷ ulong n ∷ []))
