-- ===== src/Tls/Control/Ready.antt =====
-- The commands once the handshake is prepared, and what a preparation that fails leaves.
use hz_platform.Prelude.{
  ℕ, ◌+◌, ◌-◌, ◌%◌, ◌^◌, ◌<◌, ◌≤◌, ◌≡◌, refl, sym, ap, ◌∙◌, true, false, List, ◌∷◌, some, leb, ◌==◌,
  length, if◌then◌else◌, arith,
}
use mathlib.Core.Path.{subst}
use hz_platform.Run.{Run, ok, fault, use_after_free, ◌>>=◌, Post, Returns}
use hz_platform.Ei.{Buff, version}
use hz_platform.Ei.Input.{decode_ulong, exmpp_skip_version}
use hz_platform.Text.{up_to_nul}
use hz_platform.Answer.{Answer}
use hz_platform.Tls.{Data, freed}
use hz_platform.Tls.Verify.{verify_callback}
use hz_platform.Tls.Openssl.{Library, Callback, Outcome, gives, wants_read, fails}
use hz_platform.Tls.Prepare.{init_library, set_up, release}
use hz_platform.Tls.Prepare.Sound.{IsSound, IsReady}
use hz_platform.Tls.Control.{
  Command, set_mode, set_identity, set_peer_verif, set_trusted_certs, set_options,
  prepare_handshake, handshake, set_encrypted_input, get_decrypted_input, set_decrypted_output,
  get_encrypted_output, get_peer_certificate, get_verify_result, shutdown, quiet_shutdown,
  port_revision, get_peer_finished, get_finished, unknown, Garbage, buf_size, value_or, connection,
  owner, finished, answer_read, decrypt, exmpp_tls_openssl_control,
}
use hz_platform.Tls.Control.Sound.{control-IsSound}

-- SSL_read gives at most what it is asked for, and the messages of a handshake fit the driver's buffer.
pub record Bounded {C S : Type 0} (lib : Library C S) : Type 0 where
  pub reads :
      (call : Callback) (n : ℕ) (s : S) (out : List ℕ)
      → (lib.ssl_read call n s).1 ≡ gives out
      → length out ≤ n
  pub peer_finished : (s : S) → length (lib.get_peer_finished s) ≤ buf_size
  pub own_finished : (s : S) → length (lib.get_finished s) ≤ buf_size

abbrev pub IsVersioned : Buff → Type 0
IsVersioned buf = (terms : Buff) × (buf ≡ version ∷ terms)

-- A command as Erlang sends it: its terms follow a version, and it asks for a length that an `int` has
-- room for beside the status.
abbrev pub IsWellFormed : Garbage → Command → Type 0
IsWellFormed g (set_mode buf) = IsVersioned buf
IsWellFormed g (set_identity buf) = IsVersioned buf
IsWellFormed g (set_peer_verif buf) = IsVersioned buf
IsWellFormed g (set_trusted_certs buf) = IsVersioned buf
IsWellFormed g (set_options buf) = IsVersioned buf
IsWellFormed g (get_decrypted_input buf) =
    (terms : Buff) × (buf ≡ version ∷ terms)
    × (value_or g.data_len (decode_ulong terms) < 2 ^ 31 - 1)
IsWellFormed g _ = Unit

abbrev IsOk : {R : Type 0} → Run R → Type 0
IsOk {R} run = (value : R) × (run ≡ ok value)

chain :
    {R S : Type 0} (call : Run R) (next : R → Run S)
    → IsOk call
    → ((value : R) → IsOk (next value))
    → IsOk (call >>= next)
chain call next (value, e) h = let (last, e') = h value in (last, ap (λ r. r >>= next) e ∙ e')

skipped : (buf : Buff) → IsVersioned buf → IsOk (exmpp_skip_version buf)
unfolding exmpp_skip_version
skipped buf (terms, e) = (terms, rw e refl)

finished-IsOk : (message : List ℕ) → length message ≤ buf_size → IsOk (finished message)
finished-IsOk message h =
    let fits : leb (length message) buf_size ≡ true = ground arith in
    (Answer.bytes 0 message, rw fits refl)

read-IsOk :
    (rlen : ℕ) (end : Outcome (List ℕ))
    → ((out : List ℕ) → end ≡ gives out → length out < rlen)
    → IsOk (answer_read rlen end)
read-IsOk rlen (gives out) h =
    let short = h out refl in
    let fits : leb (1 + length out) rlen ≡ true = ground arith in (Answer.bytes 0 out, rw fits refl)
read-IsOk rlen wants_read h = (_, refl)
read-IsOk rlen (fails n) h = (_, refl)

abbrev wanted : ℕ → ℕ
wanted n = if n == 0 then buf_size else n

some_length : (n : ℕ) → n < 2 ^ 31 - 1 → ((wanted n + 1) % 2 ^ 32 == 0) ≡ false
some_length n h = ground arith

int_length : (n : ℕ) → n < 2 ^ 31 - 1 → leb (2 ^ 31) ((wanted n + 1) % 2 ^ 32) ≡ false
int_length n h = ground arith

room : (n : ℕ) → n < 2 ^ 31 - 1 → 0 < (wanted n + 1) % 2 ^ 32
room n h = ground arith

module _ {C S : Type 0} where
  connected : (edd : Data C S) → IsReady edd → IsOk (connection edd.ssl)
  connected edd (c, s, ctx, ssl, bios) = (s, rw ssl refl)

  owned : (edd : Data C S) → IsReady edd → IsOk (owner edd.bios edd.ssl)
  owned edd (c, s, ctx, ssl, bios) = (s, rw (bios, ssl) refl)

  sound : (edd : Data C S) → IsReady edd → IsSound edd
  sound edd (c, s, ctx, ssl, bios) = rw (bios, ssl) tt

  module _ (lib : Library C S) (bounded : Bounded lib) where
    decrypt-IsOk :
        (n : ℕ) (edd : Data C S) → n < 2 ^ 31 - 1 → IsReady edd → IsOk (decrypt lib n edd)
    unfolding decrypt
    decrypt-IsOk n edd h ready =
        let rlen = (wanted n + 1) % 2 ^ 32 in
        rw (some_length n h, int_length n h)
          (chain (connection edd.ssl) _ (connected edd ready) (λ s.
            let r = lib.ssl_read (verify_callback edd) (rlen - 1) s in
            chain (answer_read rlen r.1) _
              (read-IsOk rlen r.1 (λ out e.
                omega (arith, room n h, bounded.reads (verify_callback edd) (rlen - 1) s out e)))
              (λ answer. (_, refl))))

    control-IsOk :
        (g : Garbage) (command : Command) (edd : Data C S)
        → IsReady edd
        → IsWellFormed g command
        → IsOk (exmpp_tls_openssl_control lib g command edd)
    unfolding exmpp_tls_openssl_control exmpp_skip_version
    control-IsOk g (set_mode buf) edd ready w = chain _ _ (skipped buf w) (λ _. (_, refl))
    control-IsOk g (set_identity buf) edd ready w = chain _ _ (skipped buf w) (λ _. (_, refl))
    control-IsOk g (set_peer_verif buf) edd ready w = chain _ _ (skipped buf w) (λ _. (_, refl))
    control-IsOk g (set_trusted_certs buf) edd ready w = chain _ _ (skipped buf w) (λ _. (_, refl))
    control-IsOk g (set_options buf) edd ready w = chain _ _ (skipped buf w) (λ _. (_, refl))
    control-IsOk g prepare_handshake edd ready w = (_, refl)
    control-IsOk g handshake edd ready w = chain _ _ (connected edd ready) (λ _. (_, refl))
    control-IsOk g (set_encrypted_input buf) edd ready w =
        chain _ _ (owned edd ready) (λ _. (_, refl))
    control-IsOk g (get_decrypted_input buf) edd ready (terms, e, short) =
        subst (λ b. IsOk (exmpp_tls_openssl_control lib g (get_decrypted_input b) edd)) (sym e)
          (decrypt-IsOk (value_or g.data_len (decode_ulong terms)) edd short ready)
    control-IsOk g (set_decrypted_output buf) edd ready w =
        chain _ _ (connected edd ready) (λ _. (_, refl))
    control-IsOk g get_encrypted_output edd ready w = chain _ _ (owned edd ready) (λ _. (_, refl))
    control-IsOk g get_peer_certificate edd ready w = (_, refl)
    control-IsOk g get_verify_result edd ready w = chain _ _ (connected edd ready) (λ _. (_, refl))
    control-IsOk g shutdown edd ready w = chain _ _ (connected edd ready) (λ _. (_, refl))
    control-IsOk g quiet_shutdown edd ready w = chain _ _ (connected edd ready) (λ _. (_, refl))
    control-IsOk g port_revision edd ready w = (_, refl)
    control-IsOk g get_peer_finished edd ready w = chain _ _ (connected edd ready) (λ s.
        chain _ _ (finished-IsOk (lib.get_peer_finished s) (bounded.peer_finished s))
          (λ _. (_, refl)))
    control-IsOk g get_finished edd ready w = chain _ _ (connected edd ready) (λ s.
        chain _ _ (finished-IsOk (lib.get_finished s) (bounded.own_finished s)) (λ _. (_, refl)))
    control-IsOk g (unknown n) edd ready w = (_, refl)

    -- Once the handshake is prepared, every command as Erlang sends it returns, without a fault, if
    -- OpenSSL writes no more than it is asked for; and it leaves the BIOs those of the connection
    -- exactly if there still is one.
    pub control-Returns :
        (g : Garbage) (command : Command) (edd : Data C S)
        → IsReady edd
        → IsWellFormed g command
        → Returns (exmpp_tls_openssl_control lib g command edd) (λ r. IsSound r.0)
    control-Returns g command edd ready w =
        let (r, e) = control-IsOk g command edd ready w in
        (
          r,
          e,
          subst (Post (λ (x : Data C S × Answer). IsSound x.0)) e
              (control-IsSound lib g command edd (sound edd ready)),
        )

  module _ (lib : Library C S) (g : Garbage) where
    freed_bios :
        (edd : Data C S) (c : C) (file : List ℕ)
        → IsReady edd
        → lib.ctx_new ≡ some c
        → edd.certificate ≡ some file
        → ((c' : C) → (lib.use_certificate_chain_file (up_to_nul file) c').1 ≡ false)
        → (init_library lib edd).0.bios ≡ freed
    unfolding init_library set_up release
    freed_bios edd c file (c0, s, ctx, ssl, bios) created set bad =
        rw (created, set, bad, ssl, bios) refl

    use_freed :
        (edd : Data C S)
        → edd.bios ≡ freed
        → exmpp_tls_openssl_control lib g get_encrypted_output edd ≡ fault use_after_free
    unfolding exmpp_tls_openssl_control
    use_freed edd e = rw e refl

    -- If the handshake is prepared again, with a certificate that does not load, then the driver keeps
    -- pointing to the BIOs of the connection that it has freed, and the next command that reads the
    -- encrypted output uses them.
    pub failed_prepare_dangles :
        (edd : Data C S) (c : C) (file : List ℕ)
        → IsReady edd
        → lib.ctx_new ≡ some c
        → edd.certificate ≡ some file
        → ((c' : C) → (lib.use_certificate_chain_file (up_to_nul file) c').1 ≡ false)
        → (exmpp_tls_openssl_control lib g prepare_handshake edd >>= λ r.
            exmpp_tls_openssl_control lib g get_encrypted_output r.0)
          ≡ fault use_after_free
    unfolding exmpp_tls_openssl_control
    failed_prepare_dangles edd c file ready created set bad =
        use_freed (init_library lib edd).0 (freed_bios edd c file ready created set bad)
