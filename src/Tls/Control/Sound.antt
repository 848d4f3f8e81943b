-- ===== src/Tls/Control/Sound.antt =====
-- The connection and its BIOs, over all commands.
use hz_platform.Prelude.{
  ℕ, ◌+◌, ◌-◌, ◌%◌, ◌^◌, ◌≡◌, refl, sym, Bool, not, List, Option, none, some, leb, ◌==◌,
  if◌then◌else◌, on_both,
}
use mathlib.Core.Path.{subst}
use hz_platform.Run.{Run, ok, fault, ◌>>=◌, Post}
use hz_platform.Ei.{Buff}
use hz_platform.Ei.Input.{
  Kind, an_atom, a_string, small_integer, integer, other, get_type, skip_tuple_header,
  decode_boolean, exmpp_skip_version,
}
use hz_platform.Text.{codes, str_eq, up_to_nul}
use hz_platform.Answer.{Answer, done}
use hz_platform.Tls.{Data, Bios, unset, of_ssl, freed, lost}
use hz_platform.Tls.Verify.{verify_callback}
use hz_platform.Tls.Openssl.{Library}
use hz_platform.Tls.Prepare.{init_library}
use hz_platform.Tls.Prepare.Sound.{Agree, IsSound, AllOrNothing, init_library-AllOrNothing}
use hz_platform.Tls.Control.{
  Command, set_mode, set_identity, set_peer_verif, set_trusted_certs, set_options,
  prepare_handshake, handshake, set_encrypted_input, get_decrypted_input, set_decrypted_output,
  get_encrypted_output, get_peer_certificate, get_verify_result, shutdown, quiet_shutdown,
  port_revision, get_peer_finished, get_finished, unknown, Garbage, buf_size, value_or, name_of,
  identify, trust, verify_peer, set_option, connection, owner, put_back, finished, answer_read,
  decrypt, exmpp_tls_openssl_control,
}

module _ {S : Type 0} where
  same_owner : (s s' : S) (bios : Bios S) → Agree (some s) bios → Agree (some s') bios
  same_owner s s' of_ssl h = tt
  same_owner s s' unset h = h
  same_owner s s' freed h = h
  same_owner s s' (lost old) h = h

  same_lost : (ssl : Option S) (s s' : S) → Agree ssl (lost s) → Agree ssl (lost s')
  same_lost none s s' h = tt
  same_lost (some ssl) s s' h = h

  -- Another value of a connection that there is.
  renewed :
      (s s' : S) (ssl : Option S) (bios : Bios S)
      → ssl ≡ some s
      → Agree ssl bios
      → Agree (some s') bios
  renewed s s' ssl bios e h = same_owner s s' bios (subst (λ o. Agree o bios) e h)

module _ {C S : Type 0} where
  abbrev Sound : Data C S × Answer → Type 0
  Sound r = IsSound r.0

  behind :
      {R : Type 0} (call : Run R) (next : R → Run (Data C S × Answer))
      → ((value : R) → Post Sound (next value))
      → Post Sound (call >>= next)
  behind (fault e) next h = tt
  behind (ok value) next h = h value

  with_connection :
      (ssl : Option S) (next : S → Run (Data C S × Answer))
      → ((s : S) → ssl ≡ some s → Post Sound (next s))
      → Post Sound (connection ssl >>= next)
  with_connection none next h = tt
  with_connection (some s) next h = h s refl

  with_owner :
      (edd : Data C S) (bios : Bios S) (f : S → S) (answer : S → Answer)
      → edd.bios ≡ bios
      → IsSound edd
      → Post Sound (owner bios edd.ssl >>= λ s. ok (put_back (f s) bios edd, answer s))
  unfolding put_back
  with_owner edd unset f answer e h = tt
  with_owner edd freed f answer e h = tt
  with_owner edd of_ssl f answer e h =
      with_connection edd.ssl _ (λ s found. subst (Agree (some (f s))) (sym e) tt)
  with_owner edd (lost s) f answer e h = same_lost edd.ssl s (f s) (subst (Agree edd.ssl) e h)

  identify-IsSound :
      (g : Garbage) (buf : Buff) (edd : Data C S) → IsSound edd → Sound (identify g buf edd)
  unfolding identify
  identify-IsSound g buf edd h =
      on_both Sound (not (str_eq (up_to_nul (name_of g (skip_tuple_header buf)).0) (codes "x509")))
        (λ _. h) (λ _. h)

  trust-IsSound :
      (g : Garbage) (buf : Buff) (edd : Data C S) → IsSound edd → Sound (trust g buf edd)
  unfolding trust
  trust-IsSound g buf edd h =
      on_both Sound (not (str_eq (up_to_nul (name_of g (skip_tuple_header buf)).0) (codes "x509")))
        (λ _. h) (λ _. h)

  verify_peer-IsSound :
      (g : Garbage) (kind : Kind) (buf : Buff) (edd : Data C S)
      → IsSound edd
      → IsSound (verify_peer g kind buf edd)
  unfolding verify_peer
  verify_peer-IsSound g an_atom buf edd h = h
  verify_peer-IsSound g a_string buf edd h = h
  verify_peer-IsSound g small_integer buf edd h = h
  verify_peer-IsSound g integer buf edd h = h
  verify_peer-IsSound g other buf edd h = h

  set_option-IsSound :
      (name : List ℕ) (flag : Bool) (edd : Data C S)
      → IsSound edd
      → Sound (set_option name flag edd)
  unfolding set_option
  set_option-IsSound name flag edd h =
      on_both Sound (str_eq name (codes "peer_cert_required")) (λ _. h)
        (λ _.
          on_both Sound (str_eq name (codes "accept_expired_cert")) (λ _. h)
            (λ _.
              on_both Sound (str_eq name (codes "accept_non_trusted_cert")) (λ _. h)
                (λ _.
                  on_both Sound (str_eq name (codes "accept_revoked_cert")) (λ _. h)
                    (λ _.
                      on_both Sound (str_eq name (codes "accept_corrupted_cert")) (λ _. h)
                        (λ _. h)))))

  prepared_lem : (r : Data C S × Option Answer) → AllOrNothing r → Sound (r.0, value_or done r.1)
  prepared_lem (edd, none) h = h.1
  prepared_lem (edd, some failure) h = h.1

  module _ (lib : Library C S) where
    decrypt-IsSound : (n : ℕ) (edd : Data C S) → IsSound edd → Post Sound (decrypt lib n edd)
    unfolding decrypt
    decrypt-IsSound n edd h =
        let wanted = if n == 0 then buf_size else n in
        let rlen = (wanted + 1) % 2 ^ 32 in
        on_both (Post Sound) (rlen == 0) (λ _. tt)
          (λ _.
            on_both (Post Sound) (leb (2 ^ 31) rlen) (λ _. tt)
              (λ _. with_connection edd.ssl _ (λ s e.
                let r = lib.ssl_read (verify_callback edd) (rlen - 1) s in
                behind (answer_read rlen r.1) _ (λ answer. renewed s r.0 edd.ssl edd.bios e h))))

    -- If the BIOs are those of the connection exactly while there is one, then that is so behind every
    -- command that returns.
    pub control-IsSound :
        (garbage : Garbage) (command : Command) (edd : Data C S)
        → IsSound edd
        → Post (λ r. IsSound r.0) (exmpp_tls_openssl_control lib garbage command edd)
    unfolding exmpp_tls_openssl_control
    control-IsSound g (set_mode buf) edd h = behind (exmpp_skip_version buf) _ (λ terms. h)
    control-IsSound g (set_identity buf) edd h =
        behind (exmpp_skip_version buf) _ (λ terms. identify-IsSound g terms edd h)
    control-IsSound g (set_peer_verif buf) edd h =
        behind (exmpp_skip_version buf) _
          (λ terms. verify_peer-IsSound g (get_type terms) terms edd h)
    control-IsSound g (set_trusted_certs buf) edd h =
        behind (exmpp_skip_version buf) _ (λ terms. trust-IsSound g terms edd h)
    control-IsSound g (set_options buf) edd h = behind (exmpp_skip_version buf) _ (λ terms.
        let (name, rest) = name_of g (skip_tuple_header terms) in
        set_option-IsSound (up_to_nul name) (value_or g.flag (decode_boolean rest)) edd h)
    control-IsSound g prepare_handshake edd h =
        prepared_lem (init_library lib edd) (init_library-AllOrNothing lib edd h)
    control-IsSound g handshake edd h =
        with_connection edd.ssl _
          (λ s e. renewed s (lib.do_handshake (verify_callback edd) s).0 edd.ssl edd.bios e h)
    control-IsSound g (set_encrypted_input buf) edd h =
        with_owner edd edd.bios (lib.bio_write buf) (λ s. done) refl h
    control-IsSound g (get_decrypted_input buf) edd h =
        behind (exmpp_skip_version buf) _ (λ terms. decrypt-IsSound _ edd h)
    control-IsSound g (set_decrypted_output buf) edd h =
        with_connection edd.ssl _
          (λ s e. renewed s (lib.ssl_write (verify_callback edd) buf s).0 edd.ssl edd.bios e h)
    control-IsSound g get_encrypted_output edd h =
        with_owner edd edd.bios (λ s. (lib.bio_read s).0) (λ s. Answer.bytes 0 (lib.bio_read s).1)
          refl h
    control-IsSound g get_peer_certificate edd h = h
    control-IsSound g get_verify_result edd h = with_connection edd.ssl _ (λ s e. h)
    control-IsSound g shutdown edd h =
        with_connection edd.ssl _ (λ s e. renewed s (lib.ssl_shutdown s).0 edd.ssl edd.bios e h)
    control-IsSound g quiet_shutdown edd h =
        with_connection edd.ssl _ (λ s e. renewed s (lib.quiet_shutdown s) edd.ssl edd.bios e h)
    control-IsSound g port_revision edd h = h
    control-IsSound g get_peer_finished edd h =
        with_connection edd.ssl _ (λ s e. behind (finished (lib.get_peer_finished s)) _ (λ a. h))
    control-IsSound g get_finished edd h =
        with_connection edd.ssl _ (λ s e. behind (finished (lib.get_finished s)) _ (λ a. h))
    control-IsSound g (unknown n) edd h = h
