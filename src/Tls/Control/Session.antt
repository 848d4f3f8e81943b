-- ===== src/Tls/Control/Session.antt =====
-- Sequences of commands, from the preparation of the handshake on.
use hz_platform.Prelude.{
  ℕ, suc, ◌+◌, ◌-◌, ◌%◌, ◌^◌, ◌≡◌, refl, sym, ap, Bool, true, false, not, List, [], ◌∷◌, Option,
  none, some, leb, ◌==◌, if◌then◌else◌, on_both, length,
}
use mathlib.Core.Path.{subst}
use mathlib.Core.Bool.{true≢false}
use hz_platform.Run.{Run, ok, fault, ◌>>=◌, Post, Returns}
use hz_platform.Ei.{Buff}
use hz_platform.Ei.Input.{
  Kind, an_atom, a_string, small_integer, integer, other, get_type, skip_tuple_header,
  decode_boolean, exmpp_skip_version,
}
use hz_platform.Text.{codes, str_eq, up_to_nul}
use hz_platform.Answer.{Answer}
use hz_platform.Tls.{Data, Bios, of_ssl}
use hz_platform.Tls.Verify.{verify_callback}
use hz_platform.Tls.Openssl.{Library}
use hz_platform.Tls.Prepare.{init_library}
use hz_platform.Tls.Prepare.Sound.{IsSound, IsReady, AllOrNothing, init_library-AllOrNothing}
use hz_platform.Tls.Control.{
  Command, set_mode, set_identity, set_peer_verif, set_trusted_certs, set_options,
  prepare_handshake, handshake, set_encrypted_input, get_decrypted_input, set_decrypted_output,
  get_encrypted_output, get_peer_certificate, get_verify_result, shutdown, quiet_shutdown,
  port_revision, get_peer_finished, get_finished, unknown, Garbage, buf_size, value_or, name_of,
  identify, trust, verify_peer, set_option, connection, owner, put_back, finished, answer_read,
  decrypt, exmpp_tls_openssl_control,
}
use hz_platform.Tls.Control.Ready.{Bounded, IsWellFormed, control-Returns}

-- A command that leaves the preparation as it is.
abbrev pub is_prepare : Command → Bool
is_prepare prepare_handshake = true
is_prepare _ = false

-- Commands as Erlang sends them, and none that prepares the handshake.
abbrev pub IsUsual : List (Garbage × Command) → Type 0
IsUsual [] = Unit
IsUsual ((garbage, command) ∷ rest) =
    (is_prepare command ≡ false) × IsWellFormed garbage command × IsUsual rest

module _ {C S : Type 0} where
  abbrev Ready : Data C S × Answer → Type 0
  Ready r = IsReady r.0

  behind :
      {R : Type 0} (call : Run R) (next : R → Run (Data C S × Answer))
      → ((value : R) → Post Ready (next value))
      → Post Ready (call >>= next)
  behind (fault e) next h = tt
  behind (ok value) next h = h value

  renewed : (edd : Data C S) (s : S) → IsReady edd → IsReady (record edd { ssl = some s })
  renewed edd s (c, s', ctx, ssl, bios) = (c, s, ctx, refl, bios)

  put_back_lem :
      (s : S) (bios : Bios S) (edd : Data C S)
      → bios ≡ of_ssl
      → put_back s bios edd ≡ record edd { ssl = some s }
  unfolding put_back
  put_back_lem s bios edd e = rw e refl

  put_back-IsReady : (s : S) (edd : Data C S) → IsReady edd → IsReady (put_back s edd.bios edd)
  put_back-IsReady s edd (c, s', ctx, ssl, bios) =
      subst IsReady (sym (put_back_lem s edd.bios edd bios)) (c, s, ctx, refl, bios)

  identify-IsReady :
      (g : Garbage) (buf : Buff) (edd : Data C S) → IsReady edd → Ready (identify g buf edd)
  unfolding identify
  identify-IsReady g buf edd h =
      on_both Ready (not (str_eq (up_to_nul (name_of g (skip_tuple_header buf)).0) (codes "x509")))
        (λ _. h) (λ _. h)

  trust-IsReady :
      (g : Garbage) (buf : Buff) (edd : Data C S) → IsReady edd → Ready (trust g buf edd)
  unfolding trust
  trust-IsReady g buf edd h =
      on_both Ready (not (str_eq (up_to_nul (name_of g (skip_tuple_header buf)).0) (codes "x509")))
        (λ _. h) (λ _. h)

  verify_peer-IsReady :
      (g : Garbage) (kind : Kind) (buf : Buff) (edd : Data C S)
      → IsReady edd
      → IsReady (verify_peer g kind buf edd)
  unfolding verify_peer
  verify_peer-IsReady g an_atom buf edd h = h
  verify_peer-IsReady g a_string buf edd h = h
  verify_peer-IsReady g small_integer buf edd h = h
  verify_peer-IsReady g integer buf edd h = h
  verify_peer-IsReady g other buf edd h = h

  set_option-IsReady :
      (name : List ℕ) (flag : Bool) (edd : Data C S)
      → IsReady edd
      → Ready (set_option name flag edd)
  unfolding set_option
  set_option-IsReady name flag edd h =
      on_both Ready (str_eq name (codes "peer_cert_required")) (λ _. h)
        (λ _.
          on_both Ready (str_eq name (codes "accept_expired_cert")) (λ _. h)
            (λ _.
              on_both Ready (str_eq name (codes "accept_non_trusted_cert")) (λ _. h)
                (λ _.
                  on_both Ready (str_eq name (codes "accept_revoked_cert")) (λ _. h)
                    (λ _.
                      on_both Ready (str_eq name (codes "accept_corrupted_cert")) (λ _. h)
                        (λ _. h)))))

  module _ (lib : Library C S) where
    decrypt-IsReady : (n : ℕ) (edd : Data C S) → IsReady edd → Post Ready (decrypt lib n edd)
    unfolding decrypt
    decrypt-IsReady n edd h =
        let wanted = if n == 0 then buf_size else n in
        let rlen = (wanted + 1) % 2 ^ 32 in
        on_both (Post Ready) (rlen == 0) (λ _. tt)
          (λ _.
            on_both (Post Ready) (leb (2 ^ 31) rlen) (λ _. tt)
              (λ _. behind (connection edd.ssl) _ (λ s.
                let r = lib.ssl_read (verify_callback edd) (rlen - 1) s in
                behind (answer_read rlen r.1) _ (λ answer. renewed edd r.0 h))))

    -- Once the handshake is prepared, it stays so behind every other command that returns.
    pub control-IsReady :
        (garbage : Garbage) (command : Command) (edd : Data C S)
        → is_prepare command ≡ false
        → IsReady edd
        → Post (λ r. IsReady r.0) (exmpp_tls_openssl_control lib garbage command edd)
    unfolding exmpp_tls_openssl_control
    control-IsReady g (set_mode buf) edd e h = behind (exmpp_skip_version buf) _ (λ terms. h)
    control-IsReady g (set_identity buf) edd e h =
        behind (exmpp_skip_version buf) _ (λ terms. identify-IsReady g terms edd h)
    control-IsReady g (set_peer_verif buf) edd e h =
        behind (exmpp_skip_version buf) _
          (λ terms. verify_peer-IsReady g (get_type terms) terms edd h)
    control-IsReady g (set_trusted_certs buf) edd e h =
        behind (exmpp_skip_version buf) _ (λ terms. trust-IsReady g terms edd h)
    control-IsReady g (set_options buf) edd e h = behind (exmpp_skip_version buf) _ (λ terms.
        let (name, rest) = name_of g (skip_tuple_header terms) in
        set_option-IsReady (up_to_nul name) (value_or g.flag (decode_boolean rest)) edd h)
    control-IsReady g prepare_handshake edd e h = absurd (true≢false e)
    control-IsReady g handshake edd e h =
        behind (connection edd.ssl) _
          (λ s. renewed edd (lib.do_handshake (verify_callback edd) s).0 h)
    control-IsReady g (set_encrypted_input buf) edd e h =
        behind (owner edd.bios edd.ssl) _ (λ s. put_back-IsReady (lib.bio_write buf s) edd h)
    control-IsReady g (get_decrypted_input buf) edd e h =
        behind (exmpp_skip_version buf) _ (λ terms. decrypt-IsReady _ edd h)
    control-IsReady g (set_decrypted_output buf) edd e h =
        behind (connection edd.ssl) _
          (λ s. renewed edd (lib.ssl_write (verify_callback edd) buf s).0 h)
    control-IsReady g get_encrypted_output edd e h =
        behind (owner edd.bios edd.ssl) _ (λ s. put_back-IsReady (lib.bio_read s).0 edd h)
    control-IsReady g get_peer_certificate edd e h = h
    control-IsReady g get_verify_result edd e h = behind (connection edd.ssl) _ (λ s. h)
    control-IsReady g shutdown edd e h =
        behind (connection edd.ssl) _ (λ s. renewed edd (lib.ssl_shutdown s).0 h)
    control-IsReady g quiet_shutdown edd e h =
        behind (connection edd.ssl) _ (λ s. renewed edd (lib.quiet_shutdown s) h)
    control-IsReady g port_revision edd e h = h
    control-IsReady g get_peer_finished edd e h =
        behind (connection edd.ssl) _ (λ s. behind (finished (lib.get_peer_finished s)) _ (λ a. h))
    control-IsReady g get_finished edd e h =
        behind (connection edd.ssl) _ (λ s. behind (finished (lib.get_finished s)) _ (λ a. h))
    control-IsReady g (unknown n) edd e h = h

    -- The commands in their order, each on what the one before it leaves, and their answers.
    abbrev pub run_all : List (Garbage × Command) → Data C S → Run (Data C S × List Answer)
    run_all [] edd = ok (edd, [])
    run_all ((garbage, command) ∷ rest) edd =
        exmpp_tls_openssl_control lib garbage command edd >>= λ r.
        run_all rest r.0 >>= λ last. ok (last.0, r.1 ∷ last.1)

    -- There is a context and a connection with its BIOs, and as many answers as commands.
    abbrev pub Answered : List (Garbage × Command) → Data C S × List Answer → Type 0
    Answered commands r = IsReady r.0 × (length r.1 ≡ length commands)

    after_Returns :
        (garbage : Garbage) (command : Command) (rest : List (Garbage × Command)) (edd : Data C S)
        → Returns
            (exmpp_tls_openssl_control lib garbage command edd)
            (λ r. Returns (run_all rest r.0) (Answered rest))
        → Returns (run_all ((garbage, command) ∷ rest) edd) (Answered ((garbage, command) ∷ rest))
    after_Returns g command rest edd (r, e, (last, e', (ready, count))) =
        ((last.0, r.1 ∷ last.1), rw (e, e') refl, (ready, ap suc count))

    module _ (bounded : Bounded lib) where
      ready_Returns :
          (commands : List (Garbage × Command)) (edd : Data C S)
          → IsReady edd
          → IsUsual commands
          → Returns (run_all commands edd) (Answered commands)
      ready_Returns [] edd ready usual = ((edd, []), refl, (ready, refl))
      ready_Returns ((g, command) ∷ rest) edd ready (not_prepare, w, usual) =
          let (r, e, sound) = control-Returns lib bounded g command edd ready w in
          let still =
            subst (Post (λ (x : Data C S × Answer). IsReady x.0)) e
              (control-IsReady g command edd not_prepare ready) in
          after_Returns g command rest edd (r, e, ready_Returns rest r.0 still usual)

      prepared : (r : Data C S × Option Answer) → AllOrNothing r → r.1 ≡ none → IsReady r.0
      prepared (edd, none) h e = h.0
      prepared (edd, some failure) h e = cc

      -- If preparing the handshake does not fail, then it and every sequence of commands behind it, each
      -- as Erlang sends it and none of them a second preparation, returns without a fault, with one answer
      -- for each command and with the context, the connection and its BIOs still there. OpenSSL is taken
      -- to write no more than it is asked for.
      pub prepared_dialogue :
          (garbage : Garbage) (commands : List (Garbage × Command)) (edd : Data C S)
          → IsSound edd
          → (init_library lib edd).1 ≡ none
          → IsUsual commands
          → Returns
              (run_all ((garbage, prepare_handshake) ∷ commands) edd)
              (Answered ((garbage, prepare_handshake) ∷ commands))
      unfolding exmpp_tls_openssl_control
      prepared_dialogue g commands edd sound success usual =
          let ready =
            prepared (init_library lib edd) (init_library-AllOrNothing lib edd sound) success in
          after_Returns g prepare_handshake commands edd
            (_, refl, ready_Returns commands (init_library lib edd).0 ready usual)
