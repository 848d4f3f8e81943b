-- ===== src/Tls/Prepare/Sound.antt =====
-- What init_library leaves behind when it succeeds and when it fails.
use hz_platform.Prelude.{ℕ, ◌≡◌, refl, not, List, Option, none, some, on_both}
use hz_platform.Text.{codes}
use hz_platform.Answer.{Answer}
use hz_platform.Tls.{Data, Bios, unset, of_ssl, freed, lost}
use hz_platform.Tls.Openssl.{Library, verify}
use hz_platform.Tls.Prepare.{
  free_bios, lose_bios, release, init_failed, settings, configure_all, load, set_state, connect,
  set_up, init_library,
}

module _ {S : Type 0} where
  abbrev pub Agree : Option S → Bios S → Type 0
  Agree (some s) of_ssl = Unit
  Agree (some s) _ = ⊥
  Agree none of_ssl = ⊥
  Agree none _ = Unit

  freed-Agree : (ssl : Option S) (bios : Bios S) → Agree ssl bios → Agree none (free_bios ssl bios)
  freed-Agree (some s) of_ssl h = tt
  freed-Agree (some s) unset h = tt
  freed-Agree (some s) freed h = tt
  freed-Agree (some s) (lost old) h = tt
  freed-Agree none unset h = tt
  freed-Agree none freed h = tt
  freed-Agree none (lost old) h = tt
  freed-Agree none of_ssl h = absurd h

  lost-Agree : (ssl : Option S) (bios : Bios S) → Agree ssl bios → Agree none (lose_bios ssl bios)
  lost-Agree (some s) of_ssl h = tt
  lost-Agree (some s) unset h = absurd h
  lost-Agree (some s) freed h = absurd h
  lost-Agree (some s) (lost old) h = absurd h
  lost-Agree none unset h = tt
  lost-Agree none freed h = tt
  lost-Agree none (lost old) h = tt
  lost-Agree none of_ssl h = absurd h

module _ {C S : Type 0} where
  -- The driver's BIOs are those of its connection exactly while it has one.
  abbrev pub IsSound : Data C S → Type 0
  IsSound edd = Agree edd.ssl edd.bios

  -- There is a context, and a connection.
  abbrev pub IsReady : Data C S → Type 0
  IsReady edd = (c : C) × (s : S) × (edd.ctx ≡ some c) × (edd.ssl ≡ some s) × (edd.bios ≡ of_ssl)

  abbrev pub IsCleared : Data C S → Type 0
  IsCleared edd = (edd.ctx ≡ none) × (edd.ssl ≡ none)

  -- No answer of a failure and all that is needed, or such an answer and nothing.
  abbrev pub AllOrNothing : Data C S × Option Answer → Type 0
  AllOrNothing (edd, none) = IsReady edd × IsSound edd
  AllOrNothing (edd, some failure) = IsCleared edd × IsSound edd

  failed_lem :
      (reason : List ℕ) (edd : Data C S) → IsSound edd → AllOrNothing (init_failed reason edd)
  unfolding release
  failed_lem reason edd h = ((refl, refl), freed-Agree edd.ssl edd.bios h)

  module _ (lib : Library C S) where
    connect-AllOrNothing : (c : C) (edd : Data C S) → IsSound edd → AllOrNothing (connect lib c edd)
    unfolding connect release
    connect-AllOrNothing c edd h = opened (lib.ssl_new c)
      where
        opened :
            (new : Option S)
            → AllOrNothing (elim new [
              | none ↦
                  init_failed
                    (codes "ssl_init_failed")
                    (record edd { ctx = some c; ssl = none; bios = lose_bios edd.ssl edd.bios })
              | some s ↦ (
                record edd {
                  ctx = some c;
                  ssl = some (set_state lib edd.mode (lib.set_bio s));
                  bios = of_ssl;
                },
                none,
              )
            ])
        opened none =
            failed_lem (codes "ssl_init_failed")
              (record edd { ctx = some c; ssl = none; bios = lose_bios edd.ssl edd.bios })
              (lost-Agree edd.ssl edd.bios h)
        opened (some s) = ((c, set_state lib edd.mode (lib.set_bio s), refl, refl, refl), tt)

    set_up-AllOrNothing : (c : C) (edd : Data C S) → IsSound edd → AllOrNothing (set_up lib c edd)
    unfolding set_up
    set_up-AllOrNothing c edd h =
        let r1 = load lib lib.use_certificate_chain_file edd.certificate c in
        let r2 = load lib lib.use_private_key_file edd.private_key r1.0 in
        let r3 = lib.configure (verify edd.verify_peer edd.peer_cert_required) r2.0 in
        let r4 = load lib lib.load_verify_locations edd.trusted_certs r3 in
        on_both AllOrNothing (not r1.1)
          (λ _. failed_lem (codes "load_cert_failed") (record edd { ctx = some r1.0 }) h)
          (λ _.
            on_both AllOrNothing (not r2.1)
              (λ _. failed_lem (codes "load_pk_failed") (record edd { ctx = some r2.0 }) h)
              (λ _.
                on_both AllOrNothing (not r4.1)
                  (λ _.
                    failed_lem (codes "load_trusted_certs_failed") (record edd { ctx = some r4.0 })
                      h)
                  (λ _. connect-AllOrNothing r4.0 edd h)))

    -- If the BIOs are those of the connection whenever there is one, then preparing the handshake
    -- either gives no answer and leaves a context and a connection with its BIOs, or answers with a
    -- failure and leaves neither context nor connection; the condition on the BIOs still holds.
    pub init_library-AllOrNothing :
        (edd : Data C S) → IsSound edd → AllOrNothing (init_library lib edd)
    unfolding init_library
    init_library-AllOrNothing edd h = created lib.ctx_new
      where
        created :
            (ctx : Option C)
            → AllOrNothing (elim ctx [
              | none ↦ init_failed (codes "ssl_context_init_failed") (record edd { ctx = none })
              | some c ↦ set_up lib (configure_all lib (settings lib edd) c) edd
            ])
        created none = failed_lem (codes "ssl_context_init_failed") (record edd { ctx = none }) h
        created (some c) = set_up-AllOrNothing (configure_all lib (settings lib edd) c) edd h
