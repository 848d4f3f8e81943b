-- ===== src/Tls/Prepare.antt =====
-- init_library of exmpp_tls_openssl.c: a context and a connection from the options that are set.
pub mod Sound
use hz_platform.Prelude.{
  ℕ, Bool, true, false, not, ◌&&◌, List, [], ◌∷◌, ◌++◌, Option, none, some, ℤ, pos, negsuc, eq_ℤ,
  if◌then◌else◌,
}
use hz_platform.Ei.{atom}
use hz_platform.Text.{codes, up_to_nul}
use hz_platform.Answer.{Answer, reply}
use hz_platform.Tls.{Data, Bios, unset, of_ssl, freed, lost}
use hz_platform.Tls.Openssl.{
  Library, Setting, no_sslv2, no_ticket, session_cache_off, release_buffers, single_dh_use, tmp_dh,
  single_ecdh_use, tmp_ecdh, cipher_list, verify,
}

-- TLS_MODE_SERVER and TLS_MODE_CLIENT
abbrev pub is_server : ℤ → Bool
is_server mode = eq_ℤ 1 mode

abbrev pub is_client : ℤ → Bool
is_client mode = eq_ℤ 2 mode

abbrev only_if : Bool → List Setting → List Setting
only_if b l = if b then l else []

module _ {S : Type 0} where
  -- What becomes of the BIOs when the connection is freed, and when `ssl` is overwritten.
  abbrev pub free_bios : Option S → Bios S → Bios S
  free_bios (some s) of_ssl = freed
  free_bios _ bios = bios

  abbrev pub lose_bios : Option S → Bios S → Bios S
  lose_bios (some s) of_ssl = lost s
  lose_bios _ bios = bios

module _ {C S : Type 0} where
  -- The label `err`.
  unfoldable pub release : Data C S → Data C S
  release edd = record edd { ctx = none; ssl = none; bios = free_bios edd.ssl edd.bios }

  abbrev pub init_failed : List ℕ → Data C S → Data C S × Option Answer
  init_failed reason edd = (release edd, some (reply 1 (atom reason ∷ [])))

  module _ (lib : Library C S) where
    unfoldable pub settings : Data C S → List Setting
    settings edd =
        (no_sslv2
          ∷ cipher_list (codes "DEFAULT:!EXPORT:!LOW:!SSLv2")
          ∷ session_cache_off
          ∷ no_ticket
          ∷ [])
        ++ only_if lib.has_release_buffers (release_buffers ∷ [])
        ++ only_if (lib.has_dh && is_server edd.mode) (single_dh_use ∷ tmp_dh ∷ [])
        ++ only_if (lib.has_ecdh && is_server edd.mode) (single_ecdh_use ∷ tmp_ecdh ∷ [])

    unfoldable pub configure_all : List Setting → C → C
    configure_all [] c = c
    configure_all (s ∷ ss) c = configure_all ss (lib.configure s c)

    -- Loading a file, if one is set.
    abbrev pub load : (List ℕ → C → C × Bool) → Option (List ℕ) → C → C × Bool
    load use_file none c = (c, true)
    load use_file (some file) c = use_file (up_to_nul file) c

    unfoldable pub set_state : ℤ → S → S
    set_state mode s =
        if is_server mode
        then lib.set_accept_state s
        else (if is_client mode then lib.set_connect_state s else s)

    -- From SSL_new on.
    unfoldable pub connect : C → Data C S → Data C S × Option Answer
    connect c edd = elim (lib.ssl_new c) [
      | none ↦
          init_failed (codes "ssl_init_failed")
            (record edd { ctx = some c; ssl = none; bios = lose_bios edd.ssl edd.bios })
      | some s ↦ (
        record edd { ctx = some c; ssl = some (set_state edd.mode (lib.set_bio s)); bios = of_ssl },
        none,
      )
    ]

    -- The files, each of which may fail to load.
    unfoldable pub set_up : C → Data C S → Data C S × Option Answer
    set_up c edd =
        let (c1, certified) = load lib.use_certificate_chain_file edd.certificate c in
        let (c2, keyed) = load lib.use_private_key_file edd.private_key c1 in
        let c3 = lib.configure (verify edd.verify_peer edd.peer_cert_required) c2 in
        let (c4, trusting) = load lib.load_verify_locations edd.trusted_certs c3 in
        if not certified
        then init_failed (codes "load_cert_failed") (record edd { ctx = some c1 })
        else (if not keyed
            then init_failed (codes "load_pk_failed") (record edd { ctx = some c2 })
            else (if not trusting
                then init_failed (codes "load_trusted_certs_failed") (record edd { ctx = some c4 })
                else connect c4 edd))

    -- The answer is that of a failure.
    unfoldable pub init_library : Data C S → Data C S × Option Answer
    init_library edd = elim lib.ctx_new [
      | none ↦ init_failed (codes "ssl_context_init_failed") (record edd { ctx = none })
      | some c ↦ set_up (configure_all (settings edd) c) edd
    ]
