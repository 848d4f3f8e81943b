-- ===== src/Tls/Tests.antt =====
-- Runs of the TLS driver on a library whose connection is the bytes that wait in it.
use hz_platform.Prelude.{
  ℕ, ◌≡◌, ◌↔◌, ◌⊎◌, refl, ap, Bool, true, false, List, [], ◌∷◌, none, some, pos, arith, take,
  length, length-take,
}
use hz_platform.Run.{fault, use_after_free, ◌>>=◌, Post, Returns}
use hz_platform.Ei.{version, string, long}
use hz_platform.Text.{codes, up_to_nul}
use hz_platform.Tls.{Data, Bios, of_ssl, exmpp_tls_openssl_start}
use hz_platform.Tls.Hostname.{match_hostname}
use hz_platform.Tls.Hostname.Wildcard.{Certifies, match_hostname-Certifies}
use hz_platform.Tls.Verify.{GeneralName, StoreCtx, cert_has_expired, is_accepted, verify_callback}
use hz_platform.Tls.Verify.Identity.{IsIdentified, IsNamed, verify_callback-IsIdentified}
use hz_platform.Tls.Openssl.{Library, Outcome, gives, complete, no_certificate}
use hz_platform.Tls.Prepare.{init_library, set_up, connect}
use hz_platform.Tls.Prepare.Sound.{IsSound, AllOrNothing, init_library-AllOrNothing}
use hz_platform.Tls.Control.{
  Command, handshake, set_encrypted_input, shutdown, set_peer_verif, get_decrypted_input,
  get_encrypted_output, prepare_handshake, Garbage, exmpp_tls_openssl_control,
}
use hz_platform.Tls.Control.Sound.{control-IsSound}
use hz_platform.Tls.Control.Ready.{Bounded, failed_prepare_dangles}
use hz_platform.Tls.Control.Session.{run_all, Answered, prepared_dialogue}
use hz_platform.Tls.Control.Expected.{set_peer_verif-IsNamed}

-- No certificate file loads.
abbrev plain : Library ℕ (List ℕ)
plain = record {
  has_dh = true;
  has_ecdh = false;
  has_release_buffers = true;
  ctx_new = some 0;
  configure = λ setting c. c;
  use_certificate_chain_file = λ file c. (c, false);
  use_private_key_file = λ file c. (c, true);
  load_verify_locations = λ file c. (c, true);
  ssl_new = λ c. some [];
  set_bio = λ s. s;
  set_accept_state = λ s. s;
  set_connect_state = λ s. s;
  do_handshake = λ call s. (s, gives 1);
  ssl_read = λ call n s. ([], gives (take n s));
  ssl_write = λ call out s. (s, gives 1);
  bio_write = λ bytes s. bytes;
  bio_read = λ s. ([], s);
  get_peer_certificate = λ s. no_certificate;
  get_verify_result = λ s. pos 0;
  has_sent_shutdown = λ s. false;
  ssl_shutdown = λ s. (s, complete);
  quiet_shutdown = λ s. s;
  get_peer_finished = λ s. [];
  get_finished = λ s. [];
  error_string = λ ret. [];
}

abbrev garbage : Garbage
garbage = record { mode = pos 9; name = []; flag = true; data_len = 0; block = [] }

abbrev started : Data ℕ (List ℕ)
started = record {
  mode = pos 2;
  certificate = none;
  private_key = none;
  verify_peer = false;
  expected_id = none;
  trusted_certs = none;
  peer_cert_required = false;
  accept_expired_cert = true;
  accept_revoked_cert = false;
  accept_non_trusted_cert = false;
  accept_corrupted_cert = false;
  ctx = none;
  ssl = none;
  bios = Bios.unset;
}

abbrev prepared : Data ℕ (List ℕ)
prepared = record started {
  certificate = some (codes "cert.pem");
  ctx = some 0;
  ssl = some (1 ∷ 2 ∷ []);
  bios = of_ssl;
}

abbrev named_cert : StoreCtx
named_cert = record {
  error = cert_has_expired;
  depth = 0;
  alt_names = some (record { is_dns = true; is_ia5 = true; bytes = codes "*.example.org" } ∷ []);
}

match_hostname-Certifies_example :
    (match_hostname (codes "*.example.org") (codes "im.Example.org") ≡ true)
    ↔ Certifies (codes "*.example.org") (codes "im.Example.org")
match_hostname-Certifies_example =
    match_hostname-Certifies (codes "*.example.org") (codes "im.Example.org")

verify_callback-IsIdentified_example : (verify_callback started false named_cert ≡ true) ↔ (
    ((false ≡ true) ⊎ (is_accepted cert_has_expired started ≡ true)) × IsIdentified none named_cert)
verify_callback-IsIdentified_example = verify_callback-IsIdentified started false named_cert

init_library-AllOrNothing_example : AllOrNothing (init_library plain started)
init_library-AllOrNothing_example = init_library-AllOrNothing plain started tt

control-IsSound_example :
    Post (λ r. IsSound r.0) (exmpp_tls_openssl_control plain garbage prepare_handshake prepared)
control-IsSound_example = control-IsSound plain garbage prepare_handshake prepared tt

gives_lem : (a b : List ℕ) → Path (Outcome (List ℕ)) (gives a) (gives b) → a ≡ b
gives_lem a b e = cc

plain-Bounded : Bounded plain
plain-Bounded = record {
  reads = λ call n s out e.
      omega (arith, ap (length {A = ℕ}) (gives_lem (take n s) out e), length-take n s);
  peer_finished = λ s. omega arith;
  own_finished = λ s. omega arith;
}

abbrev dialogue : List (Garbage × Command)
dialogue =
    (garbage, set_encrypted_input (7 ∷ 8 ∷ []))
    ∷ (garbage, handshake)
    ∷ (garbage, get_decrypted_input (version ∷ long (pos 1) ∷ []))
    ∷ (garbage, shutdown)
    ∷ []

started-succeeds : (init_library plain started).1 ≡ none
unfolding init_library set_up connect
started-succeeds = refl

prepared_dialogue_example :
    Returns
      (run_all plain ((garbage, prepare_handshake) ∷ dialogue) started)
      (Answered plain ((garbage, prepare_handshake) ∷ dialogue))
prepared_dialogue_example =
    prepared_dialogue plain plain-Bounded garbage dialogue started tt started-succeeds
      (refl, tt, (refl, tt, (refl, (long (pos 1) ∷ [], refl, omega arith), (refl, tt, tt))))

failed_prepare_dangles_example :
    (exmpp_tls_openssl_control plain garbage prepare_handshake prepared >>= λ r.
    exmpp_tls_openssl_control plain garbage get_encrypted_output r.0)
    ≡ fault use_after_free
failed_prepare_dangles_example =
    failed_prepare_dangles plain garbage prepared 0 (codes "cert.pem")
      (0, 1 ∷ 2 ∷ [], refl, refl, refl) refl refl (λ c. refl)

set_peer_verif-IsNamed_example :
    Returns
      (exmpp_tls_openssl_control plain garbage
        (set_peer_verif (version ∷ string (codes "im.example.org") ∷ []))
        started)
      (λ r.
        (r.0.verify_peer ≡ true)
        × ((preverify_ok : Bool) (x509_ctx : StoreCtx)
            → x509_ctx.depth ≡ 0
            → verify_callback r.0 preverify_ok x509_ctx ≡ true
            → (gens : List GeneralName) × (x509_ctx.alt_names ≡ some gens)
              × IsNamed (up_to_nul (codes "im.example.org")) gens))
set_peer_verif-IsNamed_example =
    set_peer_verif-IsNamed plain garbage (codes "im.example.org") started

wildcard_run :
    verify_callback
      (record started { expected_id = some (codes "IM.example.org") })
      false
      named_cert
    ≡ true
unfolding verify_callback is_accepted hz_platform.Tls.Verify.match_names match_hostname
    hz_platform.Tls.Hostname.first_dot hz_platform.Tls.Hostname.same_caseless
wildcard_run = refl
