-- ===== src/Tls/Control/Expected.antt =====
-- From the command that sets the expected identity to the callback that checks it.
use hz_platform.Prelude.{ℕ, ◌≡◌, refl, Bool, true, List, [], ◌∷◌, some, arith, inl, inr}
use hz_platform.Run.{Returns}
use hz_platform.Ei.{version, string}
use hz_platform.Ei.Input.{exmpp_skip_version}
use hz_platform.Text.{up_to_nul}
use hz_platform.Answer.{done}
use hz_platform.Tls.{Data}
use hz_platform.Tls.Verify.{GeneralName, StoreCtx, verify_callback}
use hz_platform.Tls.Verify.Identity.{IsNamed, IsIdentified, verify_callback-IsIdentified}
use hz_platform.Tls.Openssl.{Library}
use hz_platform.Tls.Control.{Garbage, set_peer_verif, exmpp_tls_openssl_control, verify_peer}

named :
    (id : List ℕ) (x509_ctx : StoreCtx)
    → x509_ctx.depth ≡ 0
    → IsIdentified (some id) x509_ctx
    → (gens : List GeneralName) × (x509_ctx.alt_names ≡ some gens) × IsNamed (up_to_nul id) gens
named id x509_ctx peer (inl above) = absurd (omega arith)
named id x509_ctx peer (inr found) = found

module _ {C S : Type 0} (lib : Library C S) where
  -- COMMAND_SET_PEER_VERIF with a string returns, and turns the verification of the peer on: the
  -- callback then lets a certificate of the peer itself pass only if one of its alternative names
  -- certifies that string, whatever OpenSSL made of the certificate and whatever the options accept.
  pub set_peer_verif-IsNamed :
      (g : Garbage) (id : List ℕ) (edd : Data C S)
      → Returns
          (exmpp_tls_openssl_control lib g (set_peer_verif (version ∷ string id ∷ [])) edd)
          (λ r.
            (r.0.verify_peer ≡ true)
            × ((preverify_ok : Bool) (x509_ctx : StoreCtx)
                → x509_ctx.depth ≡ 0
                → verify_callback r.0 preverify_ok x509_ctx ≡ true
                → (gens : List GeneralName) × (x509_ctx.alt_names ≡ some gens)
                  × IsNamed (up_to_nul id) gens))
  unfolding exmpp_tls_openssl_control exmpp_skip_version verify_peer
  set_peer_verif-IsNamed g id edd =
      let after = record edd { expected_id = some id; verify_peer = true } in
      (
        (after, done),
        refl,
        (
          refl,
          λ pre x509_ctx peer h.
              named id x509_ctx peer ((verify_callback-IsIdentified after pre x509_ctx).0 h).1,
        ),
      )
