-- ===== src/Xml/Control.antt =====
-- `control` of exmpp_xml.c, the commands that all the XML drivers share. `ctx`, `buf` and
-- `to_return` are never NULL.
pub mod Selected
use hz_platform.Prelude.{[], ◌∷◌, ◌++◌, none, some, ℤ, pos, is_zero, if◌then◌else◌}
use hz_platform.Run.{Run, ok, ◌>>=◌}
use hz_platform.Ei.{Buff, tuple_header, atom, ulong}
use hz_platform.Text.{codes}
use hz_platform.Xml.Context.{Ctx}
use hz_platform.Ei.Input.{exmpp_skip_version, decode_boolean, decode_long}
use hz_platform.Xml.Known.{
  Known, Memory, Command, add_known_nss, add_known_elems, set_names_as_atom, set_check_nss,
  set_check_elems, set_root_depth, set_emit_endtag, set_max_size, unknown_command, add_nss,
  add_elems, select_nss, select_elems, select_known,
}

-- The state behind the command, its return code and `to_return`.
pub record Outcome : Type 0 where
  pub known : Known
  pub ctx : Ctx
  pub ret : ℤ
  pub to_return : Buff

-- A failure adds its reason to `to_return`.
abbrev pub checked : Known → Ctx → ℤ → Buff → Buff → Outcome
checked known ctx ret reason to_return =
    if is_zero ret
    then record { known = known; ctx = ctx; ret = pos 0; to_return = to_return }
    else record { known = known; ctx = ctx; ret = pos 1; to_return = to_return ++ reason }

abbrev pub set_option : Known → Ctx → Buff → Outcome
set_option known ctx to_return = record {
  known = known;
  ctx = ctx;
  ret = pos 0;
  to_return = to_return;
}

module _ (memory : Memory) where
  unfoldable pub control : Command → Buff → Buff → Known → Ctx → Run Outcome
  control add_known_nss buf to_return known ctx = do
    terms ← exmpp_skip_version buf
    r ← add_nss memory terms known
    ok (checked r.0 ctx r.1 (atom (codes "add_known_nss_failed") ∷ []) to_return)
  control add_known_elems buf to_return known ctx = do
    terms ← exmpp_skip_version buf
    r ← add_elems memory terms known
    ok (checked r.0 ctx r.1 (atom (codes "add_known_elems_failed") ∷ []) to_return)
  control set_names_as_atom buf to_return known ctx = do
    terms ← exmpp_skip_version buf
    let new_ctx : Ctx = elim (decode_boolean terms) [
      | none ↦ ctx
      | some b ↦ record ctx { names_as_atom = b }
    ]
    ok (set_option known new_ctx to_return)
  control set_check_nss buf to_return known ctx = do
    terms ← exmpp_skip_version buf
    let r = select_known (select_nss known) terms ctx
    ok (checked known r.0 r.1 (atom (codes "check_nss_failed") ∷ []) to_return)
  control set_check_elems buf to_return known ctx = do
    terms ← exmpp_skip_version buf
    let r = select_known (select_elems known) terms ctx
    ok (checked known r.0 r.1 (atom (codes "check_elems_failed") ∷ []) to_return)
  control set_root_depth buf to_return known ctx = do
    terms ← exmpp_skip_version buf
    let new_ctx : Ctx = elim (decode_long terms) [
      | none ↦ ctx
      | some z ↦ record ctx { root_depth = z }
    ]
    ok (set_option known new_ctx to_return)
  control set_emit_endtag buf to_return known ctx = do
    terms ← exmpp_skip_version buf
    let new_ctx : Ctx = elim (decode_boolean terms) [
      | none ↦ ctx
      | some b ↦ record ctx { emit_endtag = b }
    ]
    ok (set_option known new_ctx to_return)
  control set_max_size buf to_return known ctx = do
    terms ← exmpp_skip_version buf
    let new_ctx : Ctx = elim (decode_long terms) [
      | none ↦ ctx
      | some z ↦ record ctx { max_size = z }
    ]
    ok (set_option known new_ctx to_return)
  control (unknown_command n) buf to_return known ctx = ok (record {
    known = known;
    ctx = ctx;
    ret = pos 1;
    to_return = to_return ++ tuple_header 2 ∷ atom (codes "unknown_command") ∷ ulong n ∷ [];
  })
