-- ===== src/Xml/Tests/OnLegacy.antt =====
-- A run of the legacy driver.
use hz_platform.Prelude.{ℕ, [], ◌∷◌, none, some}
use hz_platform.Text.{codes}
use hz_platform.Xml.Legacy
use hz_platform.Xml.Legacy.Tree as LegacyTree

abbrev old_iq : LegacyTree.Node
old_iq =
    LegacyTree.elem (codes "iq") ((codes "id", codes "7") ∷ [])
      (LegacyTree.also (LegacyTree.text (codes "hi")) LegacyTree.leaf)

abbrev one_old_stanza : Legacy.Library ℕ
one_old_stanza = record {
  create = some 0;
  reset = λ p. 0;
  xml_parse = λ p buf final.
      (ℕ.suc p, LegacyTree.callbacks_all (LegacyTree.also old_iq LegacyTree.leaf), none);
}
