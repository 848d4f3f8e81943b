-- ===== src/Xml.antt =====
-- lib/exmpp-0.9.8-05-g6987a0a/c_src/exmpp_xml.c and exmpp_xml.h: the part of the XML port drivers
-- that does not depend on the parser library.
pub mod Context
pub mod Encode
pub mod Build
pub mod Known
pub mod Control
pub mod Expat
pub mod Libxml2
pub mod Legacy
mod Tests
