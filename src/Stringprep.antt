-- ===== src/Stringprep.antt =====
-- lib/exmpp-0.9.8-05-g6987a0a/c_src/exmpp_stringprep.c: the stringprep profiles of XMPP.
pub mod Utf8
pub mod Tables
pub mod Unicode
pub mod Order
pub mod Compose
pub mod Control
mod Tests
