-- ===== src/Lib.antt =====
-- The C port drivers of the 2600hz platform: its XMPP drivers (lib/exmpp-0.9.8-05-g6987a0a/c_src), the
-- driver for the system log (lib/erlang-syslog/c_src) and the one for a terminal (lib/cecho-0.0.3/c_src).
-- The platform itself is written in Erlang and loads these drivers into its virtual machine, where a
-- fault of a driver takes everything down. The Erlang code is not modelled.
--
-- Parts
--   HashTable    exmpp_driver.c: the chained hash table. Primes are the sizes and the load limit, with
--                the rounding of the C float; Lookup, Expand and Map prove what is found, Release
--                what is freed.
--   Stringprep   exmpp_stringprep.c: Utf8 (decoding, ADD_UCHAR and the buffers that grow), Tables (the
--                macros over the Unicode arrays), Order (canonical_ordering), Compose (compose and its
--                loop), Control (the driver's function). The theorems there hold for any arrays.
--                Unicode has those of stringprep_uni_data.h and stringprep_uni_norm.h, one module for
--                every 150 rows, with what lies behind an array as a parameter; Checks evaluates what
--                is needed of their cells, and Safe proves about the driver on them.
--   Xml          exmpp_xml.c and exmpp_xml.h: Context (struct exmpp_xml_ctx), Encode (names as atoms or
--                strings), Build (enter_element, exit_element and the others), Known (the known lists,
--                on the hash table; Listed, Selects and Atoms prove about them) and Control (the
--                commands of all XML drivers). Build/Tree is the abstract side, XML trees and their
--                Erlang terms; Names is about how a name is written; Graft and Quiet are the lemmas for
--                a stream in chunks. Expat is exmpp_xml_expat.c (Frame and Limit for the size; Chunk,
--                Added and Session for a whole stream), Libxml2 exmpp_xml_libxml2.c, and Legacy
--                exmpp_xml_expat_legacy.c.
--   Syslog       syslog_drv.c, with the heap that the ident string lives on: Lifetime and Dangling
--                about that string, Written about the log, Requests about sequences of inputs.
--   Zlib         exmpp_compress_zlib.c: the commands and the loop that calls zlib; Pump, Drain, RoundTrip
--                and Level prove about it.
--   Tls          exmpp_tls.c and exmpp_tls_openssl.c: Hostname (match_hostname), Verify
--                (verify_callback), Openssl (what is asked of the library), Prepare (init_library),
--                Control (exmpp_tls_openssl_control; Session is about sequences of commands).
--   Cecho        lib/cecho-0.0.3/c_src/cecho.c, the terminal by ncurses: the commands and the table of
--                windows, with Windows and Strings about them; Args (arguments and answers), Ncurses.
--   Answer, Ei, Text, Run, Prelude   what they share: the answers of a driver, the buffers of ei, C
--                texts, runs that may fault, helpers.
--
-- How the code is represented
--   A function on a C structure is a function on a record that returns the new one. A run is a result
--   or a fault: a write behind an allocation, a use of freed memory or of NULL, a read out of bounds. A
--   buffer of ei is the sequence of the items encoded into it, and an input is the items that ei
--   decodes. The hash table takes the outcome of each allocation as an argument; elsewhere memory is
--   available unless a comment says otherwise. Expat, libxml2, zlib, OpenSSL and ncurses
--   are parameters, and so are MAXATOMLEN of ei and what ei makes of a longer name of an atom. A
--   pointer to a known list is a number. Numbers that only count are natural; hashes and
--   conversions to 32 bits keep their wrap-around. Fuel bounds two loops: the 64 halvings in the
--   rounding of the load limit, which are enough for a 32-bit length, and the rounds of the loop
--   that calls zlib, for which one more than there are full buffers is enough; a run out of fuel is
--   a result of its own.
--
-- Not modelled: the registration of the drivers, which fills constant tables; locks; the Erlang code,
-- and everything else below lib that is no C driver.
pub mod Prelude
pub mod Run
pub mod Text
pub mod Ei
pub mod Answer
pub mod HashTable
pub mod Xml
pub mod Stringprep
pub mod Syslog
pub mod Zlib
pub mod Tls
pub mod Cecho
