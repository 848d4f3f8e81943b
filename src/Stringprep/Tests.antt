-- ===== src/Stringprep/Tests.antt =====
-- Runs of the stringprep driver on tables in which no character has a property.
use hz_platform.Prelude.{
  ℕ, ◌+◌, ◌*◌, ◌<◌, ◌≤◌, ◌≡◌, refl, [], ◌∷◌, some, pos, arith, length, ltb, if◌then◌else◌,
}
use mathlib.Core.List.{Perm}
use hz_platform.Run.{fault, heap_overflow, Returns}
use hz_platform.Stringprep.Tables.{Tables}
use hz_platform.Stringprep.Utf8.{decode, encode, encode_char}
use hz_platform.Stringprep.Utf8.RoundTrip.{
  AllUnicode, decode-encode, decode-AllUnicode, decode_overlong,
}
use hz_platform.Stringprep.Utf8.Buffer.{Buffer, Appends, add_uchar, add_uchar-Fits}
use hz_platform.Stringprep.Order.{canonical_ordering}
use hz_platform.Stringprep.Order.Sorted.{IsOrdered, canonical_ordering-IsOrdered}
use hz_platform.Stringprep.Order.Stable.{
  of_class, canonical_ordering-stable, canonical_ordering-Perm,
}
use hz_platform.Stringprep.Compose.{compose, compose_all}
use hz_platform.Stringprep.Compose.Laws.{compose_hangul, compose_all-length}
use hz_platform.Stringprep.Control.{control, port_revision}
use hz_platform.Stringprep.Control.Refines.{revision_overflows}

abbrev plain : Tables
plain = record {
  page_map = λ i. 0;
  group_map = λ i. 0;
  groups = λ i. pos 0;
  multi_case_table = λ i. [];
  cclass_page_map = λ i. 0;
  cclass_group_map = λ i. 0;
  decomp_page_map = λ i. 0;
  decomp_group_map = λ i. pos 0;
  decomp_list = λ i. 0;
  comp_page_map = λ i. 0;
  comp_group_map = λ i. pos 0;
  comp_first_list = λ i. (0, 0);
  comp_second_list = λ i. (0, 0);
  comp_both_list = λ i j. 0;
}

-- A class for each parity.
abbrev class_of : ℕ → ℕ
class_of c = if ltb c 10 then 0 else (if ltb c 20 then 220 else 230)

ordered_example :
    canonical_ordering class_of (5 ∷ 21 ∷ 11 ∷ 22 ∷ 12 ∷ []) ≡ 5 ∷ 11 ∷ 12 ∷ 21 ∷ 22 ∷ []
unfolding canonical_ordering hz_platform.Stringprep.Order.order_loop
    hz_platform.Stringprep.Order.sink
ordered_example = refl

decode-encode_example :
    decode (λ c. c ∷ []) 0 (encode (0x20AC ∷ 0x41 ∷ [])) ≡ some (0x20AC ∷ 0x41 ∷ [])
decode-encode_example =
    decode-encode (λ c. c ∷ []) (0x20AC ∷ 0x41 ∷ []) (omega arith, (omega arith, tt))

euro : decode (λ c. c ∷ []) 0 (0xE2 ∷ 0x82 ∷ 0xAC ∷ []) ≡ some (0x20AC ∷ [])
unfolding encode encode_char
euro = decode-encode (λ c. c ∷ []) (0x20AC ∷ []) (omega arith, tt)

decoded_unicode : AllUnicode (0x20AC ∷ [])
decoded_unicode = decode-AllUnicode 0 (0xE2 ∷ 0x82 ∷ 0xAC ∷ []) (0x20AC ∷ []) euro

decode_overlong_example :
    decode (λ c. c ∷ []) 0 (0xC1 ∷ 0x81 ∷ []) ≡ decode (λ c. c ∷ []) 0 (0x41 ∷ [])
decode_overlong_example = decode_overlong (λ c. c ∷ []) 0x41 [] (omega arith)

abbrev one_byte : Buffer
one_byte = record { written = 0 ∷ []; size = 1 }

added_char : Returns (add_uchar 0x20AC one_byte) (Appends (encode_char 0x20AC) one_byte)
added_char = add_uchar-Fits 0x20AC one_byte (omega arith)

canonical_ordering-IsOrdered_example :
    IsOrdered class_of (canonical_ordering class_of (5 ∷ 21 ∷ 11 ∷ []))
canonical_ordering-IsOrdered_example = canonical_ordering-IsOrdered class_of (5 ∷ 21 ∷ 11 ∷ [])

canonical_ordering-stable_example :
    of_class class_of 220 (canonical_ordering class_of (5 ∷ 21 ∷ 11 ∷ []))
    ≡ of_class class_of 220 (5 ∷ 21 ∷ 11 ∷ [])
canonical_ordering-stable_example = canonical_ordering-stable class_of 220 (5 ∷ 21 ∷ 11 ∷ [])

reordered : Perm (canonical_ordering class_of (5 ∷ 21 ∷ 11 ∷ [])) (5 ∷ 21 ∷ 11 ∷ [])
reordered = canonical_ordering-Perm class_of (5 ∷ 21 ∷ 11 ∷ [])

compose_hangul_example :
    compose plain (compose plain (0x1100 + 18) (0x1161 + 0)) (0x11A7 + 4)
    ≡ 0xAC00 + (18 * 21 + 0) * 28 + 4
compose_hangul_example = compose_hangul plain 18 0 4 (omega arith) (omega arith) (omega arith)

composed_length :
    (0 < length (compose_all plain (0x1112 ∷ 0x1161 ∷ [])))
    × (length (compose_all plain (0x1112 ∷ 0x1161 ∷ [])) ≤ 2)
composed_length = compose_all-length plain (0x1112 ∷ 0x1161 ∷ []) (omega arith)

revision_overflows_example : control plain port_revision [] ≡ fault heap_overflow
revision_overflows_example = revision_overflows plain []
