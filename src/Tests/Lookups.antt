-- ===== src/Tests/Lookups.antt =====
-- The byte lookups on a short header name.
use kawa.Prelude.{codes, ◌≡◌, refl, ◌↔◌, true, map, arith}
use kawa.Protocol.Lookup.{char_ranges, make_char_lookup, take_while_simd, take_while}
use kawa.Protocol.Lookup.{compare_no_case, char_predicate}
use kawa.Protocol.Lookup.Case.{compare_no_case_lem, lower}
use kawa.Protocol.Lookup.Simd.{take_while_simd-eq-take_while}
use kawa.Protocol.Primitives.{tchar_rules}
use kawa.Tests.Buffers.{memory, memory-IsPlaced}

take_while_simd-eq-take_while_example :
    take_while_simd (make_char_lookup tchar_rules) memory
    ≡ take_while (make_char_lookup tchar_rules) memory
unfolding char_ranges
take_while_simd-eq-take_while_example =
    take_while_simd-eq-take_while tchar_rules (omega arith) memory memory-IsPlaced (omega arith)

compare_no_case_lem_example :
    (compare_no_case (codes "HoSt") (codes "host") ≡ true)
    ↔ (map lower (codes "HoSt") ≡ codes "host")
unfolding char_predicate
compare_no_case_lem_example =
    compare_no_case_lem (codes "HoSt") (codes "host")
      ((omega arith, refl), ((omega arith, refl), ((omega arith, refl), ((omega arith, refl), tt))))
      ((omega arith, refl), ((omega arith, refl), ((omega arith, refl), ((omega arith, refl), tt))))
