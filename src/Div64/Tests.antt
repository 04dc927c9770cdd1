-- ===== src/Div64/Tests.antt =====
-- Examples for shared/div64.c.
use advanced_operating_syste.Base.{◌≡◌, arith}
use advanced_operating_syste.Div64.{do_div64}
use advanced_operating_syste.Div64.Reference.{divided, do_div64-divided}

do_div64-divided_example :
    do_div64 18446744073709551615 4294967297 ≡ divided 18446744073709551615 4294967297
do_div64-divided_example =
    do_div64-divided 18446744073709551615 4294967297 (omega arith) (omega arith)
