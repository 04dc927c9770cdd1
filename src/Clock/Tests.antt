-- ===== src/Clock/Tests.antt =====
-- Examples for shared/time.c.
use advanced_operating_syste.Base.{◌≡◌, true, some, arith}
use advanced_operating_syste.Clock.{masque_irq}
use advanced_operating_syste.Clock.Mask.{masque_irq-cleared}

masque_irq-cleared_example : masque_irq 1 true 255 ≡ some 253
masque_irq-cleared_example = masque_irq-cleared 1 true 255 (omega arith) (omega arith)
