-- ===== src/Template/Tests.antt =====
-- Runs of the callbacks at concrete inputs.
use vsc.Base.{◌≡◌, refl, true, false}
use vsc.Codes.{ok}
use vsc.Template.{bios_param, slave_alloc, slave_configure}

-- A disk of one gibibyte, and one sector less.
large : bios_param 0x200000 ≡ (255, 63, 130)
unfolding bios_param
large = refl

little : bios_param 0x1fffff ≡ (64, 32, 1023)
unfolding bios_param
little = refl

-- What a new disk gets.
configured :
    slave_configure
      (slave_alloc (record { bidi = false; bounce_any = false; dma_alignment = 511 })).1
    ≡ (ok 0, record { bidi = true; bounce_any = true; dma_alignment = 0 })
configured = refl
