-- ===== src/Setup/Tests.antt =====
-- Loads of the module at concrete inputs.
use vsc.Base.{◌≡◌, refl, true, false, none}
use vsc.Codes.{err, einval}
use vsc.Params.{Params}
use vsc.Setup.{KernelAnswers, Sizes, vsc_init}
use vsc.Setup.Outcome.{complete, hollow, Means, ending, vsc_init_lem}

abbrev four : Params
four = record { io_per_host = 4; io_per_host_shift = 2 }

abbrev sizes : Sizes
sizes = record {
  scsi_data_msg = (16, 16);
  scsi_data = (20, 20);
  scsi_event = (28, 28);
  scsi_msg_data = (8, 8);
}

abbrev grants : KernelAnswers
grants = record {
  proc_mkdir = true;
  sizes = sizes;
  register_chrdev = none;
  class_create = none;
  device_create = none;
  cache_create = true;
  mempool_create = true;
}

-- The pool of buffers is refused.
abbrev no_mempool : KernelAnswers
no_mempool = record grants { mempool_create = false }

vsc_init_lem_example : Means (vsc_init no_mempool four) (ending no_mempool four)
vsc_init_lem_example = vsc_init_lem no_mempool four

loads : ending grants four ≡ complete
unfolding ending
loads = refl

is_hollow : ending no_mempool four ≡ hollow
unfolding ending
is_hollow = refl

refuses_three : (vsc_init grants (record four { io_per_host = 3 })).ret ≡ err einval
unfolding vsc_init
refuses_three = refl
