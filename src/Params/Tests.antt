-- ===== src/Params/Tests.antt =====
-- Runs of the parameters at concrete inputs.
use vsc.Base.{◌≡◌, refl, List, [], ◌∷◌, true, false, some}
use vsc.Codes.{ok, oops}
use vsc.Params.{Params, init_params, seq_write, set_log_level}
use vsc.Params.Batches.{SeqWrite, write_all, BatchOutcome, batches_lem}

abbrev four : Params
four = record { io_per_host = 4; io_per_host_shift = 2 }

-- "2", then a line that cannot be read.
abbrev writes : List SeqWrite
writes =
    record { len = 2; readable = true; head = b'2' }
    ∷ record { len = 3; readable = false; head = b'1' }
    ∷ []

four_accepted : init_params four ≡ some four
unfolding init_params
four_accepted = refl

batches_lem_example : BatchOutcome (write_all writes four)
batches_lem_example = batches_lem writes four four four_accepted

writes_two : (write_all writes four).io_per_host ≡ 2
unfolding seq_write
writes_two = refl

-- A write of 200 bytes goes behind the buffer.
overruns : (seq_write 200 true b'4' four).0 ≡ oops
unfolding seq_write
overruns = refl

-- 0xffffffff is taken for -1.
negative : (set_log_level (some (some 0xffffffff)) 0).0 ≡ ok 0
unfolding set_log_level
negative = refl
