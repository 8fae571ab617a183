-- ===== src/Cmds/Tests.antt =====
-- Runs of the command queues of vsc_main.c at concrete inputs.
use vsc.Base.{
  map, ℕ, ◌+◌, ◌≡◌, ◌<◌, refl, count, take, remove, List, [], ◌∷◌, ◌++◌, false, none, arith, length,
}
use vsc.Codes.{ok, err, eio, did_requeue, host_byte_of, did_time_out}
use vsc.Cmds.{Cmds, ScsiCmnd, find_zero_from, Cmd, init}
use vsc.Cmds.Io.{submit, start_io, start_io_new}
use vsc.Cmds.Read.{get_multi_scsi_cmd_and_cdb}
use vsc.Cmds.Drain.{abort_all_cmd, requeue_all_cmd, remove_one, finish_with, each_queue_remove}
use vsc.Cmds.Respond.{RspMsg, response_scsi_cmd_new, response_multi_scsi_cmd, final_result}
use vsc.Cmds.Result.{result_encoding}
use vsc.Cmds.Inv.{Inv}
use vsc.Cmds.Inv.Io.{submit-Inv, submit_outcome, SubmitOutcome, start_io-eq-new}
use vsc.Cmds.Inv.Drain.{Emptied, each_queue_remove-Emptied}
use vsc.Cmds.Inv.Deliver.{read_lem, ReadOutcome, read_then_answer}
use vsc.Cmds.Inv.Respond.{response_lem, AnswerOutcome, response_twice, Answers}
use vsc.Cmds.Account.History.{
  CmdOp, submits, aborts_alone, reads, answers, aborts, requeues, init_cmds, init_cmds-Inv, run,
  run-Inv, abort_alone,
}
use vsc.Cmds.Inv.Batch.{response_multi_lem, BatchOutcome}
use vsc.Control.Abort.{drop_cmd}
use vsc.Cmds.{cmd_get, cmd_put, Done}

-- What a pool holds before it is used.
abbrev memory : ℕ → Cmd
memory i = record { cmd_index = 0; stat = init; scsi_cmd = none; cmd_sn = 0; refcnt = 0 }

-- A command that reads one block: opcode 0x28, ten bytes.
abbrev read_10 : ℕ → ScsiCmnd
read_10 n = record {
  ident = n;
  cmnd = 0x28 ∷ 0 ∷ 0 ∷ 0 ∷ 0 ∷ 7 ∷ 0 ∷ 0 ∷ 1 ∷ 0 ∷ [];
  channel = 0;
  id = 0;
  lun = n;
  direction = 2;
}

abbrev ten : List ℕ → ℕ
ten cdb = 10

abbrev one_waits : Cmds
one_waits = (submit (init_cmds memory 2) (read_10 1)).1

one_waits-Inv : Inv one_waits
one_waits-Inv = submit-Inv (init_cmds memory 2) (read_10 1) (init_cmds-Inv memory 2)

abbrev history : List CmdOp
history = submits (read_10 1) ∷ submits (read_10 2) ∷ submits (read_10 3) ∷ reads 224 false ∷ []

abbrev two_read : Cmds
two_read = run ten 0 history (init_cmds memory 2)

two_read-Inv : Inv two_read
two_read-Inv = run-Inv ten 0 history (init_cmds memory 2) (init_cmds-Inv memory 2)

abbrev answer : ℕ → ℕ → RspMsg
answer tag sn = record {
  reserved0 = 1;
  cmd_sn = sn;
  tag = tag;
  command_status = 4;
  scsi_status = 2;
}

-- The third command finds the pool full; the others are read.
third_is_busy :
    (submit
      (run ten 0 (submits (read_10 1) ∷ submits (read_10 2) ∷ []) (init_cmds memory 2))
      (read_10 3)).0
    ≡ none
unfolding init_cmds submit find_zero_from remove
third_is_busy = refl

two_are_read :
    (two_read.rsp_q ≡ 0 ∷ 1 ∷ []) × (two_read.io_running ≡ 2) × (two_read.get_cmd_total ≡ 2)
unfolding init_cmds submit find_zero_from remove get_multi_scsi_cmd_and_cdb
two_are_read = (refl, refl, refl)

first-Answers : Answers two_read (answer 0 1)
unfolding init_cmds submit find_zero_from remove get_multi_scsi_cmd_and_cdb
first-Answers = record { small = omega arith; read = refl; serial = refl; waiting = omega arith }

wrong_serial : (response_scsi_cmd_new (answer 0 9) two_read).0 ≡ err eio
unfolding init_cmds submit find_zero_from remove get_multi_scsi_cmd_and_cdb response_scsi_cmd_new
wrong_serial = refl

abbrev whole : List CmdOp
whole =
    history
    ++ answers 112 (answer 0 1 ∷ [])
      ∷ aborts_alone 1
      ∷ submits (read_10 4)
      ∷ aborts
      ∷ submits (read_10 5)
      ∷ requeues
      ∷ []

whole_reports : length (run ten 0 whole (init_cmds memory 2)).completed ≡ 4
unfolding init_cmds submit find_zero_from remove get_multi_scsi_cmd_and_cdb response_multi_scsi_cmd
    abort_all_cmd requeue_all_cmd remove_one abort_alone cmd_get cmd_put drop_cmd
whole_reports = refl

-- A command of which `host_scribble` names a slot that another command has by now: an abort of it
-- reports it again, and takes the other one out, which is never reported.
abbrev reused : Cmds
reused =
    run ten 0
      (history ++ answers 112 (answer 0 1 ∷ []) ∷ submits (read_10 3) ∷ reads 224 false ∷ [])
      (init_cmds memory 2)

stale_abort :
    map (λ (d : Done). d.sc.ident) (cmd_put (drop_cmd (read_10 1) 0 (cmd_get reused 0)) 0).completed
    ≡ 1 ∷ 1 ∷ []
unfolding init_cmds submit find_zero_from remove get_multi_scsi_cmd_and_cdb response_multi_scsi_cmd
    cmd_get cmd_put drop_cmd
stale_abort = refl

response_lem_example : AnswerOutcome two_read (answer 0 1)
response_lem_example = response_lem two_read (answer 0 1) two_read-Inv

response_twice_example :
    response_scsi_cmd_new (answer 0 1) (response_scsi_cmd_new (answer 0 1) two_read).1
    ≡ (err eio, (response_scsi_cmd_new (answer 0 1) two_read).1)
response_twice_example = response_twice two_read (answer 0 1) two_read-Inv first-Answers

read_lem_example : ReadOutcome ten 0 one_waits 224 false
read_lem_example = read_lem ten 0 one_waits 224 false one_waits-Inv

first_waits : 0 < count 0 (take 4 one_waits.cmp_q)
unfolding init_cmds submit find_zero_from remove
first_waits = omega arith

first_serial : 1 ≡ (one_waits.cmd_pool_tbl 0).cmd_sn
unfolding init_cmds submit find_zero_from remove
first_serial = refl

read_then_answer_example :
    (response_scsi_cmd_new (answer 0 1) (get_multi_scsi_cmd_and_cdb ten 0 224 false one_waits).1).0
    ≡ ok 0
read_then_answer_example =
    read_then_answer ten 0 one_waits (answer 0 1) one_waits-Inv first_waits first_serial

submit_outcome_example : SubmitOutcome one_waits (read_10 2)
submit_outcome_example = submit_outcome one_waits (read_10 2) one_waits-Inv

start_io-eq-new_example : start_io two_read ≡ start_io_new two_read
start_io-eq-new_example = start_io-eq-new two_read two_read-Inv

each_queue_remove-Emptied_example :
    Emptied did_requeue two_read (each_queue_remove (finish_with did_requeue) two_read)
each_queue_remove-Emptied_example = each_queue_remove-Emptied did_requeue two_read two_read-Inv

response_multi_lem_example : BatchOutcome 112 (answer 0 1 ∷ []) two_read
response_multi_lem_example = response_multi_lem 112 (answer 0 1 ∷ []) two_read two_read-Inv

result_encoding_example : final_result (answer 0 1) ≡ host_byte_of did_time_out + 4
result_encoding_example = result_encoding (answer 0 1)
