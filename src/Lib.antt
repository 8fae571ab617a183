-- ===== src/Lib.antt =====
-- A model of the vsc driver, a SCSI host adapter of the Linux kernel whose commands are served by a
-- user process, and what has been proved of it.
--
-- The program. The SCSI mid-layer hands a command to `vsc_scsi_queue_command` (vsc_main.c), which
-- chooses a host of the disk's vbs, takes a slot of the host's pool and puts the command into one of
-- three queues. A process that has attached to the host reads up to four commands at a time
-- (`vsc_get_multi_scsi_cmd_and_cdb`), carries them out, and answers them by tag and serial number
-- (`vsc_response_multi_scsi_cmd`), upon which the driver calls `scsi_done`. If the mid-layer wants a
-- command aborted or a device reset, the driver puts an event into a pool of its own, sleeps on it,
-- and user space reads and answers it. When the process detaches or dies, the queues are emptied and
-- the mid-layer is told to queue the commands again, or, after a timer, that they have failed.
--
-- The files.
--   Base       names of the libraries passed on; lists over the native numbers, removal from a list,
--              tables, words of 32 and 64 bits.
--   Codes      error numbers, return values, constants of vsc.h and of the SCSI headers.
--   Cmds       the command part of `struct vsc_ctrl_info`: the pool (`vsc_cmd_alloc`, `vsc_cmd_get`,
--              `vsc_cmd_put`) and the queues. A command is named by its index in the pool; a queue is
--              a list of indices; calls of `scsi_done` are recorded in order.
--     Io         `vsc_start_io`, `vsc_start_io_new`, `vsc_enqueue_cmd_and_start_io`, and the end of
--                `vsc_scsi_queue_command`.
--     Drain      `vsc_each_queue_remove` with its callbacks, `vsc_abort_all_cmd`, `vsc_requeue_all_cmd`.
--     Read       `vsc_get_multi_scsi_cmd_and_cdb`.
--     Respond    `vsc_response_scsi_cmd_new`, `vsc_sense_check`, `vsc_response_multi_scsi_cmd`.
--     Result     the result word of an answer.
--     Inv        the invariant of the queues, a child for each group of operations (Batch has the
--                answers of several messages); Census counts the slots that are taken.
--     Account    the ledger of the commands, and (History) sequences of calls.
--   Hosts      `g_host_mgr_list`: `vsc_get_ctlr_by_host`, `vsc_add_host_to_mgr` (Lookup); the whole of
--              `vsc_scsi_queue_command` with the choice of the host (Queue, Fair, Outcome).
--   Events     the pool and the queues of events: `vsc_event_alloc`, `vsc_event_get`, `vsc_event_put`,
--              `vsc_event_add`, `vsc_event_del`, `vsc_abort_all_event` (Abort); `vsc_get_event`,
--              `vsc_response_event` and the two callbacks (Answer, Pool, Deliver).
--   Control    `vsc_scsi_attach`, `vsc_scsi_detach`, `vsc_suspend_host`, `vsc_resume_host`,
--              `vsc_target_abnormal`, `vsc_poll_wait`, `vsc_do_remove_host`, what the first two
--              come to (Attach), and a state machine of them (Machine); `vsc_eh_abort` and
--              `vsc_eh_device_reset_handler`, cut at the sleep (Abort); `check_host_info` and
--              `vsc_change_queue_depth` (Limits).
--   Devices    the disks: search, `vsc_add_device`, `vsc_add_device_by_vol_name`, `vsc_rmv_device`,
--              `vsc_set_delete_by_vol_name`, `vsc_query_vol`, `vsc_set_device_stat`,
--              `vsc_get_device_stat`, `vsc_set_device_rq_timeout`. The mid-layer's functions on disks
--              are the record `MidLayer`, a parameter.
--   Xfer       `vsc_copy_data_to_iovec`, `vsc_copy_data_from_iovec` (Linear); Sg:
--              `vsc_copy_sg_buff_to_iovec` and `vsc_copy_sg_buff_from_iovec`; Batch: `vsc_xfer_data`,
--              `vsc_scsi_cmd_data`, `vsc_alloc_scsi_buf`, `vsc_free_scsi_buf`,
--              `vsc_multi_scsi_cmd_data`, `vsc_response_multi_data_and_rsp`. Bytes is what a transfer
--              means, byte by byte; Scatter has the loops over segments and descriptors (Rounds,
--              Descriptor, Refine), the contract (Contract) and what a read and a write back leave
--              (RoundTrip); Keeps, Request and Serve are about whole calls.
--   Dispatch   `vsc_get_msg`, `vsc_get_scsi_cmd_msg`, `vsc_response_msg`: `read` and `write` of the
--              device file, over Cmds, Events, Control and Xfer. Related is about the relations
--              that a read has as its parts, Calls relates the calls to the machine of Control;
--              Counts has what a read delivers and counts.
--   Ioctl      vsc_ioctl.c: `vsc_dev_ioctl` and the operations of the device file. State has the
--              hosts, the registry and the open files; Register `vsc_register_host`,
--              `vsc_ctrl_init` and `vsc_remove_host`, Memory their allocations and
--              `vsc_ctlr_info_destroy`; Hosts, Files and Disks the handlers; Abi the numbers and
--              arguments of the ioctls (RoundTrip); Report `vsc_hostinfo_proc_read`,
--              `vsc_debug_host` and `vsc_debug_cmd`. Keeps says that a handler keeps what its parts
--              keep, Attachment is about files and the hosts that they hold (Commands, Reach),
--              Everywhere about what holds of each host (Commands, Calm) through sequences of
--              calls on the driver (Runs), Unwind about what a registration takes and a removal leaves,
--              Sweep about `vsc_remove_all_host`. Samples has the hosts and the memory of the
--              tests.
--   Setup      `vsc_init`, `vsc_exit`, `vsc_ioctl_init`, `vsc_ioctl_exit` and vsc_sym.c (Uses,
--              Outcome).
--   Params     the parameters of the module: the switch of `vsc_init`, `vsc_seq_write` (Batches),
--              and of vsc_log.c `vsc_set_log_level` (Level) and `vsc_set_trace_swtich`.
--   Template   the callbacks of the driver template that no other part has; `vsch_bios_param`
--              (Geometry).
--   Mounts     `vsc_check_if_dev_mounted`, `vsc_find_dev_in_mnt_info`: the cut of a file into lines
--              (Lines), the search (Found).
-- Each component has its runs at concrete inputs in a module Tests.
--
-- How the code is modelled. Each function of the driver is a function from a state to a result and
-- a state; the code between two takings of the host's lock is one step. Counters of 32 and 64 bits
-- wrap around. Whether `copy_to_user`, `copy_from_user` or an allocation fails is an argument. A
-- null pointer that the code would read through is a result of its own (`oops`, `crashed`), never
-- a default; a write behind a buffer of the kernel is `oops` too. A handler that sleeps is two
-- functions, before and after the sleep; what others do meanwhile are calls on the same state. In
-- a sequence of calls each is taken as a whole, and of the error handlers there is only the abort
-- that nothing overlaps (`aborts_alone`). Kernel lists are lists of indices, and `list_empty` of a
-- node asks whether the index stands in a queue.
--
-- Loops and fuel. The loops that take entries from a queue until it is empty run on as many rounds as
-- the queue has entries at their begin, since each round takes at least one; that they end with an
-- empty queue is part of what is proved of `vsc_each_queue_remove`, `vsc_start_io` (which leaves what
-- `vsc_start_io_new` leaves, with no request) and `vsc_abort_all_event`. All other loops go over a list
-- or count down.
--
-- Memory. Kernel memory and user memory are functions from an address to a byte. How many bytes of a
-- copy the MMU lets through is a parameter, a function of the address and the length. Addresses do not
-- wrap around; lengths and offsets have 32 bits.
--
-- Not modelled. Sequences in which an error handler sleeps, with a reference on its command, while
-- other calls go on, or in which an attach stands between the two parts of a detach: the handlers
-- are functions of their own (Control.Abort). The code under `__VSC_LATENCY_DEBUG__`, which is not
-- defined; the text of what is printed, with the getters of the parameters of vsc_log.c;
-- `vsc_seq_open_dev`, a call of `single_open`. The references that the mid-layer counts
-- (`scsi_device_get`, `scsi_device_put`) are not counted.
pub mod Base
pub mod Codes
pub mod Cmds
pub mod Hosts
pub mod Events
pub mod Control
pub mod Devices
pub mod Xfer
pub mod Dispatch
pub mod Ioctl
pub mod Mounts
pub mod Params
pub mod Setup
pub mod Template
