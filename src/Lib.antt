-- ===== src/Lib.antt =====
-- The kernel stub of the Solarflare SFN7000 driver with CAPIO, as a verification library.
--
-- The repository has a small framework, CAPIO (capio.c, capio.h), that lets a process own a device
-- by a sealed CHERI capability and map the device's memory regions, and a driver for the SFC7120
-- (sfc7120.c) that uses it. The driver talks to the management controller (MC) of the card by MCDI
-- (sfc7120_mcdi.c): requests and responses in a mailbox of 256 bytes in DMA memory, announced by a
-- pair of doorbell registers. Packets do not go through MCDI: the card reports them in rings of
-- event words, which the interrupt handler (control queue) and the user library
-- (userlib/sfc7120_user.c, data queue) consume.
--
-- Modules:
--   Base           Boolean tests on numbers, errno values, steps that may fault (Fault), shifts and
--                  masks (Bits), memory as a function from addresses (Buffer), words and bytes
--                  (Bytes).
--   Capio.Types    the data of capio.h; Cheri and Ops are the capability instructions and the
--                  driver below, both parameters.
--   Capio.Act      an operation on the softc that may fault on its mutex (CAP_LOCK, CAP_UNLOCK).
--   Capio.Token, Region, Revoke, Pager, Mmap, Ioctl
--                  capio.c function by function: check_cap_token, set_cap_token, grant_access;
--                  capio_vaddr_callback, capio_slice_length_callback, init_capio_sc;
--                  delete_mapping_from_user, revoke_cap_token, revoke_access; capio_pager_ctor,
--                  capio_pager_dtor, capio_pager_fault; capio_mmap_single_extra;
--                  capio_ioctl_handler.
--   Capio.Session, Teardown, Mapping, Exclusive, Reach
--                  their theorems: the abstract owner that the ioctls refine, revocation, the two
--                  ends of mmap, one mapping at a time, and every sequence of entries.
--   Mcdi.Mailbox, Wire, Poll, Exec
--                  sfc7120_mcdi.c up to sfc7120_mcdi_exec: the mcdi_buf_ accessors,
--                  sfc7120_mcdi_send_locked, sfc7120_mcdi_poll_response, sfc7120_mcdi_xlate_err,
--                  sfc7120_mcdi_exec. The card is a Device, a parameter: what a register write
--                  does to it, what a register reads as, and what it has done to the mailbox when
--                  the driver synchronises.
--   Mcdi.Copy, Framing, Send, Exchange, Deliver
--                  their theorems. Framing has an independent decoder of a request, as the
--                  controller reads it.
--   Mcdi.Responder a controller for the examples.
--   Nic.State, Attach, Queue, Port, Link, Filter, Bringup
--                  the commands of sfc7120_mcdi.c (sfc7120_mcdi_NAME is NAME), sfc7120_mcdi_init
--                  and sfc7120_mcdi_fini, and sfc7120_hw_init and sfc7120_hw_teardown of sfc7120.c.
--   Nic.Kept, Ready, Down, Leaks, Guard, Handle
--                  their theorems.
--   Event.Ring, Interrupt, Poll, Drain
--                  sfc7120_interrupt_handler of sfc7120.c, sfc7120_poll of
--                  userlib/sfc7120_user.c, and the drain of a ring that both refine.
--   Data.Descriptor, Path, Post, Slices
--                  the direct path of the user library, sfc7120_tx_post and sfc7120_rx_recv of
--                  userlib/sfc7120_user.c; sfc7120_post_rx_buffers of sfc7120.c; the register
--                  slices of sfc7120_tables.c.
--   Data.Packet    the theorems on one packet.
--   Driver.Channel, Wait, Ioctl
--                  sfc7120_ioctl of sfc7120.c: the fields of the data path with the driver's mutex,
--                  the loops that wait for an event, and the cases of the switch (check_tx,
--                  copy_packet, post_packet, await_completion and advance_tx are the steps of
--                  SFC7120_TX; await_packet, copy_frame and repost those of SFC7120_RX). World is
--                  what the card and copyin or copyout do during a call, a parameter.
--   Driver.Await, Answer, Within, Safe, Complete, Receive
--                  their theorems: what a wait finds, that every ioctl is safe, and what a transmit
--                  and a receive request do with a card that answers or does not.
--   Driver.Mapped, Direct, Handoff
--                  the direct path of the user library against the ioctls on the same memory, call
--                  by call and over a whole session.
--   Lifecycle.Dma, Interrupt, Regions, Device
--                  sfc7120_alloc_dmabuf to sfc7120_free_dma_resources, sfc7120_intr_setup and
--                  sfc7120_intr_teardown, the table smem and sfc7120_get_buffer_size,
--                  sfc7120_fbsd_attach and sfc7120_fbsd_detach of sfc7120.c. Beside the fields stands
--                  what the bus holds; a call that the bus does not allow is a fault.
--   Lifecycle.Allocated, Unwind, Resources, Vector, Failing, Attached, Shared
--                  their theorems: all or nothing at every step, attach, detach, and the framework
--                  on top of an attached device.
--   User.Session   map_region, sfc7120_init and sfc7120_destroy of userlib/sfc7120_user.c, with
--                  what the process holds and the system calls so far; the answers of the system
--                  calls, of every munmap too, are parameters.
--   User.Balance, Steps, Opened
--                  their theorems.
--   Stack.System, Serve, Run, Packets, Leave
--                  the parts together: sfc7120_tx and sfc7120_rx of the user library, the framework's
--                  ioctl handler and the driver's ioctl below it, one call and sequences of calls
--                  from any processes, and the framework after sfc7120_destroy.
--   Stack.Node, Wake, Close
--                  the device node beside its ioctl: sfc7120_fbsd_probe, sfc7120_open,
--                  sfc7120_close, sfc7120_poll and sfc7120_rx_task_handler of sfc7120.c, which
--                  nothing makes run.
--   Capio.Samples, Nic.Samples, Driver.Samples, User.Samples
--                  softcs, a bus, a channel, a card and sessions for the examples.
--   The modules called Tests (but Base.Tests, the Boolean tests) hold the examples.
--
-- Choices. Numbers are natural numbers; a value that the code stores in a fixed width is cut to it
-- where it can be too large (u32, u16, u64). A host is little-endian. A call of sfc7120_mcdi_exec is
-- one step: its mutex, the log output and the transport's assertions are not modelled (that of
-- sfc7120_mcdi_init_evq is a fault when it fails), and neither is the lock of the driver's softc in
-- the interrupt handler and in attach and detach. The mutex of CAPIO, in the ioctls the one of the
-- driver, and the one of the pollers are modelled: taking a held one or dropping a free one is a fault. Loops over the region table are recursion on the table or on its length; the
-- payload copies have as many rounds as there are bytes; the polling loop has 114 rounds, and the
-- doubling delays reach the limit of 10 seconds within them whatever the card does, so the fuel never
-- runs out; the interrupt handler's loop has the 512 rounds that the code counts, and the waits of
-- the ioctls have its 10000 and 100000 tries. A fault is the result none, so that an equation with
-- some says that there is none.
--
-- Not modelled: make_dev_capio and capio_destroy (registration with the kernel), sfc7120_pcie_flr
-- (unused), sfc7120_dump_regs and sfc7120_mcdi_log_mc_state (log output), the programs
-- userlib/test.c and userlib/bench.c, and the excerpts of another driver (ref_sfxge_mcdi.c,
-- ref_efx_regs_mcdi.h).
pub mod Base
pub mod Capio
pub mod Mcdi
pub mod Nic
pub mod Event
pub mod Data
pub mod Driver
pub mod Lifecycle
pub mod User
pub mod Stack
