-- ===== src/Lib.antt =====
-- The OnLogic driver for the Programmable Services Engine (PSE) of Intel Elkhart Lake. User programs
-- talk to the firmware through /dev/pse, a character device (src/pse.c) that is a client of ISHTP, the
-- transport of Intel's Integrated Sensor Hub, of which the repository keeps two copies
-- (src/intel-ish-hid-linux-6.5 and src/intel-ish-hid-5.15). The model follows the copy for 6.5.
--
-- A message of a user program goes from `ishtp_pse_write` to `ishtp_cl_send`, which copies it to a buffer
-- of the client's transmit ring, cuts it into fragments (or copies it to DMA memory) and puts these on the
-- IPC queue of the device. A message of the firmware comes as fragments to `recv_ishtp_cl_msg`, which
-- collects them in a buffer that the client has posted; the buffer goes to the client's list of received
-- messages, an event is raised, `ishtp_pse_event_cb` takes the buffer and `ishtp_pse_read` copies it
-- to the user and recycles it. Flow control: for each credit that the driver sends, the firmware may send
-- one message, and a buffer is posted for it.
--
-- The files, and the code that each models:
--   Prelude/         Boolean tests, counters that wrap around, lists with `memcpy`, numbers as bytes, the
--                    values of an `int`.
--   Ishtp/Types      the structures of ishtp/ishtp-dev.h, client.h, hbm.h and bus.h.
--   Ishtp/Ipc        ipc/ipc.c: write_ipc_from_queue, write_ipc_to_queue; ishtp/bus.c: ishtp_send_msg.
--                    Ipc/Queue is what the queue promises.
--   Ishtp/Dma        ishtp/dma-if.c: the slots of the DMA Tx buffer. Dma/Slots is about handing them
--                    out, Dma/Release about their release.
--   Ishtp/Hbm        ishtp/hbm.c: flow control, connect and disconnect requests.
--   Ishtp/Send       ishtp/client.c: ishtp_cl_send and what it calls. Send/Fragments is about the
--                    loop of ipc_tx_send, Send/Delivery about a whole message, Send/Pool about the
--                    transmit buffers.
--   Ishtp/Rings      ishtp/client-buffers.c, and ishtp_cl_read_start of client.c. Rings/Credits is about
--                    buffers and credits, Rings/Alloc about the allocation.
--   Ishtp/Recv       ishtp/client.c: recv_ishtp_cl_msg; ipc/ipc.c: _ishtp_read. Recv/Buffer is about one
--                    fragment, Recv/Search about the search for its buffer, Recv/Message about a
--                    message, Recv/Safety about freed memory.
--   Ishtp/Link       ishtp/client.c: ishtp_cl_allocate, ishtp_cl_free, ishtp_cl_link, ishtp_cl_unlink and the
--                    flush of the posted buffers. Link/Roundtrip and Link/Release are about these.
--   Ishtp/Answers    ishtp/hbm.c: connect and disconnect responses, and the disconnect request of the
--                    firmware. Answers/Effect is about them.
--   Ishtp/Connect    ishtp/client.c: ishtp_cl_connect, ishtp_cl_disconnect; ishtp/bus.c:
--                    ishtp_cl_device_bind. Connect/Leak is about a connection that is not closed.
--   Ishtp/Credit     ishtp/hbm.c: a flow control message in recv_hbm. Credit/Commute is about its arrival.
--   Ishtp/Startup    the state of the bus while it starts; ipc/ipc.c: _ish_hw_reset; ishtp/bus.c:
--                    ishtp_bus_new_client, ishtp_bus_remove_all_clients. Startup/Exchange has the requests of
--                    ishtp/hbm.c, Startup/Responses the cases of ishtp_hbm_dispatch that belong to the start,
--                    and the handlers of a reset. Startup/Addresses, Startup/Fill, Startup/Store,
--                    Startup/Past and Startup/Table are about the table of the firmware's clients, Startup/Faults about
--                    where it is left.
--   Ishtp/Inbox      ishtp/hbm.c: the queue of received bus messages, from recv_hbm to bh_hbm_work_fn.
--                    Inbox/Blocks and Inbox/Order are about what it hands out, Inbox/Stuck about what it
--                    leaves.
--   Ishtp/Transfer   ishtp/hbm.c: ishtp_hbm_dma_xfer, ishtp_hbm_dma_xfer_ack; ishtp/client.c:
--                    recv_ishtp_cl_msg_dma. Transfer/Paths and Transfer/Messages compare it with the
--                    way over IPC.
--   Ishtp/Dispatch   ishtp/hbm.c: ishtp_hbm_dispatch, recv_hbm, the messages of the fixed client; ishtp/bus.c:
--                    ishtp_recv.
--   Ishtp/Interrupt  ipc/ipc.c: ish_irq_handler, the management messages. Interrupt/Alive, Interrupt/Delivery,
--                    Interrupt/Live, Interrupt/Flow and Interrupt/Safe are about single messages,
--                    Interrupt/Sequence about any number of interrupts.
--   Ishtp/Reset      ipc/ipc.c: timed_wait_for_timeout, ish_fw_reset_handler, fw_reset_work_fn, _ish_ipc_reset,
--                    ish_hw_start, ish_disable_dma, ish_device_disable; ishtp/hbm.c: ishtp_hbm_start_wait;
--                    ishtp/init.c: ishtp_start. Reset/Waits is about the waits, Reset/Clean about a reset of
--                    the firmware.
--   Loader           src/intel-ish-hid-linux-6.5/ishtp-fw-loader.c: process_recv, loader_cl_send. Loader/Xfer has
--                    the query, the transfers of the image and the start, Loader/Load a load and its retries.
--                    Loader/Exchange is about one exchange, Loader/Receive about the messages that
--                    come, Loader/Image about the loop of the transfers, Loader/Wire about what the hub reads,
--                    Loader/Steady and Loader/Retries about the retries.
--   Pse/Types        src/pse.c: struct pse_device; the record `Bus` of the functions and fields of ISHTP
--                    that pse.c uses; the monad of its handlers.
--   Pse/File         open, read, write, release.   Pse/Ioctl   the ioctl of pse.c and pse.h.
--   Pse/Events       the event callback, the reset and its work.   Pse/Probe   probe and removal.
--   Pse/Reading, Pse/Calls, Pse/Lock, Pse/Faults   the theorems about these.
--   Examples/Heci    examples/heci_types.h: messages as structures and as bytes, with Heci/Layout.
--   Examples/Program the system calls of a user program.
--   Examples/Client  examples/pse.c: the exchange of commands. Client/Driver runs it over the character
--                    driver, Client/Faults is about an error that it hides.
--   Examples/Can     examples/can.c, cansend.c, candump.c.   Can/Frames is about the frames shown.
--   Examples/Pins    examples/dio.c, led.c, pwm.c, version.c.   Pins/Levels is about their numbers.
--   Examples/Automotive  examples/automotive.c.   Automotive/Settings is about a setting.
--   Tests/           the theorems at concrete inputs.
--
-- A user program sends a header of six bytes, with a body of 233 bytes if there is one, by one write, and
-- reads the header of the response and then its body by two reads.
--
-- When the bus starts, the driver asks the firmware for a map of its clients, and then for the properties
-- of each of them in turn; when all are known the device is enabled.
--
-- State is passed on explicitly: `Sys` is a device with one client, `World` of Ishtp/Types a device with
-- all clients in memory, `World` of Pse/Types the driver over any state of the bus. A spinlock section
-- is one step, so that a function is run as a whole; what happens while `ishtp_pse_read` waits is a list of
-- activities of other threads. A handler of pse.c ends in `done`, or in `blocked` where it waits for a
-- mutex that nobody will release, or in `fault` where it uses a client whose memory was freed. An
-- allocation is granted or not by a list of outcomes in the device. Counters have the width that they have
-- in C and wrap around.
--
-- Fuel: the loop of `ipc_tx_send` gets one round more than it has bytes to send, each round sends one at
-- least; the search for DMA slots gets one round more than there are slots, each round goes on behind a used
-- one; a program that reads a message gets a call for each byte. The loops of can.c and candump.c, which go
-- on until a read fails or a signal comes, get a number of rounds.
--
-- The waits of ipc.c get as many rounds as slices of their time; the transfers of the firmware image one
-- round more than the image has bytes, each piece having one at least; and the loads of the firmware one
-- more than retries are left.
--
-- The functions of the kernel (allocation, user memory, character devices, work queues) are
-- represented by their outcomes. Not modelled: the device model glue of ishtp/bus.c, the time that is
-- renewed in a clock message, the allocations of ish_dev_init, the PCI glue, the client driver for HID, how
-- the firmware loader links and connects its client, and the copy for kernel 5.15, which differs in a few
-- lines; of the example programs, their error messages and what the signal handler of candump.c
-- interrupts.
pub mod Prelude
pub mod Ishtp
pub mod Pse
pub mod Loader
pub mod Examples
pub mod Tests
