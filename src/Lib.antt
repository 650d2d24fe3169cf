-- ===== src/Lib.antt =====
-- The core 1 firmware of MokyaLora, a handheld Meshtastic terminal: the RP2350's core 0 runs the
-- radio stack, core 1 (firmware/core1) the keypad, the screen and the sensors. The two share only
-- the memory of firmware/shared/ipc, where message rings carry what the radio hears and what the
-- user sends. On core 1 the keypad and two injection transports feed key events into queues for the
-- input method and the views, and the texts received are kept in an inbox.
--
-- Ipc/Ring.antt models firmware/shared/ipc/ipc_ringbuf.c: a ring is its control block and slots,
-- and `push`, `pop`, `pending` and `free_slots` are `ipc_ring_push` and so on, each as one call.
-- Spec is the abstract view, a bounded queue of packets; Inv the invariant, Window and Refine the
-- step from the slots to the queue. Ring/Cores.antt splits the two calls into the loads, slot
-- accesses and index stores that they make and interleaves those of the two cores in any order. It
-- takes the release and acquire orderings of the source at their word, so a step sees what earlier
-- steps wrote; a slot that is being written may hold anything.
--
-- Keys/Code, Keys/Event model firmware/core1/src/keypad/key_event.c: both push functions with the
-- bitmap of held keys, the queues and the counters. The FreeRTOS queues are a parameter
-- (Keys/Queue.antt) whose laws are the documented behaviour of `xQueueCreate`, `xQueueSend` and
-- `xQueueReceive`. Each call of key_event.c is taken as one step, although its critical section
-- covers the bitmap alone. Keys/Frame models key_inject_frame.c and the CRC of its header, byte by
-- byte. Keys/Scan models the two passes of the loop in keypad_scan.c as one key sees them: its five
-- array cells, its debounced state and the pushes it causes. Scan/Matrix is the whole round over
-- the 6x6 matrix, with both snapshots and the calls of key_event.c. What the DMA delivered and the
-- keymap are arguments. Keys/Inject models the rounds of the two injection tasks: key_inject.c's
-- drain of the ring that a debugger writes, and key_inject_rtt.c's frame handler behind the frame
-- parser. What the host has written is an argument; the drain runs on fuel, the number of events
-- between the two indices, and ends with them equal.
--
-- Messages models firmware/core1/src/messages, each call as a whole: Inbox is messages_inbox.c,
-- Send messages_send.c with the layout of `IpcPayloadText` in firmware/shared/ipc/ipc_protocol.h,
-- on top of the rings, Status is messages_tx_status.c, and Nodes is nodes_db.c.
--
-- Bridge models `bridge_task` of firmware/core1/m1_bridge/src/main_core1_bridge.c: Fields the
-- dispatch of a ring message to nodes, inbox and transmit status, Loop the rounds that drain the
-- rings into the serial port and what the host types into the command ring. The port, the waits and
-- core 0 are a parameter, `Outside`. The two loops of a round that wait, for the host to take bytes
-- and for core 0 to take a command, run on fuel; Serial and Commands show how much is enough, for a
-- host and a core 0 that go on reading.
--
-- Flash is firmware/core1/src/ime/flash_safety_wrap.c with the handler of the doorbell in
-- main_core1_bridge.c that parks core 1: both cores as machines whose accesses to the lock word,
-- the doorbell and the ready flag interleave. Core 0's half of each direction is not in the
-- repository and is taken as the mirror image. Flash/Both joins the two directions: on each core
-- the handler interrupts the writer, which stands still meanwhile. Ui/Router is the view router of
-- firmware/core1/src/ui/view_router.c, with the views' own handlers as a parameter. Ime/Dict is
-- firmware/core1/src/ime/mie_dict_loader.c, both formats of the dictionary, its copies by way of
-- the uncached alias and the lines of the cache it drops.
--
-- Power/Lm27965 models firmware/core1/src/power/lm27965.c with its register cache. The bus and the
-- chip's registers are a parameter: an acknowledged write sets its register, and no write touches
-- another.
--
-- Bus.antt is the I2C bus with a register chip behind it, as the other drivers use it: a parameter
-- whose laws hold of the registers that the parameter calls steady, those that only the host's
-- writes change. Bus/Link is the drivers' account of failed polls, which each driver has as a copy.
-- Power/Bq25622 models firmware/core1/src/power/bq25622.c: conversions, initialisation, polls and
-- control calls; the polls are cut at the points where a transfer may fail. Its start loop runs on
-- a bound, which any bound above the first success meets. Sensor models the three drivers of
-- firmware/core1/src/sensor on that bus, lps22hh.c, lis2mdl.c and lsm6dsv16x.c, and Sensor/Schedule
-- the rounds of sensor_task.c. What a delay does to the world is an argument.
--
-- Gnss models the reception of firmware/core1/src/sensor/teseo_liv3fl.c: Gnss/Nmea the checksum and
-- the fields of a sentence, Gnss/Line the assembly of lines from the reads of the bus, their
-- dispatch and the building of commands, Gnss/Sats, Diagnostics and Parse the parsers. Gnss/Rate
-- models the calls that send commands and poll for the reply; sending, a poll and the clock are its
-- parameter; with a clock that runs, its fuel is enough from one round more than the timeout has
-- ticks. `strtoul`, `atoi`, the digits that `snprintf` prints and what is computed in double
-- precision are arguments. A list stands for the used part of an array; signed results are bit
-- patterns.
--
-- Machine integers are natural numbers whose wrap-around is written out (Prelude/Words.antt); bytes
-- and halfwords that the code only copies are not reduced. The other loops are structural recursion
-- over their input. A pointer argument is an option, `none` for `NULL`; that it points to as many
-- bytes as its length says is a hypothesis where it matters.
--
-- Not modelled: the set-up of shared memory and its GPS buffer, the start of the tasks, the gauge,
-- which is a stub, the test data of the GNSS receiver, the USB descriptors, and all that is
-- hardware access or user interface (display, PSRAM, fonts, LVGL views, bring-up tools, PIO and DMA
-- of the keypad). The input method engine of firmware/mie is C++ and a program of its own.
pub mod Prelude
pub mod Ipc
pub mod Keys
pub mod Messages
pub mod Bridge
pub mod Bus
pub mod Power
pub mod Sensor
pub mod Flash
pub mod Ime
pub mod Ui
pub mod Gnss
