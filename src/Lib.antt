-- ===== src/Lib.antt =====
-- mxfs: a small log-structured file system for sensor records on a serial NAND flash chip. A bicycle logger
-- (the child, sw/child) appends ANT+, gyro, accelerometer and temperature records; they are buffered by layer,
-- flushed to a page of 2048 bytes when the page is full, and read back page by page.
--
-- The parts, and the files that model them (paths from the repository's root):
--   sw/child/inc/mxfs_def.h: Instance.antt has the constants, the return codes, the layers and `mxfs_inst_t`
--     as the record Inst; Header.antt has `compress_t`, the 16-byte packed header, as four words with its
--     bit-fields written out, and Header/Codec.antt its bytes.
--   sw/child/src/drivers/inc/drivers_def.h: Driver.antt has the operations of a driver as a record, which the
--     file system takes as a parameter, and PageStore, the contract that its proofs rely on.
--   sw/child/src/drivers/macos: Driver/Fake.antt; Driver/Fake/Store.antt fills the contract.
--   sw/child/src/drivers/rp2040: Bus.antt has the instructions of the flash chip, the polling loops and the
--     commands that all drivers repeat, over a bus that is a parameter; Board.antt has the SDK calls as such a
--     bus, Rp2040.antt the driver's functions. Rp2040/Ends.antt, Rp2040/Address.antt and Rp2040/Pages.antt have
--     their properties, Rp2040/Store.antt fills the contract PageStore, and Rp2040/Whole.antt puts the file
--     system on the chip.
--   The flash chip itself (a W25N01G) is no part of the repository. Nand.antt states what the drivers rely on,
--     from its data sheet: IsW25n for the busy and write-enable bits, IsFlash for the page cache, the
--     pages and the registers that the drivers set. Of the configuration register it says only what a value without
--     OTP-E (bit 6) does; the drivers take that value from the protection register, so that their reads are about a
--     chip whose protection register is 0, which a write or an erase sees to. The states of the chip are those
--     with OTP-E clear.
--     Nand/Waits.antt has the loops that wait for the chip, Nand/Steps.antt the single commands, and
--     Nand/Pages.antt the last commands of a read, a write and an erase. IsTimed says that time goes by while
--     the host tool, which does not sleep, looks at a busy chip.
--   sw/child/src/drivers/bcm2711: Linux.antt has the Raspberry Pi's system calls as a parameter, the GPIO and
--     the spidev transfers; Bcm2711.antt has the driver's functions over the transfers of Bcm2711/Spi.antt, which
--     need memory from malloc. Bcm2711/Memory.antt says what they do where it is given, and Bcm2711/Steps.antt and
--     Bcm2711/Pages.antt have the driver's properties.
--   sw/parent/src/read.cc, write.cc, erase.cc and spi.cc: Parent.antt has the step machines and the loops
--     around them. Parent/Polls.antt has the rules for such loops, by phases, Parent/Places.antt the steps that
--     writes and erases share, Parent/Reads.antt, Parent/Writes.antt and Parent/Erases.antt the theorems.
--   sw/parent/src/format.cc: Format.antt has the commands; Format/Formatted.antt is about the format command,
--     Format/Config.antt about a configuration's way to the file system. Format/Search.antt and Format/Csv.antt
--     have the commands that decode pages, with the fuel of their loops (133 and 257 rounds, one for each
--     header of 16 bytes that the buffer can hold), and Format/Main.antt puts the commands together.
--     Format/Csv/Lines.antt has the lines that are printed for the page of a log, and Format/Csv/Page.antt the
--     proof, from the vectors (Format/Csv/Values.antt), single records (Format/Csv/Decode.antt), layers
--     (Format/Csv/Runs.antt and Format/Csv/Shared.antt) and lines (Format/Csv/Printed.antt).
--   sw/child/src/mxfs_append.cc: Append.antt; Append/Outcome.antt has the steps of an append and
--     Append/Refines.antt and Append/Sequence.antt the refinement of an abstract log;
--     Append/Durable.antt follows a flushed log to its page, Append/Fresh.antt keeps the flash ready for the
--     next flush, and Append/Wedge.antt is about the RP2040's smaller buffers. The first four take buffers of 26
--     bytes, which one record of any layer needs, and less than 2^16; a layer's buffer without room for a record
--     is part of the abstract log's step.
--   sw/child/src/mxfs_flush.cc: Flush.antt. Flush/Page.antt describes the page of a log; Flush/Loops.antt,
--     Flush/Prepare.antt and Flush/Prepare/Whole.antt relate the code's loops to it; Flush/Outcome.antt has
--     the invariant and the position, Flush/Stores.antt what the flash holds afterwards.
--   sw/child/src/mxfs_read.cc: Read.antt; Read/Loop.antt has its termination, Read/Headers.antt,
--     Read/Parts.antt and Read/RoundTrip.antt the way back from a page to its payloads.
--   sw/child/src/mxfs_write.cc and mxfs_erase.cc: Write.antt; Write/RoundTrip.antt and Read/Direct.antt have the
--     way of a configuration record to a page and back.
--   sw/child/src/mxfs_timerange.cc: Timerange.antt; Timerange/Marked.antt has the search for marked pages,
--     Timerange/Loop.antt the termination of the loop over a page; Timerange/Spans.antt, Timerange/Found.antt and
--     Timerange/Page.antt say what that loop finds on the page of a log. Frames.antt has such a page as the
--     sequence of its records.
--   sw/child/src/mxfs_instance.cc: Mount.antt; Mount/Current.antt has the choice of the current block,
--     Mount/Sound.antt the created instance, and Mount/Calls.antt sequences of calls, with the count and the lock.
-- Log.antt has the abstract view of an instance, a list of time-stamped records for each layer, and Sound.antt
-- the invariant that ties the two together. Outcome.antt has the results of code that may read outside a
-- buffer. Base.antt passes on the library's names, and its children have the tests, words, byte lists and
-- loops that all parts share. Runs.antt has concrete runs.
--
-- How code corresponds to the model. Integers are natural numbers with the wrap of their width written out. A
-- pointer to a buffer is the list of its bytes; a read outside a buffer is the outcome `fault`, and so is a
-- write through an unchecked pointer. What is passed by reference comes back beside the result. A driver is a
-- parameter, and what it keeps is its state; allocation results and the caller's callback are arguments. A
-- `for` loop with a fixed step recurs on its number of rounds. The loop of mxfs_read has fuel for 129 rounds
-- and that of mxfs_timerange_by_block for 133: every round passes a header of 16 bytes. The polling loops of
-- the drivers have fuel for as many rounds as the chip can be busy, counted in pauses. The loops
-- around the host tool's calls have fuel for as many rounds in each phase of a call as the chip can be busy.
-- exit is the outcome `aborted`, and so is the drivers' PANIC on an unknown chip (PANIC stops the program in builds with
-- __DRIVER_INFO__); where a return stands behind a PANIC, the model has that return.
--
-- The file system's modules follow its build without __LINUX__. LinuxBuild.antt has what the build with
-- __LINUX__ does otherwise: a page's status with its times, and the flush that keeps them. LinuxBuild/Start.antt
-- and LinuxBuild/Ranges.antt have its mxfs_create_instance from the pins on and its mxfs_timerange;
-- LinuxBuild/Plain.antt relates its flush to the other build's (over Flush/Emptied.antt), LinuxBuild/Stamps.antt is
-- about the start time of a page (over Flush/Prepare/Whole/Starts.antt), and LinuxBuild/Lost.antt about a log
-- that is on the flash already. Not modelled of it: mxfs_timerange_by_block, which begins with a
-- PANIC there ("not implemented.").
--
-- The sample values that the csv command prints as int16_t are kept as their 16-bit patterns. A layer's buffer that
-- mxfs_create_instance could not allocate is the empty list, a null pointer.
--
-- Not modelled: the parsing of the host tool's options and most of what it prints;
-- log output; the bound of the caller's buffer in mxfs_read, which the code does not check; the
-- hardware (hw) and the tests.
pub mod Base
pub mod Header
pub mod Instance
pub mod Driver
pub mod Log
pub mod Flush
pub mod Sound
pub mod Append
pub mod Outcome
pub mod Read
pub mod Write
pub mod Timerange
pub mod Mount
pub mod Bus
pub mod Board
pub mod Nand
pub mod Linux
pub mod LinuxBuild
pub mod Bcm2711
pub mod Parent
pub mod Format
pub mod Frames
pub mod Rp2040
pub mod Runs
