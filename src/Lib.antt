-- ===== src/Lib.antt =====
-- The boot loader of the Brillo UEFI x86_64 board (brillo_uefi_x86_64/boot_loader): which of two
-- slots, A and B, is booted, and the metadata that records it; with the tool that writes this
-- metadata (brillo_uefi_x86_64/make_misc_image), the program that sets up the Wi-Fi driver
-- (wifi_driver_hal) and the audio test programs (pts/audio).
--
-- bub_init (bub_boot_kernel.c) looks for the boot disk along the device path of the loader's image.
-- The flow (bub_ab_flow.c) keeps 64 bytes of metadata (bub_ab_flow.h) at the start of the "misc"
-- partition. It reads them through the operations of a platform (bub_ops.h), checks a magic and a
-- checksum (bub_crc32.c, byte order by bub_util.c), brings both slots into one of three states,
-- chooses the bootable slot of the higher priority, uses up one try of it, writes the metadata
-- back, and gives the suffix of the slot to its caller, which looks up and starts the kernel
-- partition with that suffix. Partitions are found by their names in the table of the disk
-- (bub_partition_entry_by_name); the names are converted from UTF-8 by bub_util.c. On the host the
-- operations of the platform are those of files (bub_image_util.cc), and make_misc_image writes the
-- first metadata.
--
--   Base: shared names, byte buffers, Boolean tests, text literals, laws of the exclusive or.
--   Crc32 (bub_crc32.c): Table has the table, bub_crc32 the loop. Serial has the bit-serial
--     checksum to compare with, Detect changes of a message.
--   Util (bub_util.c): bub_be32toh, bub_be64toh (Endian) and utf8_to_ucs2 (Utf8: its loop; Forms,
--     Encode: an encoder to compare with).
--   Ops (bub_ops.h): BubOps is the interface, MiscLaws what its comments promise for the first 64
--     bytes of "misc".
--   AbData (bub_ab_flow.h): BubSlotData, BubAbData and the layout in memory: to_bytes and
--     of_bytes. Stored, Layout: their laws.
--   AbFlow (bub_ab_flow.c): every function of the file under its name. The state of the platform
--     is passed explicitly. Slots: states of a slot. Storage, Corruption: the checks of a block.
--     Misc: reads and writes through the platform. Machine: the abstract A/B machine. Steps,
--     Writes, Boot: the flow and this machine. Tries, Reboot: sequences of boots. Invalid:
--     marking a slot.
--   OpsUefi (bub_ops_uefi.c): reads and writes of a partition over the disk protocol, with the
--     lookup of a partition as a parameter. Range: which bytes of the disk are touched. Platform:
--     the promises of Ops. Keeps: what a read keeps.
--   Main (bub_main.c): efi_main; bub_init and bub_boot_kernel are parameters. Loop: its first
--     round.
--   BootKernel (bub_boot_kernel.c): bub_boot_kernel and LoadParameters over the boot services.
--     Header: the checks of an image. CommandLine: the copy of the command line. Running, Started:
--     the calls behind a kernel that was started. Keeps: what all the calls keep.
--   Loader (bub_main.c): efi_main over the models of bub_init, of the partition I/O and of
--     bub_boot_kernel. Start: which kernel is started. Safe: what stands behind a success.
--   Sysdeps (bub_sysdeps_uefi.c, bub_calloc of bub_util.c): bub_safe_memcmp (Compare), the wrappers
--     of the memory pool, bub_print (Print) and bub_abort. PoolLaws is what the firmware promises.
--   Gpt (bub_boot_kernel.c): validate_gpt (Header) and bub_partition_entry_by_name. Names, Search:
--     the entries and the loop over them. Pool, Balance: the memory that is held on the way. Lookup:
--     the answer. Partition: the lookup in its place in OpsUefi.
--   Discovery (bub_boot_kernel.c): walk_path, getDiskBlockIo and bub_init. Paths: the paths that are
--     tried. Disk: the disk that is found.
--   MiscImage (bub_image_util.cc, make_misc_image.cc and main.cc of make_misc_image): MyOps and the
--     tool. Arguments: the command line. Image: the bytes that are written. Compare:
--     CompareMiscImage.
--   WifiInit (wifi_driver_hal/src/wifi_init.c): main and what it calls. Calls: the calls of the HAL
--     and their order. Protocol: the program and this order.
--   AudioHal (pts/audio/hal-test/audio_hal_playback_test.cpp): GenerateData, PlaySineWave and
--     PlayFile. Generate: the bytes of the sine wave. File: the buffer of PlayFile. Keeps: what the
--     playing keeps. Player: main, with the handles that it opens and closes (Handles). Record
--     (audio_hal_record_test.cpp): main of the recording test, its loop (Loop) and how it ends
--     (Outcome).
--   AudioTest (pts/audio/brillo-audio-test): Formats (utils.cpp), MediaRecord (libmedia_record.cpp),
--     with what its callback stores (Captured), the number of buffers (Buffers) and what Record
--     leaves (Outcome), MediaPlayback (libmedia_playback.cpp), with the sizes of what is filled (Fits), Stagefright
--     (stagefright_record.cpp, stagefright_playback.cpp), with its loop (Loop), and Program
--     (brillo_audio_test.cpp), with the choice of a test (Choice).
--   Examples: the theorems at concrete values.
--
-- Machine integers are numbers, with the wrap-around of the source written out; an int result of
-- the boot loader is a number, since no negative one occurs. The bit fields of a slot are three
-- numbers with their widths as hypotheses. The loop of utf8_to_ucs2 runs on fuel, one more than
-- the bytes of the text: each round reads a byte at a position that grows. The array of the two
-- slots is two fields. The main loop runs on fuel, too, one for each round; it has no bound of
-- its own in the source. The loop over the entries of the table runs on fuel 129, one round for
-- each entry and one to end; the loop over the nodes of a device path takes fuel for each node;
-- GenerateData takes a round for each byte and one more, and copies a byte at least in each;
-- PlayFile takes its fuel as an argument, since a file has no bound. The recording loop takes a
-- round for each byte of its buffer and each read that may fail; the loop on the number of
-- buffers one for each required frame and two more; the stagefright recording one for each byte
-- and one more. A continuation stands for the next round where the source says `continue`. The
-- other loops are recursions on lists or on a count.
--
-- Not modelled: printing of messages; the assertions, which the build leaves empty. The firmware,
-- the UEFI library, POSIX calls, sound files, the base library's command line and the HALs are
-- parameters, as are bub_init and bub_boot_kernel for the main loop, until Loader fills them in,
-- and the lookup of a partition for its reads and writes, until Gpt/Partition fills it in. An
-- access outside a buffer, a division by zero and an int that overflows are ends of their own
-- (fault, overrun, unset_read, divided_by_zero, int_overflow) where the models check for them; what
-- the program would do after one is not modelled, but for Loader, where what follows an access
-- outside a buffer in the kernel start, and one or an endless search in the lookup of a partition,
-- are parameters. A read or write outside a buffer inside a call of a library is not seen. A call
-- of bub_error ends the model of the boot loader: bub_sysdeps.h declares bub_abort with the
-- attribute noreturn, and the code behind it has no meaning if BS->Exit, which is called with a
-- null handle there, returns. bub_memcmp, bub_memcpy and their
-- like call the UEFI or the C library: they are operations of lists where they are used.
-- Callbacks that a thread of the platform makes while a program sleeps are the list of their
-- events. The sensor library (sensor) and the sine source (pts/audio/common) are copies of files
-- of other projects and are left out; the tests take the source as a parameter. Unit tests are
-- runs at fixed inputs. The tests of the kernel (pts/seccomp) are left out, and the files of the
-- other boards hold configuration.
pub mod Base
pub mod Crc32
pub mod Util
pub mod Ops
pub mod AbData
pub mod AbFlow
pub mod OpsUefi
pub mod Main
pub mod BootKernel
pub mod Loader
pub mod Gpt
pub mod Discovery
pub mod MiscImage
pub mod WifiInit
pub mod AudioHal
pub mod AudioTest
pub mod Sysdeps
pub mod Examples
