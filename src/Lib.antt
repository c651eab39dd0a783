-- ===== src/Lib.antt =====
-- Verification of the K-FSW modules.
--
-- Four modules of a satellite's or ground station's software, each with a parameter table that the
-- parameter service reads and writes. They share no state and do not call each other.
--
-- gpredict/ follows a satellite pass. Bearings from a predictor pass the selected profile
-- (gpredict_profiles.c), which can only narrow what the tracker (gpredict.c) allows; the tracker
-- keeps the state machine, the silence timer and the counters; the commands (gpredict_commands.c)
-- and the table (parameters/gpredict_table.c) act on both.
--   Gpredict/Config     the options of gpredict/Kconfig and the assertions on them
--   Gpredict/Machine    kfsw_gpredict_next, on the states and on any values of the C enums
--   Gpredict/Tracker    gpredict.c: the static variables as one record, one function per function;
--                       the record and apply_event are in Gpredict/Tracker/Core. Gpredict/Tracker/Deadline
--                       runs the silence work on a kernel that may be late
--   Gpredict/Profiles   gpredict_profiles.c
--   Gpredict/Commands   gpredict_commands.c, without the formatting of the answers; the definitions
--                       that it registers are in Gpredict/Commands/Registry
--   Gpredict/Table      parameters/gpredict_table.c; the functions of its entries are in
--                       Gpredict/Table/Samplers
--   Gpredict/System     all of these together, over any sequence of calls
--
-- radio-uhf/ protects packets between two nodes. The application starts it before CSP; from then on
-- the UART codec calls encode() and decode(), which also answers the peer's handshake frames; the
-- table writes the key and the switches, which are stored in a file before they take effect.
--   Radio/Platform      the calls of the PSA cryptography and of Zephyr, as parameters, and the
--                       documented behaviour that the theorems rely on
--   Radio/Settings      struct radio_crypto_settings
--   Radio/Store         src/radio_crypto_store.c, on a file system that is a parameter; Radio/Store/Cut
--                       has the one whose power goes after some number of calls
--   Radio/Link          the static variables of src/radio_crypto.c and their helpers
--   Radio/Handshake     sign_control, derive_key, connect_locked, hello_received, control_received
--   Radio/Frames        encode and decode
--   Radio/Control       kfsw_radio_uhf_crypto_init and _get, save_settings and the setters;
--                       Radio/Control/Concurrent has the packets that pass between their two locks
--   Radio/Runs          any sequence of the calls that reach the link
--   Radio/Channel       two ends of a session and the frames between them, as a step relation: what
--                       the codec promises, not code
--   Radio/Session       from no session to the first packet that arrives
--   Radio/Pace          how often the calls lead to a request of a session
--   Radio/Host          src/radio_crypto_host.c and radio_random
--   Radio/Info          the identity of src/radio_uhf.c, and the entries of parameters/radio_uhf_table.c
--   Radio/Sampling      the sample functions of that table, and the one that a written key reaches
--   Radio/Shell         the shell commands of src/radio_uhf.c, and holybro/src/holybro.c
--   Radio/Bench         a platform that behaves as documented, and Radio/Disk a disk, for the examples
--
-- boton-test/ counts debounced presses and switches LEDs: Boton is boton_test.c and the work item and
-- interrupt of boton_test_gpio.c, Boton/Driver the other GPIO functions on a driver that is a
-- parameter, Boton/Table the table, Boton/Shell the shell commands; Boton/Debounce runs the work item
-- and the edges on a kernel that runs what is due. temperature-sensor-example/
-- caches a sensor: Temp. Tables puts the four parameter tables side by side; Params has their shape,
-- and Shell that of a printed line. Prelude and Errno hold what all share.
--
-- Each static variable is a field of its module's record, and a function that runs under a mutex is
-- one step on it: what runs at the same time is ordered by the lock, so an interleaving is a list of
-- calls. Results of calls outside the repository come in through an argument or through a record of
-- functions. A 32-bit counter keeps its clamp or its wrap-around, and clocks are 64-bit counts of
-- milliseconds. The loop over profile slots runs over the number that is left, the copy of a name
-- over its bytes. The one loop whose end is not the code's to decide, that of getrandom(), runs on
-- fuel: a call that no signal interrupts gives a byte or ends the loop, so size * (k + 1) + 1 rounds
-- are enough if at most k calls in a row are interrupted.
--
-- Not modelled: log lines other than those of the tracker and of the temperature poll, the wiping
-- of buffers and keys, the registration of the shell commands and the formatting of the command
-- answers, threads and blocking on a mutex, and the numeric values of errno.h.
pub mod Boton
pub mod Errno
pub mod Gpredict
pub mod Params
pub mod Prelude
pub mod Radio
pub mod Shell
pub mod Tables
pub mod Temp
