-- ===== src/Lib.antt =====
-- A model of elitelog, a program that reads and configures Elitech temperature loggers over USB.
--
-- internal/elitech holds the device protocol. `encodeFrame` and `decodeFrame` (frame.go) turn a
-- request into a 64-byte HID report and back; record.go decodes the stored samples in their two
-- formats; info.go codes the blocks of the parameter space and of the status space; logger.go
-- composes them into the methods of `Logger` (`Info`, `Records`, `Configure`, `Stop`, `ReadRaw`),
-- each a sequence of requests and replies over the interface `transport`.
--
-- internal/hid finds the hidraw nodes of a logger and is the transport of an open one. service.go
-- opens and closes the device around each method; the handlers of internal/web and the commands of
-- cmd/elitelog are clients of the service.
--
-- Base       lists, Boolean tests, integers, Go's (value, error) pairs as `Result`, and Base/Step for
--            calls on a state; Base/Step/Preserve has the invariants of such calls, Base/Step/Safe
--            those that do not panic
-- Text       the parts of Go's packages strings and strconv that the program uses, on lists of bytes
-- Hid        internal/hid/hid.go; Hid/Conn is internal/hid/conn.go
-- Frame      internal/elitech/frame.go; Frame/RoundTrip, Frame/Corruption
-- Calendar   the part of Go's package time that the program uses; Calendar/Inverse
-- Record     internal/elitech/record.go; Record/Word has the layout of PROTOCOL.md
-- Info       internal/elitech/info.go; Info/RoundTrip, Info/Capacity
-- Logger     internal/elitech/logger.go:
--   Transport  the interface, the clock and the fields of `Logger`; a method is a function of them
--   Exchange   `drain`, `readReport`, `awaitReply`, `getWith`, `readOp5`, `set`
--   Identity   `primeWith`, `readCapacityCount`, `readStatus`, `Info`
--   Download   `Records`, `getRecordPacket`, `sendConnectPreamble`, `plausibleRecords`
--   Configure  `Configure`, `VerifySettings`, `Stop`, `ReadRaw`, `configBlocks`
--   Logic      properties of the calls of the transport, carried over to the methods
--   the others are named for what they are about
-- Fake       internal/elitech/fake_test.go, the simulated logger of the tests, as a transport
--   Exchange, Memory, Methods  requests to it, and the calls that read and write its memories
--   Packets, Slots, Download, Stored  `Records` on it; Preamble is its request for a packet of a
--              device that needs the preamble
--   Inspect, Writes, Settled, Patched, Configured, Stopped  `Info`, `Configure` and `Stop` on it
--   Service                    internal/elitech/service.go on it
-- Service    internal/elitech/service.go: the methods between an `Open` and a `Close`; Service/Csv
--            is `WriteCSV`
-- Loggers    the interface `Loggers` of internal/web/web.go and the service behind it;
--            Loggers/Guarded has the sequences of its calls
-- Web        internal/web/web.go: the interval form, durations, the headline state
--   Form, Controls  the values of a form, the confirmation, the fields of the interval
--   Site            the handlers, with their requests and pages in Site/Pages
--   Router          `NewHandler`, with the choice of a pattern by net/http as a parameter
--   Sent            the form of the settings, and what a browser sends of it
--   View, Facts     what the pages show of the records, of the state and of the device
-- Cli        cmd/elitelog/main.go; Cli/Version has the version and the address that is shown
-- Tests      a small device of the same kind with a clock that moves, and runs
--
-- The device and the clock are the parameter `Transport`, a world with the five calls as functions
-- of it, of which Hid/Conn is an instance over the calls of the operating system and Fake another,
-- with a clock that each read moves on by a nanosecond; `Open` is a function beside it, and so are
-- the choice of a pattern by `http.ServeMux`, what a build records of itself, `strings.TrimSpace`, the csv.Writer, the text of a time, package
-- flag and the tree of sysfs. Nothing is assumed of them but where a statement says so.
-- `Logger.mu` makes the methods a sequence, so a method is a function of the state; the mutex is not
-- modelled.
--
-- Bytes are numbers below 256 in lists, and `byte`, `uint16` and `uint32` conversions are written
-- as remainders. Times are nanoseconds since year 1, as `time.Time` keeps them, in a zone whose
-- offset never changes. A float64 in tenths is its sign and its magnitude in tenths. Errors are the
-- sentinels that `errors.Is` finds; their texts and the log of ELITELOG_TRACE are left out.
--
-- Loops on a deadline run on fuel: one more read than the nanoseconds of the wait, which is enough
-- on a clock where every read takes a nanosecond. The loop over packets has two rounds more than
-- there are packets. A loop without fuel gives `stuck`, which is no value of the program.
--
-- Not modelled: the markup and the styles of the pages, the charts but for their points, the mean
-- temperature (a sum of rounded floats) and the lock around the rendering; the texts that cmd/elitelog
-- prints but for the version; the log of reports.
pub mod Base
pub mod Frame
pub mod Text
pub mod Hid
pub mod Calendar
pub mod Record
pub mod Info
pub mod Logger
pub mod Fake
pub mod Service
pub mod Loggers
pub mod Cli
pub mod Web
pub mod Tests
