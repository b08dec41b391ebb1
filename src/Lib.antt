-- ===== src/Lib.antt =====
-- A verification library for Freeway Pi, the daemon that gives a ventilation unit on an RS-485 line
-- a web interface and a Modbus TCP gateway.
--
-- How the program is put together: requests of the web interface, of Modbus TCP clients and of the
-- background poller meet in the bus, which owns the serial port and takes one at a time. Below the
-- bus, the Modbus client frames a request, sends it with retries and checks the answer. Above it,
-- the poller keeps a copy of the unit's registers, the decoding of which says what the unit does,
-- and commands become writes of coils and registers.
--
-- The files, and the code each is about:
--
-- Base: lists, tests, bits, results and integers that all parts share.
-- Modbus (internal/modbus): Modbus/Crc is crc.go, bit by bit. Modbus/Pdu has the function codes and
-- the errors, which carry the numbers that Go's texts are made from. Modbus/Rtu is rtu.go, Modbus/Tcp
-- is tcp.go with a stream as the list of bytes to come. Modbus/Client is client.go over an abstract
-- transport with a state of its own; a run gives the result, the exchanges it reported and the state.
-- Gateway (internal/gateway): Gateway/Breaker is breaker.go, with the clock's readings as arguments.
-- Gateway/Acl is acl.go over an abstract net/netip. Gateway/Server is the answering of one request in
-- server.go, with the answer of the bus as an argument; Gateway/Server/Sessions has what the handlers
-- do between two locks as the steps of a relation, so that connections interleave. Gateway/Names is
-- resolve.go, with the start and the end of a lookup as steps of their own.
-- Bus (internal/bus): Bus/Line is the choice of the next job and what serve does about failures, with
-- what a reopening of the port would do as part of each failure. Bus/Window is the counting of
-- attempts. Bus/Poller is poller.go; the six reads of registers and the read of the coils of a pass are
-- arguments, and one pass reads each block once.
-- Eda (internal/eda): Eda/Modes is the modes of state.go and command.go, Eda/Programs is programs.go,
-- Eda/Alarms is alarms.go, Eda/Settings is settings.go, and Eda/Setpoint is SetSetpoint. Eda/Output is
-- readOutput and Eda/State is Decode of state.go, with the writes of the clock, the service counter
-- and the permissions. Go's int is an integer without bounds there (Base/Ints), and a floating-point
-- number is counted in tenths.
-- Notify (internal/notify): notify.go, with keys as numbers and the channels' answers as arguments.
-- Notify/Watcher is watch.go over it, with what a look finds as a record.
--
-- Auth (internal/auth): auth.go, with hashing, base64 and what randomHex returns as parameters. Times
-- are nanoseconds since 1970 and the zero time is 0; a call reads the clock once. Auth/Brake and
-- Auth/Locked are about the brake on guessing, Auth/Nonces about the challenges, Auth/Evicting about the loop
-- that makes room for one, Auth/Sessions and Auth/Changes about logins and changes of the PIN.
--
-- Control (internal/control): control.go, overpressure.go and errors.go. Control/Line is about the
-- state of the link, Control/Countdown about the end of a timed mode, and Control/Applying about what
-- a list of writes does to the unit, over a bus whose promises are the record Carries.
-- Store (internal/store): store.go as functions on the rows of the table of samples, with the numbers
-- and SQLite's aggregates of them as the record Numbers, and housekeep of recorder.go. Store/Recorder is
-- what the recorder gives to it.
--
-- Host (internal/hostctl, internal/power): Host is reboot.go, with the instants counted from midnight and
-- each turn of its loop, and whether its call of Reboot works, as arguments; Host/Power is power.go, with each line of the kernel as what
-- parse makes of it.
--
-- Net (internal/netconf, internal/privhelper): Net/Terse is the splitting of what nmcli writes,
-- Net/Routes and Net/Networks read the answers of the commands, and Net/Helper is the requests to the
-- helper that has the privileges.
-- Config (internal/config): config.go. Config/Disks is Save as the steps it asks of a disk that may lose
-- power, over what JSON makes of the values as the record Json.
-- Web (internal/web): Web/Requests is what is checked of a request, Web/Handlers the handlers of the
-- controls, the settings and the programs, Web/SignIn those of the sign-in, and Web/Routes the table of
-- routes with the sign-in in front of most of them. The unit behind them is the record Controller.
--
-- Functions have the Go names in this library's spelling: check_crc is CheckCRC, execute_pdu is
-- ExecutePDU. A Go function that branches on a result is split, the rest of it being an after_
-- function with a clause for each outcome.
--
-- Numbers are natural, with the wrap of a fixed width written out; a counter of 64 bits wraps at 2^64.
-- Times are nanoseconds. Loops go by structural recursion: the client's over its retries, the pass over
-- six rounds, which is what 738 registers in blocks of 125 take, and reading from a stream over the
-- lengths that it was told.
--
-- Not modelled: goroutines and channels as such, sockets and the serial port, texts and logs but for
-- the journal lines of the bus, and the handlers of the web interface for the clock, the system, the
-- network, the history, the backup and the notifications, which the routes take as an argument. The
-- access list's addresses, the transport of the client, the answers of the bus to the gateway, JSON,
-- and the calendar are parameters. What runs commands of the system, and the start of the daemon, are
-- left out.
pub mod Base
pub mod Modbus
pub mod Gateway
pub mod Bus
pub mod Eda
pub mod Notify
pub mod Auth
pub mod Control
pub mod Store
pub mod Host
pub mod Net
pub mod Config
pub mod Web
