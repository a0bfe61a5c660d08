-- ===== src/Lib.antt =====
-- Riden Dongle: firmware for a Wi-Fi dongle that turns a Riden RD60xx bench power supply into a
-- network instrument. The dongle speaks Modbus RTU to the supply and offers it by SCPI, VXI-11,
-- Modbus TCP and HTTP.
--
-- The parts and the files that model them (paths from the repository's root):
--   * The driver of the power supply, src/riden_modbus/riden_modbus.cpp and include/riden_modbus/:
--     Modbus/. `Modbus/State.antt` has the members of the class RidenModbus and the shape of its
--     methods: a method is a function from the object to `ok` (it returns true, with its out
--     parameters as the value), `fail` (it returns false) or `hung` (it is still in its waiting loop
--     when the fuel is spent). `Modbus/Registers.antt` is the register map, `Modbus/Raw.antt` the
--     transfers, `Modbus/Values.antt` the conversions, `Modbus/Access.antt` the typed access to one
--     register, and `Modbus/Readings.antt`, `Modbus/Settings.antt`, `Modbus/Presets.antt`,
--     `Modbus/AllValues.antt` and `Modbus/Begin.antt` the public methods, under their own names; where
--     C++ overloads a name, the setter is `set_...` and the getter `get_...`, and the store of a whole
--     preset is `store_preset`.
--   * The VXI-11 server, src/vxi11_server/: Vxi/. `Vxi/Server.antt` is the class VXI_Server and
--     `Vxi/Bind.antt` the class RPC_Bind_Server, `Vxi/Transport.antt` receives and sends frames
--     (rpc_packets.cpp), `Vxi/Packets.antt` and `Vxi/Rpc.antt` are the layout and the codes of the
--     packets, `Vxi/Cyclic.antt` and `Vxi/Words.antt` the classes of utilities.h. A method is a
--     function from the object to `done`, `waiting` (it is in a waiting loop when the fuel is spent)
--     or `overrun` (it accesses memory outside of a buffer). `Vxi/Protocol.antt` is what the server
--     promises, on commands and bodies of replies in place of buffers.
--   * The SCPI side, src/riden_scpi/riden_scpi.cpp and src/scpi_bridge/scpi_bridge.h: Scpi/.
--     `Scpi/Commands.antt` has the command handlers, each a function from the driver's object and the
--     parser's context to `res_ok`, `res_err` or `stuck` (the driver does not return);
--     `Scpi/Table.antt` the table of their patterns,
--     `Scpi/Server.antt` the buffers, control and socket loop of the class RidenScpi, and
--     `Scpi/Bridge.antt` makes it the SCPI handler of the VXI-11 server; `Scpi/Start.antt` is its start.
--   * The Modbus TCP bridge, src/riden_modbus_bridge/riden_modbus_bridge.cpp: `ModbusBridge.antt` has
--     the two raw callbacks and the start of the class RidenModbusBridge, on the record `Link` of what
--     the two Modbus libraries do; `ModbusBridge/Clients.antt` is the class RidenModbusTCP.
--   * The settings, src/riden_config/riden_config.cpp and timezones.h: Config/. `Config.antt` is the
--     class RidenConfig with the structures that it stores, byte by byte, in the EEPROM, and
--     `Config/Timezones.antt` the table of time zones, whose entries are in files by region.
--   * The web server, src/riden_http_server/riden_http_server.cpp: Http/. `Http/Board.antt` has the
--     objects that the class RidenHttpServer refers to, as they refer to one another, as the record
--     `Dongle`; a handler is a function from it to the calls that it makes of the library's web
--     server, which are in `Http/Output.antt`. `Http/Root.antt`, `Http/Details.antt` and
--     `Http/Rows.antt` are the pages, `Http/Control.antt`, `Http/Settings.antt` and
--     `Http/Services.antt` the handlers, and `Http/Routes.antt` the routes that `begin` sets. A text is
--     a term that says how it is put together; how numbers are formatted is left to the platform.
--   * The main program, src/main.cpp: Main/. `Main.antt` has its objects and flags as the record
--     `Station`, and `loop`; `Main/Wifi.antt` is `connect_wifi` and `Main/Setup.antt` `setup`. What the
--     turns of the loop can lead to is the relation `Steps` of `Main/Clock.antt`.
-- The port mapper asks the VXI-11 server whether it is free and on which port; the VXI-11 server
-- hands what it is sent to an SCPI handler, which drives the power supply. The web server drives the
-- power supply too, lists and disconnects the clients of the three other servers, and saves the settings.
--
-- What the code does not implement is a parameter. `Modbus/Env.antt` has the arithmetic of `double`,
-- the ModbusRTU library with the serial port behind it, and the clock. Hypotheses on it are
-- records: `Clocked` and `Passing` (the counter goes forward, `Modbus/Raw/Wait.antt` and
-- `Modbus/Begin/Ends.antt`) and `Answers` (the supply answers in time and keeps what is written,
-- `Modbus/Raw/Device.antt`). `Modbus/Double.antt` and `Modbus/Tests/Bench.antt` give an instance of
-- each on which the theorems are applied.
--
-- `Vxi/Net.antt` has the TCP client and server as the record `Net`, and the SCPI handler as the record
-- `Handler`; `Polls` says that the client is found writable, and `Vxi/Tests/Bench.antt` gives an
-- instance of each. What the stack holds where `read` has its local buffer is the member `outbuffer` of
-- `VxiServer`, of which nothing is assumed.
--
-- `Scpi/Parser.antt` has the SCPI_Parser library as the record `Parser`, and `Scpi/Server.antt` the raw
-- socket as the record `Socket`; `Scpi/Tests/Bench.antt` gives an instance of each.
--
-- `Config.antt` has the EEPROM library as the record `Eeprom`; `Keeps` in `Config/Loading.antt` says that
-- it keeps what it has committed. `Http/Board.antt` has the ESP8266 libraries and the C library as the
-- record `Platform`, and `Main.antt` what the main program uses besides as the record `Machine`.
-- `Config/Tests.antt`, `Http/Tests.antt` and `Main/Tests.antt` give an instance of each.
--
-- Words are natural numbers below 2^16 or 2^32 with the wrap-around of the code written out. The
-- waiting loop runs on `timeout + 1` rounds of fuel, which `wait_for_inactive_ends` proves enough
-- while the millisecond counter does not wrap. The wait for a writable client runs on an argument
-- `polls`, the loop that reads a line on 257 rounds, which `read_line_returns` proves enough, and the
-- loop over the DNS servers on an argument `rounds`, and the wait for the power supply in `setup` on an
-- argument `attempts`, of which `find_supply_ends` proves 51 enough.
--
-- Not modelled: log and mDNS output, the LED, and the build with MOCK_RIDEN. The texts of
-- http_static.h are known by their names.
pub mod Base
pub mod Modbus
pub mod Vxi
pub mod Scpi
pub mod ModbusBridge
pub mod Config
pub mod Http
pub mod Main
