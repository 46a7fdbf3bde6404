-- ===== src/Lib.antt =====
-- Verification of the KELO drive data viewer (kddv).
--
-- The program shows the process data that EtherCAT slaves (KELO drives, Robile batteries and
-- KELO power distributions) exchange with their master, and publishes it as JSON over ZMQ. The
-- data comes from one of two sources: `EthercatMaster` drives the bus itself, and `PacketSniffer`
-- listens to the frames of another master, on an interface or from a PCAP file, with a config
-- file that says which slaves there are and where their data stands in a frame. That file is
-- written by `generate_config_file`. Both sources hand a list of slaves to a UI and to the ZMQ
-- publisher. In the files below a path stands for the file under src/ or include/ of the
-- repository.
--
-- The files and the code:
-- - Base, Text, Memory, Scalar: lists, integers and masks; what the code uses of `std::string`,
--   `std::to_string`, `std::stoul` and `memcpy`; the scalar types of the process data. A float
--   is its four bytes; it is printed as `%f` does.
-- - Json: jsoncpp as a record of operations (`JsonLib`), with the documented behaviour of
--   member access and of arrays as `JsonLaws` and `ArrayLaws`.
-- - Slave: include/ethercat_slave.h. Slave/Drive is src/kelo_drive_slave.cpp with
--   include/KeloDriveAPI.h, Slave/Battery is src/robile_battery_slave.cpp with
--   include/RobileMasterBattery.h, and Slave/Bms is src/kelo_bms_slave.cpp with
--   include/KeloEcPd.h. In each, the record of a struct is in Pdo, the tables of names and
--   units in Names, `parseBits` in Bits, and the byte layout in Layout; `copyData` is
--   `copy_data`, `convertToJson` is `convert_to_json`, `getRxValues` is `get_rx_values`.
-- - Source: src/ethercat_data_source.cpp (`getSlaveType`, `convertToJson`), with
--   `getNetworkInterfaces` in Source/Interfaces.
-- - Sniffer: src/packet_sniffer.cpp. `packet_callback` is `packetCallback`, and Sniffer/Setup
--   has the constructor, `setConfigFile` and `getSlaves`; Sniffer/Loop is `startSnifferLoop`, on the
--   packets that libtins hands on, and Sniffer/Thread is a step relation: `start`, `stop` and the
--   destructor beside the thread that captures. `stop_sniff` leaves a flag that the loop may look at
--   before the next packet, and does not wake a loop that waits for one.
-- - Publisher: src/zmq_publisher.cpp, over libzmq as a record of operations (`Zmq`) and a subscriber
--   with the documented behaviour of a publishing socket (`Subscriber`).
-- - Generator: src/generate_config_file.cpp (`si_PDOassign`, `si_map_sdo`), with `get_info` in
--   Generator/Info and `main` in Generator/Main, which writes a file (`Disk`) through jsoncpp's
--   writer (`Styled`).
-- - Master: src/ethercat_master.cpp. `get_slaves` and `start` are functions; Master/Threads has
--   `ethercatLoop`, `copyData`, `dataCopyLoop` and `stop` as a step relation on one process, which
--   keeps the process images exchanged so far and whether SOEM's socket is open, and
--   Master/Calls the calls of SOEM that `getSlaves` and `start` make.
-- - Pipeline: these together, from the bus over the config file and a frame to the UI and the message.
-- - Feed: include/ethercat_data_source.h as the UIs use it: the methods of both sources, and what
--   the system answers to them as one record (`World`). `stop` is the state it leaves when it returns.
-- - CommandLine: the option loops and the checks of src/tui_main.cpp and src/gui_main.cpp, with
--   `print_usage` in CommandLine/Usage.
-- - Launch: `main` of both up to the UI, with the publisher.
-- - Tui: src/tui.cpp. `data_callback_during` is `dataCallback`, which gives the calls of ncurses as a
--   list, with the keys that fall before each use of `selected_slave`, and `data_callback` is it
--   without keys;
--   `configure` is the end of `main`, Tui/Windows is `setupWindow`, Tui/Start has the choice of the
--   source in `start`, and Tui/Session the whole of `start`, on what `getch` gives.
-- - Gui: src/gui.cpp. Gui/Window is the record of the window with `handleStart` and
--   `handleDiscoverButton`, Gui/Controls the other slots and the methods that `main` of
--   src/gui_main.cpp calls, Gui/Widgets and Gui/Labels the boxes and `handleDataChanged`.
--   Gui/Session is a step relation: what a user and the data source do to the window.
-- - Examples: runs at concrete inputs, with a small JSON library.
--
-- Conventions. `none` is behaviour that C++ does not define, or an exception that the code does
-- not catch: reading outside a buffer, a null pointer, `asInt` out of range, an `int` of the generator
-- that overflows. Memory that the
-- code does not initialise is an argument (`Uninitialised`, `Fresh`). What SOEM, libtins and the
-- file system answer is an argument of the definition that asks. Numbers are natural numbers
-- with the wrap-around of their C type written out; an `int` that the code only stores is a ℤ.
-- The loops of the generator take fuel, one for each round; their counter, a `uint16`, goes up
-- by one in each, so that fuel above a reported bound below 65535 is enough. The exchanges of
-- `EthercatMaster::start` recurse on the number of retries that are left. What a user does, the
-- packets and the keys are lists or sequences of steps; in Gui/Session data is handled before the
-- next discovery, as Qt does with what was posted before a click. In the two step relations on threads
-- the other thread may act between any two steps; the callback on one packet is one step.
--
-- Not modelled: what ncurses does with the drawing commands and `writeStatus` with the status line of
-- src/tui.cpp; what Qt does with layouts, sizes and painting in src/gui.cpp; include/zmq.hpp, which
-- is another project's header; the sleeps between rounds.
pub mod Base
pub mod Text
pub mod Memory
pub mod Publisher
pub mod Pipeline
pub mod Launch
pub mod Scalar
pub mod Json
pub mod Slave
pub mod Source
pub mod Sniffer
pub mod Generator
pub mod CommandLine
pub mod Master
pub mod Feed
pub mod Tui
pub mod Gui
pub mod Examples
