-- ===== src/Lib.antt =====
-- SMARTmonitor: a service reads S.M.A.R.T. attributes of the drives, detects the units of their raw
-- values, and sends the values to clients, which rate and show them.
--
-- The parts and the files that model them:
-- UnitGuess: `SMARTuniqueID::guessUnit` (src/attributes/SMARTuniqueID.hpp) at the slot of one
--   attribute, and the calls for many attributes. A poll gives a raw value and another metric
--   (milliseconds, bytes); `run` is a history of polls.
-- IdArray: the arrays of IDs that the service reads (SMARTuniqueID.hpp and .cpp,
--   SMARTuniqueIDandValues.hpp in src/attributes): `setSupportedSMART_IDs`, `SetSMART_IDsToRead`,
--   `SMART_IDsToReadNotEnd`, `copyArr`, `setSMART_IDsToReadFromSuccSMARTrawValUpd8`.
-- DataCarrier: the identity of a drive and the order of the containers (SMARTuniqueID.hpp and .cpp).
-- Attr: one attribute's raw value with its check sum, its critical section and the normalized
--   maximum (SMARTattr.hpp, SMARTattrVal.cpp, SMARTuniqueIDandValues.cpp in src/attributes).
-- Access: the reading of the drives (src/libATA_SMART/SMARTaccess.cpp, src/SMARTaccessBase.cpp):
--   the callback of libatasmart, the units that it lets detect, and the codes that are returned.
-- UpdateLoop: the thread that updates the values, its waiting and its round for direct access
--   (src/SMARTmonitorBase.cpp).
-- Wire: the messages from service to client (`ByteArrayFromString` in
--   src/service/SMARTmonitorService.cpp, the reading functions in
--   src/client/InterProcComm/BSDskt/SMARTmonUI_BSDskt.cpp).
-- Clients: the set of connected clients and the sending to all of them (SMARTmonitorService.cpp).
-- Service: what the service sends (`SendSupportedSMART_IDsToClient`, `BeforeWait`), its program (`main`,
--   `signal_handler`, `BindAndListenToSocket`, `ClientConnThreadFunc`) and its two threads as steps
--   (SMARTmonitorService.cpp, src/service/service_main.cpp). Service/Receiver puts a client of Wire at
--   the other end.
-- SupportedIds: the list of supported IDs as text, from `SendSupportedSMART_IDsToClient`
--   (SMARTmonitorService.cpp) to `GetSupportedSMARTattributesViaXML` (src/tinyxml2/ProcessSMARTdata.cpp).
-- Entry: one attribute of a message, from `SMARTmonitorService::BeforeWait` to
--   `HandleSingleSMARTentry` (the two files of SupportedIds).
-- XmlData: a whole message at the client, over the XML library as a parameter: `GetSMARTdataViaXML` and
--   `GetSupportedSMARTattributesViaXML` (ProcessSMARTdata.cpp).
-- Rating: the rating of values (src/SMARTvalueRater.hpp), over the operations of `float` as a
--   parameter, with raw values of type `uint64_t`.
-- TimeFormat: `UserInterface::FmtViaOSS` (src/UserInterface/UserInterface.cpp).
-- CommandLine: `ProcessCommandLineArgs` and its helpers (SMARTmonitorBase.cpp).
-- ConfigFiles: where configuration files are looked for, and `InitializeSMART` (SMARTmonitorBase.cpp).
-- CfgLoader: the reading of the configuration files (src/tinyxml2/ConfigLoader.cpp) and of the
--   definitions for a model (src/attributes/ModelAndFirmware.hpp).
-- AttrDefs: the array of attribute definitions (src/attributes/SMARTattrDefAccss.hpp), the default
--   definitions and the attributes to observe (SMARTmonitorBase.cpp).
-- Connect: the thread that connects to a service (SMARTmonUI_BSDskt.cpp).
-- Session: a connected client, from the first message to the end of its thread, with what it calls of
--   the user interface (SMARTmonUI_BSDskt.cpp). The functions for reading a message stand here with
--   these calls and without them in Wire.
-- Formatter: values as text (src/SMARTvalueFormatter.hpp and .cpp).
-- Display: the unit and the real value that a client shows (src/client/SMARTmonitorClient.cpp).
-- ValueTable: the table of values and the overall rating (SMARTmonitorClient.cpp,
--   src/UserInterface/columnIndices.hpp). What the user interface is told is a list of calls.
-- Dialog: the window of the graphical user interface (src/wxWidgets/wxSMARTmonitorApp.cpp and .hpp,
--   src/wxWidgets/wxSMARTmonitorDialog.cpp): messages, icon and states.
-- Startup: the start of the graphical client in OnInit and its button for direct access (the same files).
-- DiskPanels: the panels for the data carriers in this window and their buttons (the same files).
-- ListTable: the table for a data carrier (src/wxWidgets/SMARTtableListCtrl.cpp), and SupportedDialog the
--   window with all its supported IDs (src/wxWidgets/SupportedSMARTIDsDialog.cpp).
-- ConnectDialog: the window for connecting (src/wxWidgets/ConnectToServerDialog.cpp) and its two timers,
--   whose ticks are steps.
-- TextUi: the table of the text user interface (src/curses/NcursesUI.cpp).
-- Common: shared helpers; Examples: runs at concrete inputs.
--
-- How they interact: the access to the drives fills the arrays of IdArray, calls UnitGuess for
-- each raw value read and stores it with Attr; Service sends over Clients in the form of Wire
-- what SupportedIds and Entry print; the client finds the drive by the order of DataCarrier. At the start
-- CommandLine sets the paths, ConfigFiles calls the loaders of CfgLoader, which fill AttrDefs.
-- Connect hands its socket over to Session, whose thread ValueTable shows; ValueTable takes the
-- unit and the real value from Display, which formats numbers with Formatter; Dialog shows the
-- overall rating of ValueTable as an icon.
--
-- Numbers: a 64 bit word is a number below 2 ^ 64, a `long int` its bit pattern, and differences
-- wrap (Common/Words). An array is a list of its capacity's length, and an access beyond it has no
-- result. Fuel: `visit` needs one round more than there are IDs; `join_parts` one more than there
-- are parts; the digits of n are printed on n + 1 rounds; the prefixes of n need n + 1 rounds, as
-- each makes the remainder smaller; the command line needs a round more than there are arguments;
-- the thread of a session needs a round more than there are bytes to come. Sockets are parameters:
-- a function for reading with the law that it hands over what is in the receive buffer of the bytes
-- asked for and keeps the rest, where whole messages arrive only if they are in it before the read; and
-- any function for writing, with what each call returns. That a read may not return is an input of the
-- thread of a session. The steps of Service/Program/Ending include an exception of the log file and `exit`.
--
-- Not modelled: the drives themselves and libatasmart, the XML library, threads beside those of Service, the
-- critical section of one attribute and the flag that ends the update, logging, the widgets of the
-- user interfaces, the resolving of host names, and the order of std::set where a set of
-- definitions is only searched. Raw values in Formatter and Display are those of the build with
-- unbounded integers. The laws of `float` that theorems on Rating assume are those of rounding
-- away from overflow and underflow, without "not a number".
pub mod Common
pub mod UnitGuess
pub mod IdArray
pub mod DataCarrier
pub mod Wire
pub mod Clients
pub mod SupportedIds
pub mod TimeFormat
pub mod Attr
pub mod Access
pub mod XmlData
pub mod Rating
pub mod Entry
pub mod UpdateLoop
pub mod CommandLine
pub mod ConfigFiles
pub mod AttrDefs
pub mod Formatter
pub mod Display
pub mod ValueTable
pub mod Service
pub mod Session
pub mod Connect
pub mod ConnectDialog
pub mod CfgLoader
mod Examples
pub mod Dialog
pub mod DiskPanels
pub mod ListTable
pub mod Startup
pub mod SupportedDialog
pub mod TextUi
