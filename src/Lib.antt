-- ===== src/Lib.antt =====
-- libimobiledevice talks to iOS devices over USB or the network. Its client side is a stack: a
-- connection to a port of the device (`src/idevice.c`) carries bytes, in the clear or through SSL; a
-- service client (`src/service.c`) wraps one connection; protocols stand on a service client, each
-- with one request and one answer at a time. A client is made by asking lockdownd
-- (`src/lockdown.c`), in a session for which the computer and the device are paired, to start the
-- service. Three families of protocols are modelled. AFC (`src/afc.c`), the file protocol, frames
-- its requests by a header of its own. Most others exchange property lists behind a length
-- (`src/property_list_service.c`), and the backup and synchronisation clients put device link
-- messages (`src/device_link_service.c`) on top of these. The debug server client
-- (`src/debugserver.c`) speaks gdb's remote protocol.
--
-- The parts, from the bottom:
--
-- - Common: native numbers and Boolean tests, byte lists and the integers in them, and `Run`, the
--   outcome of a call: a return, a loop that has not ended within its rounds, or a fault, which stands
--   for undefined behaviour (a write past a buffer, a freed block used, a NULL pointer read).
-- - Idevice (`src/idevice.c`): `Net` holds the calls of usbmuxd, sockets and SSL, which are
--   parameters; `Connection` is struct idevice_connection_private and `Link` a pointer to one with
--   the outside world. Idevice/Send has internal_connection_send and idevice_connection_send,
--   Idevice/Receive has internal_connection_receive_timeout and idevice_connection_receive_timeout,
--   both as compiled with OpenSSL.
-- - Service (`src/service.c`): service_send, service_receive_with_timeout, service_receive. `Service`
--   is the interface that the protocols are written over, `IsTransport` its contract,
--   which Service/Contract relates to the connection. `Reliable` is the case in which what the device
--   has sent comes back whole.
-- - Afc (`src/afc.c`, `src/afc.h`): Packet is AFCPacket with its byte order; Client is struct
--   afc_client_private with its buffer, its lock, and afc_dispatch_packet; Receive is
--   afc_receive_data; Command holds the body that the operations share; Strings has make_strings_list
--   and make_dictionary; Path and File have the operations; Session has sequences of calls. Error and
--   Op are the codes.
-- - PlistService (`src/property_list_service.c`): internal_plist_send and
--   internal_plist_receive_timeout over a service; libplist is the parameter `Codec`. `Channel` is
--   the interface for the clients above.
-- - DeviceLink (`src/device_link_service.c`): Message recognises messages, Exchange has the
--   operations, over a `Channel` and over libplist's nodes, the parameter `Plist`.
-- - Mobilesync (`src/mobilesync.c`): Answers has what the device's messages come to, Calls the
--   operations, and Phases the abstract machine that a session is meant to follow.
-- - Dictionary: libplist's calls on dictionaries, the parameter `Dicts`, with the idioms in which the
--   clients use them, and `DictLaws`, what libplist documents of them.
-- - Userpref (`common/userpref.c`): the pair records that usbmuxd keeps for the computer.
-- - Lockdown (`src/lockdown.c`): Error has the codes and the table of the device's errors, Client the
--   client object and the verdict on an answer, Calls the requests, Session the sessions, Pair the
--   pairing, and Start the services, the client with its handshake, the data classes, and
--   service_client_factory_start_service of `src/service.c`, which the other clients are made by. The
--   connection is a `SecureChannel`, which PlistService/Secure makes of a byte service.
-- - InstallationProxy (`src/installation_proxy.c`): Error has the codes and their names, the module
--   itself the verdict on a status message and the loop that waits for the end of a command, Commands
--   the commands; a thread that is to receive is only created.
-- - Webinspector (`src/webinspector.c`): the messages that a property list is cut into, and Client
--   with the client's life, from the service that lockdownd starts. Like InstallationProxy it is
--   written over an interface to the property list service, which `inspected_of` and `proxied_of`
--   make of a byte service.
-- - Debugserver (`src/debugserver.c`): Hex has hexadecimal text, checksums and the form of commands,
--   Response the reception of a response and the sending of commands, over a `Service`.
-- - Stack: the protocols over the service that a connection makes.
-- - Examples: small models of the outside world, and each theorem below at a concrete input.
--
-- How the code is written down. State is passed explicitly, and a pointer that may be NULL is an
-- Option. Pointers to results are taken not to be NULL; a result that the C code leaves alone is
-- `none`, or 0 for a count. Bytes are numbers; an int or uint32_t that the code adds to or takes from
-- keeps its wrap-around. The sizes that the allocator has memory for are a parameter of each call
-- that allocates by a size from outside. Codes of AFC are numbers, since a status of the device is
-- cast to one; the others are data types.
--
-- Loops. The loops of connections, of the reception of property lists and of responses of the debug
-- server, of the messages of the web inspector and of the status messages of the installation proxy
-- are bounded by a number of rounds, a parameter, since they may wait for ever; a loop that has more
-- to do is `hangs`. The loops of afc_receive_data and make_dictionary are given as many rounds as
-- there are bytes, and each round but the last takes one, so that they never stop short.
--
-- Not modelled: finding devices, connecting and disconnecting, setting up and ending SSL, GnuTLS
-- and mbedTLS, creation of clients that connect first, log output, freeing of results, names of
-- errors; the generation of keys and certificates, and the pairing without a cable of
-- `src/lockdown-cu.c`; browsing and the life of the client of the installation proxy; the
-- protocols other than these (backup and the small ones), the command line tools, and the
-- bindings. A lock is the count of how often it is held, since a client is used by one call at a
-- time under it. The pointers to the clients of the debug server and of mobile sync are taken not
-- to be NULL; with NULL their functions return an invalid argument or read through it.
pub mod Common
pub mod Idevice
pub mod Service
pub mod Afc
pub mod PlistService
pub mod DeviceLink
pub mod Dictionary
pub mod Userpref
pub mod Lockdown
pub mod Mobilesync
pub mod InstallationProxy
pub mod Webinspector
pub mod Debugserver
pub mod Stack
pub mod Examples
