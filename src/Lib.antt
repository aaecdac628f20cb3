-- ===== src/Lib.antt =====
-- base_utilities_esp: C++ classes for ESP32 devices on ESP-IDF and FreeRTOS.
--
-- The program is a set of classes that an application uses side by side. Storage: KVHandle
-- (include/KVHandle.hpp) is a typed key-value store over FlashDB; KVDB (include/KVDB.hpp) is the
-- same interface over one of two backends, NVS or FlashDB, the second through KVHandle. Files:
-- FileHandle (include/FileHandle.hpp) wraps the file calls of POSIX. Network: WebsocketClient
-- (include/WebsocketClient.hpp) drives esp_websocket_client and passes its events on to callbacks;
-- WiFiClass (src/WiFi.cpp) keeps a station and an access point of espp; IPAddress
-- (src/IPAddress.cpp) is the type of their addresses. Tasks: Thread (include/Thread.hpp) runs a
-- callback as a task of FreeRTOS, and delay_exec (include/DelayExec.hpp) runs one later, from a
-- timer, and Timer (src/Timer.cpp) runs one once or again and again. UUID (src/UUID.cpp) makes the
-- text of a random UUID. Start-up and boxed log messages are in src/BaseUtilities.cpp.
--
-- The files and the code. A file A.antt holds the state and the operations of a class, with the
-- source's names in lower case; the files below A/ hold its lemmas, and A/Tests.antt runs it on
-- examples.
--   Base.antt            names that all share; integers, bytes in memory, lists, bitwise or
--   Flash.antt           FlashDB as KVHandle calls it: an interface, its laws, and one instance
--   KvHandle.antt        KVHandle; KvHandle/Proxy.antt its operator[], KvHandle/Foreach.antt foreach
--   Nvs.antt             the class NVSHandle as KVDB calls it: interface, laws, instance
--   Kvdb.antt            KVDB; Kvdb/Impl.antt ImplBase and both backends, Kvdb/Proxy.antt operator[],
--                        Kvdb/Calls.antt sequences of calls, Kvdb/Spec.antt the replies that a map of
--                        typed values allows, Kvdb/Encoding.antt what a backend gives for them,
--                        Kvdb/Backends.antt both backends
--   Posix.antt           the file calls of POSIX on regular files: interface, laws, instance
--   FileHandle.antt      FileHandle; FileHandle/Modes.antt the open modes, FileHandle/Directory.antt
--                        the functions on directories, FileHandle/Content.antt a file as bytes and an
--                        offset, FileHandle/Runs.antt sequences of calls, FileHandle/Histories.antt
--                        several objects, FileHandle/Ledger.antt a record of the calls of POSIX on
--                        descriptors, FileHandle/Reopen.antt a file opened twice
--   WebsocketClient.antt WebsocketClient; WebsocketClient/Events.antt its event handler,
--                        WebsocketClient/Library.antt the library it calls and the history of its calls,
--                        WebsocketClient/Reach.antt the objects that calls and events lead to,
--                        WebsocketClient/Steps.antt connect and disconnect in steps, with events of
--                        the library's task between any two
--   Rtos.antt            FreeRTOS as Thread calls it
--   Thread.antt          Thread; Thread/Tasks.antt start, stop and task_entry as steps of the owner
--                        and the tasks, switched between any two accesses of m_task
--   IpAddress.antt       IPAddress; IpAddress/Scan.antt the conversion %d
--   Wifi.antt            WiFiClass; Wifi/Radio.antt what it calls, Wifi/Station.antt its questions,
--                        Wifi/Ledger.antt a record of the calls of espp and the objects that live,
--                        Wifi/Lifetimes.antt the histories of methods and events,
--                        Wifi/Results.antt the array of scan results over them
--   BaseUtilities.antt   app_main of src/BaseUtilities.cpp and the start-up that it runs;
--                        BaseUtilities/LogBox.antt log_box
--   Timer.antt           the class Timer (src/Timer.cpp) over the vendored Ticker; Timer/History.antt
--                        sequences of its calls and of time that passes
--   Uuid.antt            UUID over the vendored simple_uuid
--   DelayExec.antt       delay_exec and its timer callback, with a history of contexts and timers;
--                        DelayExec/Fate.antt what may happen after a call
--
-- How the code is read. A method is a function from the object, and the world behind it where it
-- calls the system, to its result and the new object. Code outside the repository, and the
-- vendored code under deps, is a record of functions that each model takes as a parameter; laws
-- about it stand in a record of their own (FlashLaws, NvsLaws, NvsMapLaws, FileLaws, WriteLaws,
-- OpenLaws, PathLaws, FillLaws, NewLaws, TickerLaws, PassageLaws, UuidLaws), each with an
-- instance in a file named Memory, MemoryMap or Tests. Numbers are natural numbers with the wrap-
-- around written out: a size_t, an uint32_t and a tick count have 32 bits, an int32_t is an
-- integer with the bit pattern of two's complement. A text in memory is the list of its bytes. A
-- call through a null pointer and a read outside of an array are the absence of a result; so are
-- an abort and a reset of the device in the start-up. In the wait of Thread::stop a null handle for
-- eTaskGetState is a result of its own, beside the end of the fuel.
--
-- Loops without a bound in the source run on fuel and give nothing when it ends: getline and the
-- stream operators need as much as there are bytes left in the file, listdir and foreach one round
-- more than there are entries, the wait of Thread::stop one round more than the ticks of its
-- timeout. A number is printed with at most ten digits, which an int has.
--
-- Not modelled. Log output. Two tasks inside one method at a time: a method runs as one step, but
-- for the wait of Thread::stop, where the task may end, for start and stop of Thread as steps
-- (where the wait is one step that may end at any time), for connect and disconnect of
-- WebsocketClient, where the library may report events, and for the callbacks of WebsocketClient,
-- which are the last act of the event handler. Numbers beyond an int in the text of an address,
-- which are undefined behaviour of sscanf. The FTP client (src/FtpClient.c) and deps are copies of
-- other projects.
pub mod Base
pub mod Flash
pub mod KvHandle
pub mod Nvs
pub mod Kvdb
pub mod Posix
pub mod FileHandle
pub mod WebsocketClient
pub mod Rtos
pub mod Thread
pub mod IpAddress
pub mod Wifi
pub mod DelayExec
pub mod BaseUtilities
pub mod Timer
pub mod Uuid
