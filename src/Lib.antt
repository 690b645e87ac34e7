-- ===== src/Lib.antt =====
-- Verification of the core of ovirt-imageio, the daemon that transfers disk images over HTTP, and of its
-- client library.
--
-- A transfer is described by a ticket. A request names a ticket, the store of tickets authorizes it, and
-- an operation then moves bytes between the connection and a storage backend while it is registered with
-- the ticket. The ticket reports how many bytes were transferred, and can be canceled at any time, which
-- cancels its operations and waits for them. Besides, the program maps images into extents and hashes
-- them in blocks.
--
-- The parts, and the files under ovirt_imageio/_internal that they model:
--
--   Measure          measure.py: `Range`, `RangeList` (a sorted list of ranges) and `_merged`
--   Auth             auth.py, `Ticket`: a record of its fields, one function per method. A method that
--                    takes the lock is one atomic step. `cancel` gives up the lock while it waits, so it
--                    is two functions. Auth.Steps is the relation of all steps of all threads. Closing a context may raise.
--   Auth.Store       auth.py, `Authorizer`: an association list for its dict of tickets
--   Ops              ops.py: `Operation` and `Read`. Ops.Writing: `Write`, `Zero` and `Flush`
--   Backends         what the operations call of a backend. Backends.Reader and Backends.Writer are what
--                    they rely on, short reads and partial writes included
--   Backends.Memory  backends/memory.py: the backend on a bytearray
--   Backends.File    backends/file.py: the backend on a file or a block device that is open for direct
--                    I/O, over Backends.Fio, which says what it relies on of `io.FileIO` and Linux.
--                    Backends.File.Interface is the backend as the operations use it.
--   Backends.Nbd     backends/nbd.py: the backend on the NBD client
--   Util             util.py: `round_up` and `round_down`
--   Extent           extent.py: the extents of the server's replies and their dicts
--   Nbd              nbd.py, `Client`: Nbd.Extents its `Extent`, Nbd.Wire the packing of numbers, Nbd.Sock
--                    the socket, Nbd.Command the commands, Nbd.Client the attributes, Nbd.Handshake the
--                    negotiation of options, Nbd.Requests the requests and Nbd.Reply their replies.
--                    Nbd.Reply.Server and Nbd.Handshake.Server say what a server that keeps to the
--                    protocol sends.
--   Nbdutil          nbdutil.py: `extents` and `merged`
--   Blkhash          blkhash.py: `Block` and `split`. Blkhash.Hash: `Hash` and `checksum`, for any hash
--                    function. Blkhash.Zeros: `is_zero` of ioutil.c
--   Http             http.py: status codes, range headers, and the reading of the body of a request
--   Handlers         validate.py, and of handlers/images.py the choice of the range that GET and PUT move,
--                    and of handlers/tickets.py DELETE and PATCH. Handlers.Checksum: the operation of
--                    handlers/checksum.py
--   Base             shared names, tests on numbers, lists, counting, bytes, methods that raise
--   Tests            examples
--
-- Python's numbers are natural numbers here, since sizes, offsets and times are not negative where these
-- parts are used; where a subtraction may fall below 0 the model says what the source does. Bytes are
-- natural numbers. An exception is a constructor of an error type, and the state that was reached comes
-- back beside it. The time and the bounds on what a stream returns are arguments. That another thread
-- cancels a running operation is the argument `canceled`, a function of the number of the chunk.
--
-- Loops that are not structural take fuel: `read_run` gives its size + 1 rounds, since each moves a byte
-- at least; `write_run` asks for more than the length of the stream, `zero_run` for more than the
-- size, `extents` for more than the length of the range. `cut` has the length of its block, and
-- `checksum` the length of the file and one more.
--
-- A loop on the replies of an NBD server has more fuel than the bytes that the server sends. A loop that
-- receives bytes has their number, and running out of fuel is an error of its own there, so that a loop
-- that goes on is not taken for the end of a stream.
--
-- Not modelled: the HTTP server and the rest of its handlers, the HTTP backend, the connecting of
-- sockets, exceptions of the connection that a read operation writes to, the copying of images by
-- several workers, the reading of a ticket from JSON, logging and clocks, and the command line tools.
-- Memory shared between the clones of a memory backend is not modelled either.
pub mod Base
pub mod Measure
pub mod Nbd
pub mod Nbdutil
pub mod Extent
pub mod Blkhash
pub mod Util
pub mod Backends
pub mod Ops
pub mod Auth
pub mod Http
pub mod Handlers
pub mod Tests
