-- ===== src/Lib.antt =====
-- The core of broncho-mms: the buffers in which messages are packed and from which they are
-- unpacked, the headers and the body of a message and how they are packed and unpacked, and the
-- list, the tables and the string helpers beside them.
--
-- The program packs an MMS message into an output buffer and unpacks a received one from an input
-- buffer. A header is a list of items; an item is packed and unpacked by the codec of MMS, of WSP or
-- of HTTP, which the header is given when it is created. One kind of item holds a content type. A
-- body has parts, each of them with a header in the form of WSP and its data.
--
--   Base       numbers, tests, lists and bit laws; Base/Machine has the 32-bit words and the monad of
--              stateful code
--   Memory     objects, C strings, and the allocator of src/mms_linux.h as a parameter with the laws
--              of the C standard (IsAllocator) and the promise to serve requests (Serves)
--   Wire       the WSP formats of numbers and texts, as byte lists, apart from both buffers
--   Output     src/mms_output_buffer.c: State has the storage and the raw writes, Encode the encoders,
--              Transactions the marks and the two measuring functions; Valid has the invariant, Append
--              to Strings what each writer appends, Log and Leave what the transactions promise,
--              Sequences runs of calls, Measure the measuring functions, Lifetime creation, loss and
--              detachment of the block
--   Input      src/mms_input_buffer.c: State has the cursor, the limits and the raw readers, Decode the
--              decoders; Reads to Strings are about well-formed input, Limits about the stack of
--              limits, Total and Extent about any input
--   RoundTrip  what the one writes and the other reads
--   Names      the searches of src/mms_util.c in tables of names and numbers, the tables of
--              src/mms_charset.h and src/mms_header_codec.h and of the header values in
--              src/mms_header_codec.c
--   Linked     src/mms_list.c: Nodes has the memory, Calls the operations, Spec what they promise on a
--              list of the data; Segments and Holds say which nodes hold which data, Growth, Walks,
--              Removal, Search and Release are about the operations
--   ContentType  src/mms_content_type.c and the table of src/mms_content_type.h
--   HeaderCodec  src/mms_header_codec.c: Kinds has the cases of its switch statements, Pack and Unpack
--              one function per case; Forms says how values look on the wire; Writing, Reading and
--              Whole are about packing, about unpacking a value and a whole item
--   Wsp        src/wsp_header_codec.c and the table of src/wsp_header_codec.h: Codec has the WSP items,
--              Http those of HTTP
--   Header     src/mms_header.c: State has the readers, Setters the writers, Codec unpacking and
--              packing; Names, Found, Laws and GetSet are about items whose names differ,
--              Packing about the order of the items written
--   BodyPart   src/mms_body_part.c: State has the names of a part, Named how they are set, Codec packing
--              and unpacking
--   Body       src/mms_body.c: Count is the number of parts on the wire, State and Codec the calls,
--              Untyped is about a part without a content type; the presentation is given by the
--              calls of src/mms_smil.c (SmilCalls)
--   Items      header items, from src/mms_type.h and src/mms_util.c
--   Paths      names of files and hosts, content types by extension and copies of strings, from
--              src/mms_util.c
--   Tests      runs on concrete buffers
--
-- A function mms_output_buffer_f is modelled as output_buffer_f and mms_input_buffer_f as
-- input_buffer_f, the handle being the state that it takes and returns. A result `none` of a run is
-- undefined behaviour or a failed assertion: an access outside an object, a write through NULL, a
-- shift too wide. A handle is a live object, so the guards against a NULL handle do not occur.
-- `int`, `long` and `size_t` have 32 bits, as on the devices that the program is for; a value is
-- its bit pattern, and sums wrap. mms_f of the other files is modelled as f; the number -1 is 2^32
-- - 1. A pointer into the input buffer is given as an offset or as the C string at it.
--
-- A header and a body hold their list as the list of the data, each call of the list being what
-- Linked proves it to do. The content type that an item points to is part of the item, which owns it; a name that an
-- item only points to is part of it as well. The member of a union that was not written is never
-- read: a run that would read it is `none`.
--
-- Bounds: the invariant of the output buffer keeps its length at 3 GiB and its data at 1 GiB, so that
-- doubling the length does not wrap. The loop of `get_var_int` runs on as much fuel as there are
-- bytes to the limit and one more: each round but the last takes a byte. A walk over a list has fuel
-- for every node in memory and one more; a list whose nodes are apart ends before. The loops over
-- the parameters of a content type and over the items of a header have as much as there are bytes to
-- the limit and one more; where a round takes no byte the loop does not end, and the run is `none`.
--
-- Not modelled: the destructors of buffers, items, headers and content types, which only free, the
-- functions that print or that read and write files, the tests at the ends of the source files, and the
-- parts of the program beside and above the body (SMIL, messages, notifications, HTTP).
pub mod Base
pub mod Memory
pub mod Wire
pub mod Names
pub mod Paths
pub mod Linked
pub mod ContentType
pub mod Items
pub mod Header
pub mod Body
pub mod BodyPart
pub mod HeaderCodec
pub mod Wsp
pub mod Output
pub mod Input
pub mod RoundTrip
mod Tests
