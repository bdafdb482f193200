-- ===== src/Tests.antt =====
-- Concrete runs of the buffers of src/mms_output_buffer.c and src/mms_input_buffer.c.
mod Given
mod Writing
mod Reading
mod RoundTrips
mod Texts
mod Lookups
mod Names
mod Lists
mod Headers
mod HeaderRoundTrips
mod Bodies
