-- ===== src/Wsp.antt =====
-- The items of WSP and HTTP headers: src/wsp_header_codec.c.
pub mod Table
pub mod Codec
pub mod Http
