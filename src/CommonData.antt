-- ===== src/CommonData.antt =====
-- Conversions of bytes, numbers and text, after libsolutil/CommonData.h and CommonData.cpp.
pub mod Endian
pub mod Hex
pub mod Vite
