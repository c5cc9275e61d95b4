-- ===== src/Uvc.antt =====
-- uvc/main.c: takes a frame from a camera and writes it as a JPEG file.
pub mod Memory
pub mod Blocks
pub mod Pixel
pub mod Convert
pub mod Calls
pub mod Holdings
pub mod Camera
pub mod Jpeg
pub mod Main
