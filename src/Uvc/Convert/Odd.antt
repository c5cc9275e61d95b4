-- ===== src/Uvc/Convert/Odd.antt =====
-- For an odd width the last group of the last row is read past the end of the frame.
