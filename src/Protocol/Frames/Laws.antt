-- ===== src/Protocol/Frames/Laws.antt =====
-- cpp/src/protocol/frame_parser.cpp: what an accepted header is.
use tickline.Base.{◌≤◌, le→ltb, ◌≡◌, ◌++◌, length, get_or-append, length-append, ok, arith}
use tickline.Base.Words.{Bytes}
use tickline.Protocol.Frames.{
  ProtocolLimits, FrameHeader, check_header, decode_frame_header, frame_header_size,
}

-- Limits that the constructors and the parser let through.
abbrev pub IsRoomy : ProtocolLimits → Type 0
IsRoomy limits = frame_header_size ≤ limits.maximum_frame_size

pub decode_frame_header-eq :
    (bytes : Bytes) (limits : ProtocolLimits)
    → IsRoomy limits
    → decode_frame_header bytes limits ≡ ok (check_header bytes limits)
unfolding decode_frame_header
decode_frame_header-eq bytes limits h = rw (le→ltb _ _ h)

-- Only the first sixteen bytes count.
pub check_header-append :
    (xs ys : Bytes) (limits : ProtocolLimits)
    → frame_header_size ≤ length xs
    → check_header (xs ++ ys) limits ≡ check_header xs limits
unfolding check_header
check_header-append xs ys limits h = rw (
  le→ltb (length xs) 16 h,
  le→ltb (length (xs ++ ys)) 16 (omega (arith, length-append xs ys)),
  get_or-append xs ys 0 0 (omega arith),
  get_or-append xs ys 1 0 (omega arith),
  get_or-append xs ys 2 0 (omega arith),
  get_or-append xs ys 3 0 (omega arith),
  get_or-append xs ys 4 0 (omega arith),
  get_or-append xs ys 5 0 (omega arith),
  get_or-append xs ys 6 0 (omega arith),
  get_or-append xs ys 7 0 (omega arith),
  get_or-append xs ys 8 0 (omega arith),
  get_or-append xs ys 9 0 (omega arith),
  get_or-append xs ys 10 0 (omega arith),
  get_or-append xs ys 11 0 (omega arith),
  get_or-append xs ys 12 0 (omega arith),
  get_or-append xs ys 13 0 (omega arith),
  get_or-append xs ys 14 0 (omega arith),
  get_or-append xs ys 15 0 (omega arith),
)

-- An accepted header declares a frame that holds the header and fits the limit.
pub check_header_bounds :
    (bytes : Bytes) (limits : ProtocolLimits) (h : FrameHeader)
    → check_header bytes limits ≡ ok h
    → (frame_header_size ≤ h.frame_size)
      × (h.frame_size ≤ limits.maximum_frame_size)
      × (frame_header_size ≤ length bytes)
unfolding check_header
check_header_bounds bytes limits h e = ground arith
