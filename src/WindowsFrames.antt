-- ===== src/WindowsFrames.antt =====
-- packages/executor/src/windows-frames.ts: the reader of the frames that the Windows helper writes,
-- a tag, the length in four bytes with the lowest first, and the payload. A buffer is the list of
-- its bytes.
pub mod Chunks
pub mod RoundTrip
mod Scenarios
use remote_build_orchestrato.Common.{
  ℕ, zero, suc, ◌+◌, ◌*◌, ◌/◌, ◌%◌, ◌^◌, Option, none, some, List, [], ◌∷◌, ◌++◌, ltb, ◌==◌,
  if◌then◌else◌, length, take, drop,
}

abbrev pub Bytes : Type 0
Bytes = List ℕ

abbrev frame_tag_stdout : ℕ
frame_tag_stdout = 1

abbrev frame_tag_stderr : ℕ
frame_tag_stderr = 2

abbrev frame_tag_control : ℕ
frame_tag_control = 3

pub record ParsedFrames : Type 0 where
  pub stdout : List Bytes
  pub stderr : List Bytes
  pub control : Option Bytes

pub record Frame : Type 0 where
  pub tag : ℕ
  pub payload : Bytes

abbrev pub no_frames : ParsedFrames
no_frames = record { stdout = []; stderr = []; control = none }

abbrev pub read_u32_le : ℕ → ℕ → ℕ → ℕ → ℕ
read_u32_le a b c d = a + 2 ^ 8 * b + 2 ^ 16 * c + 2 ^ 24 * d

-- The frame at the start of the buffer and what follows it, if the whole of it is there.
unfoldable pub take_frame : Bytes → Option (Frame × Bytes)
take_frame (tag ∷ a ∷ b ∷ c ∷ d ∷ body) =
    let size = read_u32_le a b c d in
    if ltb (length body) size
    then none
    else some (record { tag = tag; payload = take size body }, drop size body)
take_frame _ = none

unfoldable pub add_frame : Frame → ParsedFrames → ParsedFrames
add_frame f out =
    if f.tag == frame_tag_stdout
    then record out { stdout = out.stdout ++ f.payload ∷ [] }
    else if f.tag == frame_tag_stderr
    then record out { stderr = out.stderr ++ f.payload ∷ [] }
    else if f.tag == frame_tag_control
    then record out { control = some f.payload }
    else out

-- The loop of `append`. A round takes five bytes at least, so the buffer's length is fuel enough.
unfoldable pub read_frames : ℕ → Bytes → ParsedFrames → Bytes × ParsedFrames
read_frames zero buffer out = (buffer, out)
read_frames (suc fuel) buffer out = elim (take_frame buffer) [
  | none ↦ (buffer, out)
  | some (f, rest) ↦ read_frames fuel rest (add_frame f out)
]

-- The buffer that the reader keeps, and the frames that a call of `append` returns.
unfoldable pub append : Bytes → Bytes → Bytes × ParsedFrames
append buffer chunk = let joined = buffer ++ chunk in read_frames (length joined) joined no_frames
