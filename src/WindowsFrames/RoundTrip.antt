-- ===== src/WindowsFrames/RoundTrip.antt =====
-- packages/executor/src/windows-frames.ts: the reader against the format of the frames.
use remote_build_orchestrato.Common.{
  ℕ, zero, suc, ◌/◌, ◌%◌, ◌^◌, ◌≤◌, ◌<◌, ◌≡◌, refl, ap, ◌∙◌, none, some, List, [], ◌∷◌, ◌++◌, arith,
  length, length-append, take, drop,
}
use mathlib.Core.List.{append_assoc}
use remote_build_orchestrato.WindowsFrames.{
  Bytes, Frame, ParsedFrames, no_frames, take_frame, add_frame, read_frames, append, read_u32_le,
}
use remote_build_orchestrato.WindowsFrames.Chunks.{
  take_frame_shorter, read_frames_next, read_frames_stop, read_chunks, concat, chunks_any,
}

-- The four bytes of a length, the lowest first.
abbrev pub u32_le : ℕ → Bytes
u32_le n = n % 256 ∷ n / 2 ^ 8 % 256 ∷ n / 2 ^ 16 % 256 ∷ n / 2 ^ 24 % 256 ∷ []

abbrev pub encode : Frame → Bytes
encode f = f.tag ∷ (u32_le (length f.payload) ++ f.payload)

abbrev pub encode_all : List Frame → Bytes
encode_all [] = []
encode_all (f ∷ fs) = encode f ++ encode_all fs

abbrev pub collect : List Frame → ParsedFrames → ParsedFrames
collect [] out = out
collect (f ∷ fs) out = collect fs (add_frame f out)

abbrev pub AllSmall : List Frame → Type 0
AllSmall [] = Unit
AllSmall (f ∷ fs) = (length f.payload < 2 ^ 32) × AllSmall fs

take_all : {A : Type 0} (xs ys : List A) → take (length xs) (xs ++ ys) ≡ xs
take_all [] ys = refl
take_all (x ∷ xs) ys = ap (λ l. x ∷ l) (take_all xs ys)

drop_all : {A : Type 0} (xs ys : List A) → drop (length xs) (xs ++ ys) ≡ ys
drop_all [] ys = refl
drop_all (x ∷ xs) ys = drop_all xs ys

u32_le_value :
    (n : ℕ)
    → n < 2 ^ 32
    → read_u32_le (n % 256) (n / 2 ^ 8 % 256) (n / 2 ^ 16 % 256) (n / 2 ^ 24 % 256) ≡ n
u32_le_value n h = omega arith

take_frame-encode :
    (f : Frame) (rest : Bytes)
    → length f.payload < 2 ^ 32
    → take_frame (encode f ++ rest) ≡ some (f, rest)
unfolding take_frame
take_frame-encode f rest small =
    let n = length f.payload in
    rw (u32_le_value n small) (
      ground
        (arith, take_all f.payload rest, drop_all f.payload rest, length-append f.payload rest))

read_frames-encode :
    (fuel : ℕ) (fs : List Frame) (rest : Bytes) (out : ParsedFrames)
    → length (encode_all fs ++ rest) ≤ fuel
    → take_frame rest ≡ none
    → AllSmall fs
    → read_frames fuel (encode_all fs ++ rest) out ≡ (rest, collect fs out)
read_frames-encode fuel [] rest out h e small = read_frames_stop fuel rest out e
read_frames-encode zero (f ∷ fs) rest out h e small = absurd (omega arith)
read_frames-encode (suc fuel) (f ∷ fs) rest out h e small =
    let after = encode_all fs ++ rest in
    let found = take_frame-encode f after small.0 in
    let shorter = take_frame_shorter (encode f ++ after) after f found in
    rw (append_assoc (encode f) (encode_all fs) rest) (
      read_frames_next fuel (encode f ++ after) after f out found
      ∙ read_frames-encode fuel fs rest (add_frame f out)
          (omega (arith, ap length (append_assoc (encode f) (encode_all fs) rest))) e small.1)

-- However written frames with payloads of less than 4 GiB are cut into chunks on their way, also inside a frame, the reader
-- returns their payloads by stream and in order, with the last control payload, and keeps the
-- bytes of a frame that is not complete.
pub read-encode :
    (fs : List Frame) (rest : Bytes) (cs : List Bytes)
    → take_frame rest ≡ none
    → AllSmall fs
    → concat cs ≡ encode_all fs ++ rest
    → read_chunks [] cs ≡ (rest, collect fs no_frames)
unfolding append
read-encode fs rest cs e small same =
    let empty : take_frame [] ≡ none = unfold take_frame in refl in
    chunks_any [] cs empty
    ∙ ap (λ l. read_frames (length l) l no_frames) same
    ∙ read_frames-encode (length (encode_all fs ++ rest)) fs rest no_frames (omega arith) e small
