-- ===== src/WindowsFrames/Scenarios.antt =====
-- Two frames that arrive in three chunks, and the first bytes of a third one.
use remote_build_orchestrato.Common.{◌≡◌, refl, some, List, [], ◌∷◌, arith}
use remote_build_orchestrato.WindowsFrames.{
  Bytes, Frame, ParsedFrames, no_frames, append, take_frame,
}
use remote_build_orchestrato.WindowsFrames.Chunks.{read_chunks, chunks_any, concat}
use remote_build_orchestrato.WindowsFrames.RoundTrip.{collect, read-encode}

abbrev frames : List Frame
frames = record { tag = 1; payload = 104 ∷ 105 ∷ [] } ∷ record { tag = 3; payload = 48 ∷ [] } ∷ []

abbrev chunks : List Bytes
chunks = (1 ∷ 2 ∷ 0 ∷ []) ∷ (0 ∷ 0 ∷ 104 ∷ 105 ∷ 3 ∷ []) ∷ (1 ∷ 0 ∷ 0 ∷ 0 ∷ 48 ∷ 2 ∷ 9 ∷ []) ∷ []

splits_streams :
    (append [] (concat chunks)).1
    ≡ record { stdout = (104 ∷ 105 ∷ []) ∷ []; stderr = []; control = some (48 ∷ []) }
unfolding append remote_build_orchestrato.WindowsFrames.read_frames take_frame
    remote_build_orchestrato.WindowsFrames.add_frame
splits_streams = refl

chunks_any_example : read_chunks [] chunks ≡ append [] (concat chunks)
chunks_any_example = chunks_any [] chunks (unfold take_frame in refl)

read-encode_example : read_chunks [] chunks ≡ (2 ∷ 9 ∷ [], collect frames no_frames)
read-encode_example =
    read-encode frames (2 ∷ 9 ∷ []) chunks (unfold take_frame in refl) (omega arith) refl
