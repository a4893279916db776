-- ===== src/WindowsFrames/Chunks.antt =====
-- packages/executor/src/windows-frames.ts: how the bytes are cut into chunks does not matter.
use remote_build_orchestrato.Common.{
  ℕ, zero, suc, ◌+◌, ◌≤◌, ◌≡◌, refl, ap, sym, ◌∙◌, inl, inr, none, some, List, [], ◌∷◌, ◌++◌, arith,
  length, length-append, length-drop, take-append_left, drop-append_left, Option-cases,
}
use mathlib.Core.List.{append-nil, append_assoc}
use remote_build_orchestrato.WindowsFrames.{
  Bytes, Frame, ParsedFrames, no_frames, take_frame, add_frame, read_frames, append, read_u32_le,
}

-- A frame that is there stays there when more bytes come.
take_frame-append :
    (buffer more rest : Bytes) (f : Frame)
    → take_frame buffer ≡ some (f, rest)
    → take_frame (buffer ++ more) ≡ some (f, rest ++ more)
unfolding take_frame
take_frame-append (tag ∷ a ∷ b ∷ c ∷ d ∷ body) more rest f h = ground (
  arith,
  length-append body more,
  take-append_left (read_u32_le a b c d) body more,
  drop-append_left (read_u32_le a b c d) body more,
)
take_frame-append _ more rest f h = cc

pub take_frame_shorter :
    (buffer rest : Bytes) (f : Frame)
    → take_frame buffer ≡ some (f, rest)
    → length rest + 5 ≤ length buffer
unfolding take_frame
take_frame_shorter (tag ∷ a ∷ b ∷ c ∷ d ∷ body) rest f h =
    ground (arith, length-drop (read_u32_le a b c d) body)
take_frame_shorter _ rest f h = cc

pub read_frames_stop :
    (f : ℕ) (buffer : Bytes) (out : ParsedFrames)
    → take_frame buffer ≡ none
    → read_frames f buffer out ≡ (buffer, out)
unfolding read_frames
read_frames_stop zero buffer out e = refl
read_frames_stop (suc f) buffer out e = rw (e, read_frames)

pub read_frames_next :
    (f : ℕ) (buffer rest : Bytes) (frame : Frame) (out : ParsedFrames)
    → take_frame buffer ≡ some (frame, rest)
    → read_frames (suc f) buffer out ≡ read_frames f rest (add_frame frame out)
unfolding read_frames
read_frames_next f buffer rest frame out e = rw (e, read_frames)

no_frame : (buffer : Bytes) → length buffer ≤ 0 → take_frame buffer ≡ none
unfolding take_frame
no_frame [] h = refl
no_frame (x ∷ buffer) h = absurd (omega arith)

read_frames_enough :
    (f g : ℕ) (buffer : Bytes) (out : ParsedFrames)
    → length buffer ≤ f
    → length buffer ≤ g
    → read_frames f buffer out ≡ read_frames g buffer out
read_frames_enough zero g buffer out h k =
    let e = no_frame buffer h in
    read_frames_stop zero buffer out e ∙ sym (read_frames_stop g buffer out e)
read_frames_enough (suc f) zero buffer out h k =
    let e = no_frame buffer k in
    read_frames_stop (suc f) buffer out e ∙ sym (read_frames_stop zero buffer out e)
read_frames_enough (suc f) (suc g) buffer out h k = elim (Option-cases (take_frame buffer)) [
  | inl e ↦ read_frames_stop (suc f) buffer out e ∙ sym (read_frames_stop (suc g) buffer out e)
  | inr ((frame, rest), e) ↦
      let shorter = take_frame_shorter buffer rest frame e in
      read_frames_next f buffer rest frame out e
      ∙ read_frames_enough f g rest (add_frame frame out) (omega arith) (omega arith)
      ∙ sym (read_frames_next g buffer rest frame out e)
]

read_frames_done :
    (f : ℕ) (buffer : Bytes) (out : ParsedFrames)
    → length buffer ≤ f
    → take_frame (read_frames f buffer out).0 ≡ none
read_frames_done zero buffer out h =
    let e = no_frame buffer h in rw (read_frames_stop zero buffer out e) e
read_frames_done (suc f) buffer out h = elim (Option-cases (take_frame buffer)) [
  | inl e ↦ rw (read_frames_stop (suc f) buffer out e) e
  | inr ((frame, rest), e) ↦
      let shorter = take_frame_shorter buffer rest frame e in
      rw (read_frames_next f buffer rest frame out e)
        (read_frames_done f rest (add_frame frame out) (omega arith))
]

-- More bytes are read on from where the reading of the first ones stopped.
read_frames-append :
    (f g k : ℕ) (buffer more : Bytes) (out : ParsedFrames)
    → length buffer ≤ f
    → length buffer + length more ≤ g
    → length buffer + length more ≤ k
    → let (rest, so_far) = read_frames f buffer out in
      read_frames g (buffer ++ more) out ≡ read_frames k (rest ++ more) so_far
read_frames-append zero g k buffer more out h hg hk =
    rw (read_frames_stop zero buffer out (no_frame buffer h)) (
      read_frames_enough g k (buffer ++ more) out (omega (arith, length-append buffer more))
        (omega (arith, length-append buffer more)))
read_frames-append (suc f) zero k buffer more out h hg hk =
    rw (read_frames_stop (suc f) buffer out (no_frame buffer (omega arith))) (
      read_frames_enough zero k (buffer ++ more) out (omega (arith, length-append buffer more))
        (omega (arith, length-append buffer more)))
read_frames-append (suc f) (suc g) k buffer more out h hg hk =
    elim (Option-cases (take_frame buffer)) [
      | inl e ↦ rw (read_frames_stop (suc f) buffer out e) (
          read_frames_enough (suc g) k (buffer ++ more) out
            (omega (arith, length-append buffer more)) (omega (arith, length-append buffer more)))
      | inr ((frame, rest), e) ↦
          let shorter = take_frame_shorter buffer rest frame e in
          rw
            (
              read_frames_next f buffer rest frame out e,
              read_frames_next g (buffer ++ more) (rest ++ more) frame out
                  (take_frame-append buffer more rest frame e),
            )
            (read_frames-append f g k rest more (add_frame frame out) (omega arith) (omega arith)
              (omega arith))
    ]

read_frames_le :
    (f : ℕ) (buffer : Bytes) (out : ParsedFrames)
    → length (read_frames f buffer out).0 ≤ length buffer
read_frames_le zero buffer out = unfold read_frames in omega arith
read_frames_le (suc f) buffer out = elim (Option-cases (take_frame buffer)) [
  | inl e ↦ rw (read_frames_stop (suc f) buffer out e) (omega arith)
  | inr ((frame, rest), e) ↦
      let shorter = take_frame_shorter buffer rest frame e in
      let less = read_frames_le f rest (add_frame frame out) in
      rw (read_frames_next f buffer rest frame out e) (omega arith)
]

-- The frames of two calls, one after the other.
abbrev join : ParsedFrames → ParsedFrames → ParsedFrames
join first second = record {
  stdout = first.stdout ++ second.stdout;
  stderr = first.stderr ++ second.stderr;
  control = elim second.control [ none ↦ first.control | some c ↦ some c ];
}

add_frame-join :
    (frame : Frame) (first second : ParsedFrames)
    → add_frame frame (join first second) ≡ join first (add_frame frame second)
unfolding add_frame
add_frame-join frame first second = ground (
  arith,
  append_assoc first.stdout second.stdout (frame.payload ∷ []),
  append_assoc first.stderr second.stderr (frame.payload ∷ []),
)

read_frames-join :
    (f : ℕ) (buffer : Bytes) (first out : ParsedFrames)
    → let (rest, more) = read_frames f buffer out in
      read_frames f buffer (join first out) ≡ (rest, join first more)
read_frames-join zero buffer first out = unfold read_frames in refl
read_frames-join (suc f) buffer first out = elim (Option-cases (take_frame buffer)) [
  | inl e ↦
      rw (read_frames_stop (suc f) buffer out e)
        (read_frames_stop (suc f) buffer (join first out) e)
  | inr ((frame, rest), e) ↦
      rw
        (
          read_frames_next f buffer rest frame out e,
          read_frames_next f buffer rest frame (join first out) e,
          add_frame-join frame first out,
        )
        (read_frames-join f rest first (add_frame frame out))
]

join-no_frames : (first : ParsedFrames) → join first no_frames ≡ first
join-no_frames first = ground (arith, append-nil first.stdout, append-nil first.stderr)

-- The reader over chunks that arrive one after the other.
unfoldable pub read_chunks : Bytes → List Bytes → Bytes × ParsedFrames
read_chunks buffer [] = (buffer, no_frames)
read_chunks buffer (c ∷ cs) =
    let (rest, first) = append buffer c in
    let (left, later) = read_chunks rest cs in (left, join first later)

abbrev pub concat : List Bytes → Bytes
concat [] = []
concat (c ∷ cs) = c ++ concat cs

append-append :
    (buffer a b : Bytes)
    → let (rest, first) = append buffer a in
      let (left, later) = append rest b in append buffer (a ++ b) ≡ (left, join first later)
unfolding append
append-append buffer a b =
    let joined = buffer ++ a in
    let rest = (read_frames (length joined) joined no_frames).0 in
    let first = (read_frames (length joined) joined no_frames).1 in
    let shorter = read_frames_le (length joined) joined no_frames in
    let all = length joined + length b in
    ap (λ l. read_frames (length l) l no_frames) (sym (append_assoc buffer a b))
    ∙ read_frames-append (length joined) (length (joined ++ b)) all joined b no_frames (omega arith)
        (omega (arith, length-append joined b)) (omega arith)
    ∙ read_frames_enough all (length (rest ++ b)) (rest ++ b) first
        (omega (arith, length-append rest b)) (omega arith)
    ∙ ap (read_frames (length (rest ++ b)) (rest ++ b)) (sym (join-no_frames first))
    ∙ read_frames-join (length (rest ++ b)) (rest ++ b) first no_frames

-- However the bytes are cut into chunks, the reader keeps the same bytes and returns the same
-- frames, in order, as one that is given all of them at once.
pub chunks_any :
    (buffer : Bytes) (cs : List Bytes)
    → take_frame buffer ≡ none
    → read_chunks buffer cs ≡ append buffer (concat cs)
unfolding read_chunks
chunks_any buffer [] e =
    let same = append-nil buffer in
    sym (unfold append in rw same (read_frames_stop (length buffer) buffer no_frames e))
chunks_any buffer (c ∷ cs) e =
    let rest = (append buffer c).0 in
    let done : take_frame rest ≡ none =
      unfold append in
      read_frames_done (length (buffer ++ c)) (buffer ++ c) no_frames (omega arith) in
    rw (chunks_any rest cs done) (sym (append-append buffer c (concat cs)))

-- The loop of a call ends by itself, whatever bytes came: no complete frame is left in the buffer.
append_done : (buffer chunk : Bytes) → take_frame (append buffer chunk).0 ≡ none
unfolding append
append_done buffer chunk =
    read_frames_done (length (buffer ++ chunk)) (buffer ++ chunk) no_frames (omega arith)
