-- ===== src/LogPresentation/Tail.antt =====
-- packages/executor/src/log-presentation.ts: the tail of a job's logs (presentLogTail).
-- `is_utf8` is whether the strict decoder takes a text.
use remote_build_orchestrato.Common.{
  Bool, Bool-cases, List, Option, [], arith, drop, false, if◌then◌else◌, inl, inr, leb, length,
  length-append, length-drop, ltb, none, not, some, suc, true, zero, ℕ, ◌&&◌, ◌++◌, ◌+◌, ◌-◌, ◌==◌,
  ◌||◌, ◌∷◌, ◌≡◌, ◌≢◌, ◌≤◌, ◌⊎◌,
}
use remote_build_orchestrato.LogPresentation.{Run, PresentLogOptions, Bytes}
use remote_build_orchestrato.LogPresentation.Loop.{present_log_chunks}
use remote_build_orchestrato.LogPresentation.Kept.{All}
use remote_build_orchestrato.LogPresentation.Safe.{All-append, All-map}

unfoldable pub is_residual : ℕ → Bool
is_residual byte =
    ltb byte 32 && (not (byte == 9) && (not (byte == 10) && not (byte == 13))) || byte == 127

unfoldable pub remove_residual_controls : Bytes → Bytes
remove_residual_controls [] = []
remove_residual_controls (byte ∷ bytes) =
    let kept = remove_residual_controls bytes in if is_residual byte then kept else byte ∷ kept

-- The walk from the last byte back, given the bytes in that order and those after them.
unfoldable pub walk_back : ℕ → Bool → ℕ → Bytes → Bytes → Bytes
walk_back max_lines last lines [] after = after
walk_back max_lines last lines (byte ∷ back) after =
    let counts = byte == 10 && not last in
    let on = walk_back max_lines false (if counts then lines + 1 else lines) back (byte ∷ after) in
    if counts && leb max_lines (lines + 1) then after else on

abbrev pub reverse_onto : Bytes → Bytes → Bytes
reverse_onto [] acc = acc
reverse_onto (byte ∷ bytes) acc = reverse_onto bytes (byte ∷ acc)

unfoldable pub trailing_lines : Bytes → ℕ → Bytes
trailing_lines bytes max_lines =
    if max_lines == 0 then [] else walk_back max_lines true 0 (reverse_onto bytes []) []

unfoldable pub first_utf8 : (Bytes → Bool) → Bytes → Bytes
first_utf8 is_utf8 [] = []
first_utf8 is_utf8 (byte ∷ bytes) =
    let later = first_utf8 is_utf8 bytes in if is_utf8 (byte ∷ bytes) then byte ∷ bytes else later

unfoldable pub utf8_suffix : (Bytes → Bool) → Bytes → ℕ → Bytes
utf8_suffix is_utf8 bytes max_bytes =
    if max_bytes == 0 then [] else first_utf8 is_utf8 (drop (length bytes - max_bytes) bytes)

pub record PresentLogTailOptions : Type 0 where
  pub max_bytes : ℕ
  pub max_lines : ℕ
  pub stderr_prefix_complete : Bool
  pub stdout_prefix_complete : Bool

abbrev output_of : Option Run → Bytes
output_of none = []
output_of (some r) = r.output

-- A stream of the tail; its options are valid whenever those of the tail are.
unfoldable pub present_stream : (Bytes → Bool) → PresentLogTailOptions → List Bytes → Bool → Bytes
present_stream decodes o chunks prefix_complete =
    let limits : PresentLogOptions = record {
      max_bytes = o.max_bytes;
      strip_ansi = true;
      raw_scan_cap = o.max_bytes;
    } in
    if prefix_complete
    then trailing_lines
        (remove_residual_controls (output_of (present_log_chunks decodes limits chunks none)))
        o.max_lines
    else []

-- none is the RangeError.
unfoldable pub present_log_tail :
    (Bytes → Bool) → (Bytes → Bool) → List Bytes → List Bytes → PresentLogTailOptions → Option Bytes
present_log_tail decodes is_utf8 stderr_chunks stdout_chunks o =
    let stderr = present_stream decodes o stderr_chunks o.stderr_prefix_complete in
    let stdout = present_stream decodes o stdout_chunks o.stdout_prefix_complete in
    let stderr_suffix = utf8_suffix is_utf8 stderr o.max_bytes in
    let stdout_suffix = utf8_suffix is_utf8 stdout (o.max_bytes - length stderr_suffix) in
    if ltb o.max_bytes 4 || o.max_lines == 0 then none else some (stderr_suffix ++ stdout_suffix)

abbrev pub Shown : ℕ → Type 0
Shown byte = is_residual byte ≡ false

removed-Shown : (bytes : Bytes) → All Shown (remove_residual_controls bytes)
unfolding remove_residual_controls
removed-Shown [] = tt
removed-Shown (byte ∷ bytes) = elim (Bool-cases (is_residual byte)) [
  | inl gone ↦ rw gone (removed-Shown bytes)
  | inr kept ↦ rw kept (kept, removed-Shown bytes)
]

reversed-Shown :
    (bytes acc : Bytes) → All Shown bytes → All Shown acc → All Shown (reverse_onto bytes acc)
reversed-Shown [] acc h k = k
reversed-Shown (byte ∷ bytes) acc (here, there) k =
    reversed-Shown bytes (byte ∷ acc) there (here, k)

walk_back-Shown :
    (m : ℕ) (last : Bool) (n : ℕ) (back after : Bytes)
    → All Shown back
    → All Shown after
    → All Shown (walk_back m last n back after)
unfolding walk_back
walk_back-Shown m last n [] after h k = k
walk_back-Shown m last n (byte ∷ back) after (here, there) k =
    let counts = byte == 10 && not last in
    let more = if counts then n + 1 else n in
    elim (Bool-cases (counts && leb m (n + 1))) [
      | inl stops ↦ rw stops k
      | inr on ↦ rw on (walk_back-Shown m false more back (byte ∷ after) there (here, k))
    ]

trailing-Shown : (bytes : Bytes) (m : ℕ) → All Shown bytes → All Shown (trailing_lines bytes m)
unfolding trailing_lines
trailing-Shown bytes m h = elim (Bool-cases (m == 0)) [
  | inl none_asked ↦ rw none_asked tt
  | inr some_asked ↦
      rw some_asked
        (walk_back-Shown m true 0 (reverse_onto bytes []) [] (reversed-Shown bytes [] h tt) tt)
]

drop-Shown : (n : ℕ) (bytes : Bytes) → All Shown bytes → All Shown (drop n bytes)
drop-Shown zero bytes h = h
drop-Shown (suc n) [] h = tt
drop-Shown (suc n) (byte ∷ bytes) (here, there) = drop-Shown n bytes there

first_utf8-Shown :
    (is_utf8 : Bytes → Bool) (bytes : Bytes)
    → All Shown bytes
    → All Shown (first_utf8 is_utf8 bytes) × (length (first_utf8 is_utf8 bytes) ≤ length bytes)
unfolding first_utf8
first_utf8-Shown is_utf8 [] h = (tt, omega arith)
first_utf8-Shown is_utf8 (byte ∷ bytes) h = elim (Bool-cases (is_utf8 (byte ∷ bytes))) [
  | inl valid ↦ rw valid (h, omega arith)
  | inr cut ↦ let (shown, short) = first_utf8-Shown is_utf8 bytes h.1 in rw cut (shown, omega arith)
]

suffix-Shown :
    (is_utf8 : Bytes → Bool) (bytes : Bytes) (m : ℕ)
    → All Shown bytes
    → All Shown (utf8_suffix is_utf8 bytes m) × (length (utf8_suffix is_utf8 bytes m) ≤ m)
unfolding utf8_suffix
suffix-Shown is_utf8 bytes m h = elim (Bool-cases (m == 0)) [
  | inl nothing ↦ rw nothing (tt, omega arith)
  | inr something ↦
      let cut = length bytes - m in
      let (shown, short) = first_utf8-Shown is_utf8 (drop cut bytes) (drop-Shown cut bytes h) in
      rw something (shown, omega (arith, length-drop cut bytes))
]

stream-Shown :
    (decodes : Bytes → Bool) (o : PresentLogTailOptions) (chunks : List Bytes) (b : Bool)
    → All Shown (present_stream decodes o chunks b)
unfolding present_stream
stream-Shown decodes o chunks false = tt
stream-Shown decodes o chunks true = trailing-Shown _ o.max_lines (removed-Shown _)

-- A byte that is no control byte, or a tab, a line feed or a carriage return.
abbrev pub Printable : ℕ → Type 0
Printable byte = (byte ≢ 127) × ((32 ≤ byte) ⊎ ((byte ≡ 9) ⊎ ((byte ≡ 10) ⊎ (byte ≡ 13))))

Shown-Printable : (byte : ℕ) → Shown byte → Printable byte
unfolding is_residual
Shown-Printable byte h = ground arith

-- Whatever the logs hold, the tail is within its budget and has no control byte but tabs, line
-- feeds and carriage returns.
pub tail_safe :
    (decodes is_utf8 : Bytes → Bool) (stderr_chunks stdout_chunks : List Bytes)
    (o : PresentLogTailOptions) (tail : Bytes)
    → present_log_tail decodes is_utf8 stderr_chunks stdout_chunks o ≡ some tail
    → (length tail ≤ o.max_bytes) × All Printable tail
unfolding present_log_tail
tail_safe decodes is_utf8 stderr_chunks stdout_chunks o tail e =
    let stderr = present_stream decodes o stderr_chunks o.stderr_prefix_complete in
    let stdout = present_stream decodes o stdout_chunks o.stdout_prefix_complete in
    let first = utf8_suffix is_utf8 stderr o.max_bytes in
    let second = utf8_suffix is_utf8 stdout (o.max_bytes - length first) in
    let (a, b) =
      suffix-Shown is_utf8 stderr o.max_bytes
        (stream-Shown decodes o stderr_chunks o.stderr_prefix_complete) in
    let (c, d) =
      suffix-Shown is_utf8 stdout (o.max_bytes - length first)
        (stream-Shown decodes o stdout_chunks o.stdout_prefix_complete) in
    let is : first ++ second ≡ tail = ground arith in
    let both : (length (first ++ second) ≤ o.max_bytes) × All Printable (first ++ second) = (
      omega (arith, length-append first second),
      All-map Shown Printable Shown-Printable (first ++ second) (All-append Shown first second a c),
    ) in
    rw is at both
