-- ===== src/LogPresentation.antt =====
-- packages/executor/src/log-presentation.ts: what of a log is shown. A Buffer is the list of its
-- bytes. A place is the chunk that is read, its length and what is left of it, with the chunks after
-- it. The removal of repeated lines (collapseDuplicates) is left out.
pub mod Loop
pub mod Clean
pub mod Kept
pub mod Pages
pub mod Ends
pub mod Safe
pub mod Reads
pub mod Tail
mod Scenarios
use remote_build_orchestrato.Common.{
  ℕ, zero, suc, ◌+◌, ◌*◌, ◌-◌, ◌%◌, min, Bool, true, false, not, ◌&&◌, ◌||◌, Option, none, some,
  List, [], ◌∷◌, ◌++◌, take, drop, ltb, leb, ◌==◌, if◌then◌else◌, length,
}
use remote_build_orchestrato.LogCursor.{
  PresentationMode, PresentationState, ground, escape, csi, osc, osc_escape, discard,
}

abbrev pub Bytes : Type 0
Bytes = List ℕ

pub record Place : Type 0 where
  pub len : ℕ
  pub rest : Bytes
  pub later : List Bytes

pub record PresentLogOptions : Type 0 where
  pub max_bytes : ℕ
  pub strip_ansi : Bool
  pub raw_scan_cap : ℕ

pub record Run : Type 0 where
  pub parser : PresentationState
  pub output : Bytes
  pub consumed : ℕ
  pub scanned : ℕ
  pub truncated : Bool
  pub place : Place

-- What a round of the loop does.
pub data Round : Type 0 where
  done next : Run → Round

abbrev pub max_control_bytes : ℕ
max_control_bytes = 4096

abbrev initial_state : PresentationState
initial_state = record { mode = ground; csi_length = 0; osc_length = 0; control_length = 0 }

-- A JavaScript `n | 0`, of which a negative one counts as 0.
abbrev pub clamp : ℕ → ℕ
clamp n = let w = n % 4294967296 in if ltb w 2147483648 then min w max_control_bytes else 0

unfoldable pub copy_state : Option PresentationState → PresentationState
copy_state none = initial_state
copy_state (some s) = record {
  mode = s.mode;
  csi_length = clamp s.csi_length;
  osc_length = clamp s.osc_length;
  control_length = clamp s.control_length;
}

unfoldable pub utf8_width : ℕ → ℕ
utf8_width byte =
    if ltb byte 128
    then 1
    else if leb 194 byte && leb byte 223
    then 2
    else if leb 224 byte && leb byte 239
    then 3
    else if leb 240 byte && leb byte 244
    then 4
    else 1

abbrev pub is_csi : PresentationMode → Bool
is_csi csi = true
is_csi _ = false

abbrev pub is_osc : PresentationMode → Bool
is_osc osc = true
is_osc osc_escape = true
is_osc _ = false

abbrev pub is_osc_escape : PresentationMode → Bool
is_osc_escape osc_escape = true
is_osc_escape _ = false

abbrev pub is_ground : PresentationMode → Bool
is_ground ground = true
is_ground _ = false

abbrev longer : Bool → ℕ → ℕ
longer counts n = if counts then min max_control_bytes (n + 1) else n

unfoldable pub control_byte : PresentationState → PresentationState
control_byte p =
    let n = min max_control_bytes (p.control_length + 1) in
    let mode = if leb max_control_bytes n then discard else p.mode in
    record {
      mode = mode;
      csi_length = longer (is_csi mode) p.csi_length;
      osc_length = longer (is_osc mode) p.osc_length;
      control_length = n;
    }

abbrev pub to_ground : PresentationState → PresentationState
to_ground p = record p { mode = ground; control_length = 0 }

-- Whether the byte after ESC is taken, and the state after it.
unfoldable pub escape_byte : PresentationState → ℕ → Bool × PresentationState
escape_byte p byte =
    let q = control_byte p in
    if byte == 91
    then (true, record q { mode = csi; csi_length = 0 })
    else if byte == 93
    then (true, record q { mode = osc; osc_length = 0 })
    else (false, to_ground q)

unfoldable pub csi_byte : PresentationState → ℕ → PresentationState
csi_byte p byte = let q = control_byte p in if leb 64 byte && leb byte 126 then to_ground q else q

unfoldable pub osc_byte : PresentationState → ℕ → PresentationState
osc_byte p byte =
    let q = control_byte p in
    if is_osc_escape q.mode
    then (if byte == 92 then to_ground q else record q { mode = osc })
    else if byte == 7
    then to_ground q
    else if byte == 27
    then record q { mode = osc_escape }
    else q

unfoldable pub discard_byte : PresentationState → ℕ → PresentationState
discard_byte p byte = let q = control_byte p in if byte == 7 || byte == 92 then to_ground q else q

unfoldable pub control_step : PresentationState → ℕ → Bool × PresentationState
control_step p byte = elim p.mode [
  | escape ↦ escape_byte p byte
  | csi ↦ (true, csi_byte p byte)
  | osc ↦ (true, osc_byte p byte)
  | osc_escape ↦ (true, osc_byte p byte)
  | discard ↦ (true, discard_byte p byte)
  | ground ↦ (true, discard_byte p byte)
]

-- `!stripAnsi || parser.mode === 'ground'`
abbrev pub reads_text : Bool → PresentationState → Bool
reads_text strip p = not strip || is_ground p.mode

-- The walk over a code point that is shown. `room` counts the bytes to the end of the chunk, which is
-- that of the first chunk all along: `len` is not read again in a later one.
unfoldable pub skip : ℕ → ℕ → ℕ → Place → ℕ × Place
skip len room zero p = (0, p)
skip len room (suc remaining) p =
    if leb room 1 && not (remaining == 0)
    then (elim p.later [
      | [] ↦ (1, record { len = 0; rest = []; later = [] })
      | c ∷ cs ↦
          let (n, q) = skip len len remaining (record { len = length c; rest = c; later = cs }) in
          (suc n, q)
    ])
    else let (n, q) = skip len (room - 1) remaining (record p { rest = drop 1 p.rest }) in
      (suc n, q)

abbrev pub flatten : List Bytes → Bytes
flatten [] = []
flatten (c ∷ cs) = c ++ flatten cs

abbrev pub past : Place → Place
past p = record p { rest = drop 1 p.rest }

-- A byte that is taken without being shown.
abbrev pub taken : Run → PresentationState → Run
taken r q = record r {
  parser = q;
  consumed = r.consumed + 1;
  scanned = r.scanned + 1;
  place = past r.place;
}

abbrev pub stopped : ℕ → Run → Run
stopped scanned r = record r { scanned = scanned; truncated = true }

abbrev pub show_byte : PresentLogOptions → Run → ℕ → Round
show_byte o r byte =
    if leb (length r.output + 1) o.max_bytes
    then next (record (taken r r.parser) { output = r.output ++ byte ∷ [] })
    else done (stopped (r.scanned + 1) r)
