-- ===== src/LogCursor.antt =====
-- apps/controller/src/mcp/log-pagination.ts: the cursor of a log page and its packed form, which the
-- Controller signs. A JSON text that is only stored is a number, a JSON number that is not a natural
-- one is `other`, and a pair of streams without either is the same as no pair. The signature and the
-- length of the token are left out, and so is an index that is a text.
pub mod RoundTrip
pub mod Bounds
mod Scenarios
use remote_build_orchestrato.Common.{
  ℕ, zero, suc, Bool, true, false, not, ◌&&◌, ◌||◌, Option, none, some, ltb, leb, ◌==◌,
  if◌then◌else◌,
}

pub data PresentationMode : Type 0 where
  ground escape csi osc osc_escape discard : PresentationMode

pub record PresentationState : Type 0 where
  pub mode : PresentationMode
  pub csi_length : ℕ
  pub osc_length : ℕ
  pub control_length : ℕ

pub record StreamPosition : Type 0 where
  pub seq : ℕ
  pub off : ℕ

pub data CursorMode : Type 0 where
  logs events : CursorMode

pub record StreamPair {ℓ} (A : Type ℓ) : Type ℓ where
  pub stdout : Option A
  pub stderr : Option A

pub record LogCursor : Type 0 where
  pub job : ℕ
  pub attempt : ℕ
  pub mode : CursorMode
  pub seq : ℕ
  pub off : ℕ
  pub states : StreamPair PresentationState
  pub positions : StreamPair StreamPosition

mutual
  pub data Json : Type 0 where
    null : Json
    number : ℕ → Json
    text : ℕ → Json
    array : Items → Json
    other : Json

  pub data Items : Type 0 where
    nil : Items
    item : Json → Items → Items

abbrev pub index_of : PresentationMode → ℕ
index_of ground = 0
index_of escape = 1
index_of csi = 2
index_of osc = 3
index_of osc_escape = 4
index_of discard = 5

abbrev pub mode_at : ℕ → Option PresentationMode
mode_at n =
    if n == 0
    then some ground
    else if n == 1
    then some escape
    else if n == 2
    then some csi
    else if n == 3
    then some osc
    else if n == 4
    then some osc_escape
    else if n == 5
    then some discard
    else none

abbrev pub encode_state : Option PresentationState → Json
encode_state none = null
encode_state (some s) = array (
    item (number (index_of s.mode)) (
      item (number s.csi_length) (item (number s.osc_length) (item (number s.control_length) nil))))

abbrev pub encode_position : Option StreamPosition → Json
encode_position none = null
encode_position (some p) = array (item (number p.seq) (item (number p.off) nil))

abbrev pub pack_pair {ℓ} : {A : Type ℓ} → (Option A → Json) → StreamPair A → Json
pack_pair encode p = elim p.stdout [
  | none ↦ elim p.stderr [
    | none ↦ number 0
    | some b ↦ array (item (encode none) (item (encode (some b)) nil))
  ]
  | some a ↦ array (item (encode (some a)) (item (encode p.stderr) nil))
]

abbrev pub mode_number : CursorMode → ℕ
mode_number logs = 0
mode_number events = 1

unfoldable pub pack_cursor : LogCursor → Json
pack_cursor c = array (
    item (number 1) (
      item (text c.job) (
        item (text c.attempt) (
          item (number (mode_number c.mode)) (
            item (number c.seq) (
              item (number c.off) (
                item (pack_pair encode_state c.states)
                  (item (pack_pair encode_position c.positions) nil))))))))

-- Number.isSafeInteger of a natural number.
abbrev pub is_safe : ℕ → Bool
is_safe n = ltb n 9007199254740992

abbrev max_control_length : ℕ
max_control_length = 4096

abbrev pub short : ℕ → Bool
short n = leb n max_control_length

unfoldable pub decode_packed_state : Json → Option PresentationState
decode_packed_state
      (array (item (number m) (item (number a) (item (number b) (item (number c) nil))))) =
    elim (mode_at m) [
      | none ↦ none
      | some mode ↦
          if short a && (short b && short c)
          then some (record { mode = mode; csi_length = a; osc_length = b; control_length = c })
          else none
    ]
decode_packed_state _ = none

unfoldable pub decode_packed_position : Json → Option StreamPosition
decode_packed_position (array (item (number s) (item (number o) nil))) =
    if is_safe s && is_safe o then some (record { seq = s; off = o }) else none
decode_packed_position _ = none

-- One stream of a pair: none in the outer Option is a value that cannot be decoded.
abbrev pub unpack_stream {ℓ} : {A : Type ℓ} → (Json → Option A) → Json → Option (Option A)
unpack_stream decode null = some none
unpack_stream decode j = elim (decode j) [ none ↦ none | some a ↦ some (some a) ]

abbrev pub both {ℓ} : {A : Type ℓ} → Option (Option A) → Option (Option A) → Option (StreamPair A)
both (some a) (some b) = some (record { stdout = a; stderr = b })
both _ _ = none

unfoldable pub unpack_stream_pair {ℓ} :
    {A : Type ℓ} → (Json → Option A) → Json → Option (StreamPair A)
unpack_stream_pair decode (number n) =
    if n == 0 then some (record { stdout = none; stderr = none }) else none
unpack_stream_pair decode (array (item a (item b nil))) =
    both (unpack_stream decode a) (unpack_stream decode b)
unpack_stream_pair decode _ = none

abbrev pub cursor_mode : ℕ → Option CursorMode
cursor_mode n = if n == 0 then some logs else if n == 1 then some events else none

abbrev with_pairs :
    LogCursor
    → Option (StreamPair PresentationState)
    → Option (StreamPair StreamPosition)
    → Option LogCursor
with_pairs c (some states) (some positions) =
    some (record c { states = states; positions = positions })
with_pairs c _ _ = none

-- The members of the packed array, from the version on.
abbrev pub unpack_body : ℕ → ℕ → ℕ → ℕ → ℕ → ℕ → Json → Json → Option LogCursor
unpack_body v job attempt m seq off states positions =
    elim (if v == 1 then cursor_mode m else none) [
      | none ↦ none
      | some mode ↦
          if not (is_safe seq && is_safe off)
          then none
          else with_pairs
              (record {
                job = job;
                attempt = attempt;
                mode = mode;
                seq = seq;
                off = off;
                states = record { stdout = none; stderr = none };
                positions = record { stdout = none; stderr = none };
              })
              (unpack_stream_pair decode_packed_state states)
              (unpack_stream_pair decode_packed_position positions)
    ]

unfoldable pub unpack_cursor : Json → Option LogCursor
unpack_cursor
      (array (
        item (number v) (
          item (text job) (
            item (text attempt) (
              item
                (number m)
                (item (number seq) (item (number off) (item states (item positions nil))))))))) =
    unpack_body v job attempt m seq off states positions
unpack_cursor _ = none
