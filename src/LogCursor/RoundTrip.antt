-- ===== src/LogCursor/RoundTrip.antt =====
-- apps/controller/src/mcp/log-pagination.ts: a packed cursor is read back as it was.
use remote_build_orchestrato.Common.{◌≡◌, ◌≤◌, ◌<◌, refl, Option, none, some, arith}
use remote_build_orchestrato.LogCursor.{
  PresentationMode, PresentationState, StreamPosition, StreamPair, LogCursor, CursorMode, Json,
  encode_state, encode_position, pack_pair, pack_cursor, decode_packed_state,
  decode_packed_position, unpack_stream_pair, unpack_cursor, mode_number, cursor_mode, index_of,
  mode_at, unpack_stream, logs, events,
}

-- The counters of the parser stop at their cap.
abbrev pub ShortState : PresentationState → Type 0
ShortState s = (s.csi_length ≤ 4096) × (s.osc_length ≤ 4096) × (s.control_length ≤ 4096)

abbrev pub SafePosition : StreamPosition → Type 0
SafePosition p = (p.seq < 9007199254740992) × (p.off < 9007199254740992)

abbrev pub InOption {ℓ κ} : {A : Type ℓ} → (A → Type κ) → Option A → Type κ
InOption P none = Unit
InOption P (some a) = P a

abbrev pub InPair {ℓ κ} : {A : Type ℓ} → (A → Type κ) → StreamPair A → Type κ
InPair P p = InOption P p.stdout × InOption P p.stderr

-- Positions are safe integers and counters are within their cap.
pub record IsBounded (c : LogCursor) : Type 0 where
  pub seq : c.seq < 9007199254740992
  pub off : c.off < 9007199254740992
  pub states : InPair ShortState c.states
  pub positions : InPair SafePosition c.positions

mode-index : (m : PresentationMode) → mode_at (index_of m) ≡ some m
mode-index PresentationMode.ground = refl
mode-index PresentationMode.escape = refl
mode-index PresentationMode.csi = refl
mode-index PresentationMode.osc = refl
mode-index PresentationMode.osc_escape = refl
mode-index PresentationMode.discard = refl

cursor_mode-number : (m : CursorMode) → cursor_mode (mode_number m) ≡ some m
cursor_mode-number logs = refl
cursor_mode-number events = refl

decode-encode_state :
    (s : PresentationState) → ShortState s → decode_packed_state (encode_state (some s)) ≡ some s
unfolding decode_packed_state
decode-encode_state s (a, b, c) = ground (arith, mode-index s.mode)

decode-encode_position :
    (p : StreamPosition)
    → SafePosition p
    → decode_packed_position (encode_position (some p)) ≡ some p
unfolding decode_packed_position
decode-encode_position p (a, b) = ground arith

module _ {A : Type 0} (encode : Option A → Json) (decode : Json → Option A) (P : A → Type 0)
    (absent : encode none ≡ Json.null)
    (present : (a : A) → P a → unpack_stream decode (encode (some a)) ≡ some (some a)) where
  unpack-encode_stream : (a : Option A) → InOption P a → unpack_stream decode (encode a) ≡ some a
  unpack-encode_stream none h = rw absent refl
  unpack-encode_stream (some a) h = present a h

  unpack-pack_parts :
      (a b : Option A)
      → InOption P a
      → InOption P b
      → unpack_stream_pair decode (pack_pair encode (record { stdout = a; stderr = b }))
        ≡ some (record { stdout = a; stderr = b })
  unfolding unpack_stream_pair
  unpack-pack_parts none none h k = refl
  unpack-pack_parts none (some b) h k =
      rw (unpack-encode_stream none h, unpack-encode_stream (some b) k) refl
  unpack-pack_parts (some a) b h k =
      rw (unpack-encode_stream (some a) h, unpack-encode_stream b k) refl

  unpack-pack_pair :
      (p : StreamPair A) → InPair P p → unpack_stream_pair decode (pack_pair encode p) ≡ some p
  unpack-pack_pair p (h, k) = unpack-pack_parts p.stdout p.stderr h k

unpack-pack_states :
    (p : StreamPair PresentationState)
    → InPair ShortState p
    → unpack_stream_pair decode_packed_state (pack_pair encode_state p) ≡ some p
unpack-pack_states =
    unpack-pack_pair encode_state decode_packed_state ShortState refl
      (λ s h. rw (decode-encode_state s h, unpack_stream) refl)

unpack-pack_positions :
    (p : StreamPair StreamPosition)
    → InPair SafePosition p
    → unpack_stream_pair decode_packed_position (pack_pair encode_position p) ≡ some p
unpack-pack_positions =
    unpack-pack_pair encode_position decode_packed_position SafePosition refl
      (λ s h. rw (decode-encode_position s h, unpack_stream) refl)

-- A cursor whose positions are safe integers and whose counters are within their cap: what is packed
-- of it is unpacked to the same cursor.
pub unpack-pack : (c : LogCursor) → IsBounded c → unpack_cursor (pack_cursor c) ≡ some c
unfolding unpack_cursor pack_cursor
unpack-pack c h = ground (
  arith,
  cursor_mode-number c.mode,
  unpack-pack_states c.states h.states,
  unpack-pack_positions c.positions h.positions,
  h.seq,
  h.off,
)
