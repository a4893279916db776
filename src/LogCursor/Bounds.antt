-- ===== src/LogCursor/Bounds.antt =====
-- apps/controller/src/mcp/log-pagination.ts: what is unpacked is within its bounds.
use remote_build_orchestrato.Common.{
  ℕ, ◌≡◌, subst, ◌&&◌, ◌==◌, if◌then◌else◌, Option, Option-cases, Bool-cases, inl, inr, none, some,
  arith,
}
use remote_build_orchestrato.LogCursor.{
  PresentationState, StreamPosition, StreamPair, LogCursor, Json, Items, is_safe, short,
  decode_packed_state, decode_packed_position, unpack_stream_pair, unpack_cursor, cursor_mode,
  mode_at, unpack_stream, number, array, item, text, unpack_body,
}
use remote_build_orchestrato.LogCursor.RoundTrip.{
  ShortState, SafePosition, InOption, InPair, IsBounded,
}

state-ShortState :
    (j : Json) (s : PresentationState) → decode_packed_state j ≡ some s → ShortState s
unfolding decode_packed_state
state-ShortState
      (array (item (number m) (item (number a) (item (number b) (item (number c) Items.nil))))) s
      e =
    elim (Option-cases (mode_at m)) [
      | inl q ↦ absurd (ground arith)
      | inr (mode, q) ↦ elim (Bool-cases (short a && (short b && short c))) [
        | inl within ↦
            let r : record { mode = mode; csi_length = a; osc_length = b; control_length = c } ≡ s =
              ground arith in
            subst ShortState r (ground arith, ground arith, ground arith)
        | inr beyond ↦ absurd (ground arith)
      ]
    ]
state-ShortState _ s e = absurd (ground arith)

position-SafePosition :
    (j : Json) (p : StreamPosition) → decode_packed_position j ≡ some p → SafePosition p
unfolding decode_packed_position
position-SafePosition (array (item (number s) (item (number o) Items.nil))) p e =
    elim (Bool-cases (is_safe s && is_safe o)) [
      | inl within ↦
          let r : record { seq = s; off = o } ≡ p = ground arith in
          subst SafePosition r (ground arith, ground arith)
      | inr beyond ↦ absurd (ground arith)
    ]
position-SafePosition _ p e = absurd (ground arith)

module _ {A : Type 0} (decode : Json → Option A) (P : A → Type 0)
    (sound : (j : Json) (a : A) → decode j ≡ some a → P a) where
  unpack_stream-InOption :
      (j : Json) (a : Option A) → unpack_stream decode j ≡ some a → InOption P a
  unpack_stream-InOption Json.null a e = let r : none ≡ a = ground arith in subst (InOption P) r tt
  unpack_stream-InOption j a e = elim (Option-cases (decode j)) [
    | inl q ↦ absurd (ground arith)
    | inr (b, q) ↦ let r : some b ≡ a = ground arith in subst (InOption P) r (sound j b q)
  ]

  unpack_stream_pair-InPair :
      (j : Json) (p : StreamPair A) → unpack_stream_pair decode j ≡ some p → InPair P p
  unfolding unpack_stream_pair
  unpack_stream_pair-InPair (number n) p e = elim (Bool-cases (n == 0)) [
    | inl zero_is ↦
        let r : record { stdout = none; stderr = none } ≡ p = ground arith in
        subst (InPair P) r (tt, tt)
    | inr other_is ↦ absurd (ground arith)
  ]
  unpack_stream_pair-InPair (array (item a (item b Items.nil))) p e =
      elim (Option-cases (unpack_stream decode a)) [
        | inl q ↦ absurd (ground arith)
        | inr (x, q) ↦ elim (Option-cases (unpack_stream decode b)) [
          | inl k ↦ absurd (ground arith)
          | inr (y, k) ↦
              let r : record { stdout = x; stderr = y } ≡ p = ground arith in
              subst (InPair P) r (unpack_stream-InOption a x q, unpack_stream-InOption b y k)
        ]
      ]
  unpack_stream_pair-InPair _ p e = absurd (ground arith)

unpack_body-IsBounded :
    (v job attempt m seq off : ℕ) (states positions : Json) (c : LogCursor)
    → unpack_body v job attempt m seq off states positions ≡ some c
    → IsBounded c
unpack_body-IsBounded v job attempt m seq off states positions c e =
    elim (Option-cases (if v == 1 then cursor_mode m else none)) [
      | inl q ↦ absurd (ground arith)
      | inr (mode, q) ↦ elim (Bool-cases (is_safe seq && is_safe off)) [
        | inr beyond ↦ absurd (ground arith)
        | inl within ↦ elim (Option-cases (unpack_stream_pair decode_packed_state states)) [
          | inl k ↦ absurd (ground arith)
          | inr (s, k) ↦ elim (Option-cases (unpack_stream_pair decode_packed_position positions)) [
            | inl l ↦ absurd (ground arith)
            | inr (p, l) ↦
                let r : record {
                  job = job;
                  attempt = attempt;
                  mode = mode;
                  seq = seq;
                  off = off;
                  states = s;
                  positions = p;
                }
                    ≡ c =
                  ground arith in
                subst IsBounded r (record {
                  seq = ground arith;
                  off = ground arith;
                  states =
                      unpack_stream_pair-InPair decode_packed_state ShortState state-ShortState
                        states s k;
                  positions =
                      unpack_stream_pair-InPair decode_packed_position SafePosition
                        position-SafePosition positions p l;
                })
          ]
        ]
      ]
    ]

-- Whatever the JSON value, a cursor that is unpacked from it has safe integers as its positions and
-- counters within their cap.
unpack-IsBounded : (j : Json) (c : LogCursor) → unpack_cursor j ≡ some c → IsBounded c
unfolding unpack_cursor
unpack-IsBounded
      (array (
        item (number v) (
          item (text job) (
            item (text attempt) (
              item (number m) (
                item (number seq) (item (number off) (item states (item positions Items.nil)))))))))
      c e =
    unpack_body-IsBounded v job attempt m seq off states positions c e
unpack-IsBounded _ c e = absurd (ground arith)
