-- ===== src/LogCursor/Scenarios.antt =====
-- A cursor in the middle of a control sequence of stdout, with stderr at the start of a chunk.
use remote_build_orchestrato.Common.{◌≡◌, refl, some, none, arith}
use remote_build_orchestrato.LogCursor.{
  LogCursor, PresentationMode, PresentationState, logs, pack_cursor, unpack_cursor,
}
use remote_build_orchestrato.LogCursor.RoundTrip.{IsBounded, unpack-pack}

abbrev state : PresentationState
state = record { mode = PresentationMode.osc; csi_length = 0; osc_length = 7; control_length = 9 }

abbrev cursor : LogCursor
cursor = record {
  job = 1;
  attempt = 2;
  mode = logs;
  seq = 40;
  off = 128;
  states = record { stdout = some state; stderr = none };
  positions = record { stdout = none; stderr = some (record { seq = 39; off = 0 }) };
}

cursor-IsBounded : IsBounded cursor
cursor-IsBounded = record {
  seq = omega arith;
  off = omega arith;
  states = ((omega arith, omega arith, omega arith), tt);
  positions = (tt, (omega arith, omega arith));
}

unpack-pack_example : unpack_cursor (pack_cursor cursor) ≡ some cursor
unpack-pack_example = unpack-pack cursor cursor-IsBounded

unpacked : unpack_cursor (pack_cursor cursor) ≡ some cursor
unfolding unpack_cursor pack_cursor remote_build_orchestrato.LogCursor.unpack_stream_pair
    remote_build_orchestrato.LogCursor.decode_packed_state
    remote_build_orchestrato.LogCursor.decode_packed_position
unpacked = refl
