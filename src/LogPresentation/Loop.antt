-- ===== src/LogPresentation/Loop.antt =====
-- packages/executor/src/log-presentation.ts: the loop of presentLogChunks.
-- `decodes` is whether the bytes of a code point decode without a replacement character.
use remote_build_orchestrato.Common.{
  ℕ, zero, suc, ◌+◌, ◌*◌, Bool, false, not, ◌&&◌, ◌||◌, Option, none, some, List, [], ◌∷◌, ◌++◌,
  take, ltb, leb, ◌==◌, if◌then◌else◌, length,
}
use remote_build_orchestrato.LogCursor.{PresentationState, escape}
use remote_build_orchestrato.LogPresentation.{
  show_byte, utf8_width, control_step, Run, reads_text, Bytes, PresentLogOptions, Round, taken,
  stopped, flatten, skip, copy_state, done, next,
}

-- Two rounds for each byte and one for each chunk.
abbrev pub fuel_for : List Bytes → ℕ
fuel_for chunks = 2 * length (flatten chunks) + length chunks + 1

abbrev pub start : List Bytes → Option PresentationState → Run
start chunks state = record {
  parser = copy_state state;
  output = [];
  consumed = 0;
  scanned = 0;
  truncated = false;
  place = record { len = 0; rest = []; later = chunks };
}

module _ (decodes : Bytes → Bool) (o : PresentLogOptions) where
  unfoldable pub code_point : Run → ℕ → ℕ → Round
  code_point r byte width =
      let p = r.place in
      let candidate = take width (p.rest ++ flatten p.later) in
      if ltb (length candidate) width
      then done r
      else if ltb o.raw_scan_cap (r.scanned + width)
      then done (stopped r.scanned r)
      else if not (decodes candidate)
      then show_byte o r byte
      else if leb (length r.output + width) o.max_bytes
      then (let (n, q) = skip p.len (length p.rest) width p in
          next (record r {
            output = r.output ++ candidate;
            consumed = r.consumed + n;
            scanned = r.scanned + width;
            place = q;
          }))
      else done (stopped (r.scanned + 1) r)

  unfoldable pub text_byte : Run → ℕ → Round
  text_byte r byte =
      let width = utf8_width byte in
      if o.strip_ansi && byte == 27
      then next (taken r (record r.parser { mode = escape; control_length = 1 }))
      else if ltb 1 width
      then code_point r byte width
      else show_byte o r byte

  -- A byte that is not taken is read again as text.
  unfoldable pub control_round : Run → ℕ → Round
  control_round r byte =
      let (takes, q) = control_step r.parser byte in
      if takes then next (taken r q) else next (record r { parser = q; scanned = r.scanned + 1 })

  unfoldable pub round : Run → Round
  round r = elim r.place.rest [
    | [] ↦ elim r.place.later [
      | [] ↦ done r
      | c ∷ cs ↦ next (record r { place = record { len = length c; rest = c; later = cs } })
    ]
    | byte ∷ rest ↦
        if leb o.raw_scan_cap r.scanned
        then done (stopped r.scanned r)
        else if reads_text o.strip_ansi r.parser
        then text_byte r byte
        else control_round r byte
  ]

  unfoldable pub rounds : ℕ → Run → Run
  rounds zero r = r
  rounds (suc fuel) r = elim (round r) [ done s ↦ s | next s ↦ rounds fuel s ]

  -- none is the RangeError.
  unfoldable pub present_log_chunks : List Bytes → Option PresentationState → Option Run
  present_log_chunks chunks state =
      if ltb o.max_bytes 4 || o.raw_scan_cap == 0
      then none
      else some (rounds (fuel_for chunks) (start chunks state))
