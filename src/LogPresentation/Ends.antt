-- ===== src/LogPresentation/Ends.antt =====
-- packages/executor/src/log-presentation.ts: where a page ends.
use remote_build_orchestrato.Common.{
  ℕ, zero, suc, ◌+◌, ◌-◌, ◌*◌, ◌≤◌, ◌<◌, ◌≡◌, refl, ap, ◌∙◌, ◌⊎◌, inl, inr, Bool, true, false, ◌&&◌,
  Option, some, List, [], ◌∷◌, ◌++◌, take, leb, ltb, ◌==◌, if◌then◌else◌, arith, length,
  length-take, length-drop, Bool-cases,
}
use remote_build_orchestrato.LogCursor.{PresentationState, escape}
use remote_build_orchestrato.LogPresentation.{
  Bytes, PresentLogOptions, Run, Round, done, next, reads_text, control_step, flatten, show_byte,
  utf8_width, taken,
}
use remote_build_orchestrato.LogPresentation.Loop.{
  code_point, text_byte, control_round, round, rounds, present_log_chunks, start, fuel_for,
}
use remote_build_orchestrato.LogPresentation.Clean.{left, Wide, Good, skip-Walks}
use remote_build_orchestrato.LogPresentation.Kept.{
  All, at, Round-cases, high_width, control_step-ground, Keeps,
}
use remote_build_orchestrato.LogPresentation.Pages.{at-Keeps, rounds-Keeps}

module _ (decodes : Bytes → Bool) (o : PresentLogOptions) where
  -- The rounds that are left: two for each byte, one for each chunk, and one for a control sequence.
  abbrev weight : Run → ℕ
  weight r =
      2 * length (left r.place)
      + length r.place.later
      + (if reads_text o.strip_ansi r.parser then 0 else 1)

  abbrev Ended : Run → Type 0
  Ended r = (r.truncated ≡ true) ⊎ (length (left r.place) ≤ 3)

  abbrev Goes : Run → Round → Type 0
  Goes r (done s) = Ended s
  Goes r (next s) = weight s < weight r

  show-Goes :
      (r : Run) (l byte : ℕ) (rest : Bytes) (later : List Bytes)
      → Goes (at r l (byte ∷ rest) later) (show_byte o (at r l (byte ∷ rest) later) byte)
  show-Goes r l byte rest later = elim (Bool-cases (leb (length r.output + 1) o.max_bytes)) [
    | inl fits ↦ rw fits (omega arith)
    | inr full ↦ rw full (inl refl)
  ]

  taken-Goes :
      (r : Run) (l byte : ℕ) (rest : Bytes) (later : List Bytes) (q : PresentationState)
      → Goes (at r l (byte ∷ rest) later) (next (taken (at r l (byte ∷ rest) later) q))
  taken-Goes r l byte rest later q = ground arith

  control-Goes :
      (r : Run) (l byte : ℕ) (rest : Bytes) (later : List Bytes)
      → reads_text o.strip_ansi r.parser ≡ false
      → Goes
          (at r l (byte ∷ rest) later)
          (control_round decodes o (at r l (byte ∷ rest) later) byte)
  unfolding control_round
  control-Goes r l byte rest later h =
      let q = (control_step r.parser byte).1 in
      elim (Bool-cases (control_step r.parser byte).0) [
        | inl takes ↦ rw takes (taken-Goes r l byte rest later q)
        | inr again ↦
            let text = control_step-ground decodes o r.parser byte again in rw again (ground arith)
      ]

  code_point-Goes :
      (r : Run) (l byte w : ℕ) (rest : Bytes) (later : List Bytes)
      → Good (at r l (byte ∷ rest) later).place
      → 1 ≤ w
      → w ≤ 4
      → Goes (at r l (byte ∷ rest) later) (code_point decodes o (at r l (byte ∷ rest) later) byte w)
  unfolding code_point
  code_point-Goes r l byte w rest later good least four =
      let from = at r l (byte ∷ rest) later in
      let candidate = take w (byte ∷ rest ++ flatten later) in
      let taken_is = length-take w (byte ∷ rest ++ flatten later) in
      elim (Bool-cases (ltb (length candidate) w)) [
        | inl cut ↦ rw cut (inr (ground arith))
        | inr whole ↦ elim (Bool-cases (ltb o.raw_scan_cap (r.scanned + w))) [
          | inl beyond ↦ rw (whole, beyond) (inl refl)
          | inr within ↦ elim (Bool-cases (decodes candidate)) [
            | inr bad ↦ rw (whole, within, bad) (show-Goes r l byte rest later)
            | inl decoded ↦ elim (Bool-cases (leb (length r.output + w) o.max_bytes)) [
              | inr full ↦ rw (whole, within, decoded, full) (inl refl)
              | inl fits ↦
                  let (q, walks, left_is, shorter, good_q) =
                    skip-Walks w l (byte ∷ rest) later good (omega arith) four (ground arith) in
                  let less : length (left q) ≡ length (left from.place) - w =
                    ap length left_is ∙ length-drop w (left from.place) in
                  rw (whole, within, decoded, fits, walks) (omega arith)
            ]
          ]
        ]
      ]

  text-Goes :
      (r : Run) (l byte : ℕ) (rest : Bytes) (later : List Bytes)
      → Good (at r l (byte ∷ rest) later).place
      → reads_text o.strip_ansi r.parser ≡ true
      → Goes (at r l (byte ∷ rest) later) (text_byte decodes o (at r l (byte ∷ rest) later) byte)
  unfolding text_byte
  text-Goes r l byte rest later good h =
      let hidden = record r.parser { mode = escape; control_length = 1 } in
      elim (Bool-cases (o.strip_ansi && byte == 27)) [
        | inl esc ↦ rw esc (taken-Goes r l byte rest later hidden)
        | inr plain ↦ elim (Bool-cases (ltb 1 (utf8_width byte))) [
          | inl wide ↦
              let (high, four) = high_width decodes o byte wide in
              rw (plain, wide)
                (code_point-Goes r l byte (utf8_width byte) rest later good (ground arith) four)
          | inr one ↦ rw (plain, one) (show-Goes r l byte rest later)
        ]
      ]

  at-Goes :
      (r : Run) (l : ℕ) (rest : Bytes) (later : List Bytes)
      → Good (at r l rest later).place
      → Goes (at r l rest later) (round decodes o (at r l rest later))
  unfolding round
  at-Goes r l [] [] good = inr (omega arith)
  at-Goes r l [] (c ∷ cs) good = omega arith
  at-Goes r l (byte ∷ rest) later good = elim (Bool-cases (leb o.raw_scan_cap r.scanned)) [
    | inl over ↦ rw over (inl refl)
    | inr under ↦ elim (Bool-cases (reads_text o.strip_ansi r.parser)) [
      | inl text ↦ rw (under, text) (text-Goes r l byte rest later good text)
      | inr control ↦ rw (under, control) (control-Goes r l byte rest later control)
    ]
  ]

  module _ (decodes-high : (w : Bytes) → decodes w ≡ true → All (λ byte. 128 ≤ byte) w) where
    rounds-Ended : (f : ℕ) (r : Run) → Good r.place → weight r ≤ f → Ended (rounds decodes o f r)
    unfolding rounds
    rounds-Ended zero r good h = inr (omega arith)
    rounds-Ended (suc f) r good h =
        let goes = at-Goes r r.place.len r.place.rest r.place.later good in
        let step = at-Keeps decodes o decodes-high r r.place.len r.place.rest r.place.later good in
        elim (Round-cases (round decodes o r)) [
          | inl (s, e) ↦ let ends : Ended s = rw e at goes in rw (e, rounds) ends
          | inr (s, e) ↦
              let less : weight s < weight r = rw e at goes in
              let good_s : Good s.place = rw e at step.good in
              rw (e, rounds) (rounds-Ended f s good_s (omega arith))
        ]

    -- Where the decoder takes no ASCII byte and every chunk but the last has three bytes or more, a
    -- page ends where a budget is spent, which it reports as truncated, or within the last code
    -- point of the log: three bytes at most are left.
    pub page_ends :
        (chunks : List Bytes) (state : Option PresentationState) (r : Run)
        → Wide chunks
        → present_log_chunks decodes o chunks state ≡ some r
        → (r.truncated ≡ true) ⊎ (length (flatten chunks) ≤ r.consumed + 3)
    unfolding present_log_chunks
    page_ends chunks state r wide e =
        let s = start chunks state in
        let ends = rounds-Ended (fuel_for chunks) s (wide, inl refl) (ground arith) in
        let kept = rounds-Keeps decodes o decodes-high (fuel_for chunks) s (wide, inl refl) in
        let is : rounds decodes o (fuel_for chunks) s ≡ r = ground arith in
        let done_is : Ended r = rw is at ends in
        let of_r : Keeps decodes o s r = rw is at kept in
        let rest : length (left r.place) ≡ length (flatten chunks) - of_r.count =
          ap length of_r.left_is ∙ length-drop of_r.count (flatten chunks) in
        elim done_is [ inl cut ↦ inl cut | inr few ↦ inr (omega (arith, of_r.consumed)) ]
