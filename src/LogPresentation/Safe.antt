-- ===== src/LogPresentation/Safe.antt =====
-- packages/executor/src/log-presentation.ts: what a page never holds, and its bounds.
use remote_build_orchestrato.Common.{
  ℕ, zero, suc, ◌+◌, ◌≤◌, ◌<◌, ◌≡◌, ◌≢◌, refl, inl, inr, Bool, true, ◌&&◌, Option, none, some, List,
  [], ◌∷◌, ◌++◌, take, leb, ltb, ◌==◌, arith, length, length-take, length-append, Bool-cases,
}
use remote_build_orchestrato.LogCursor.{PresentationState}
use remote_build_orchestrato.LogCursor.RoundTrip.{ShortState}
use remote_build_orchestrato.LogPresentation.{
  Bytes, PresentLogOptions, Run, reads_text, control_step, flatten, show_byte, copy_state,
  utf8_width, control_byte, escape_byte, csi_byte, osc_byte, discard_byte, clamp,
}
use remote_build_orchestrato.LogPresentation.Loop.{
  code_point, text_byte, control_round, round, rounds, present_log_chunks, start, fuel_for,
}
use remote_build_orchestrato.LogPresentation.Kept.{All, at, run_of, Round-cases, high_width}

pub All-append : (P : ℕ → Type 0) (a b : Bytes) → All P a → All P b → All P (a ++ b)
All-append P [] b h k = k
All-append P (x ∷ a) b (here, there) k = (here, All-append P a b there k)

pub All-map : (P Q : ℕ → Type 0) (f : (n : ℕ) → P n → Q n) (a : Bytes) → All P a → All Q a
All-map P Q f [] h = tt
All-map P Q f (x ∷ a) (here, there) = (f x here, All-map P Q f a there)

control_byte-ShortState : (p : PresentationState) → ShortState p → ShortState (control_byte p)
unfolding control_byte
control_byte-ShortState p (a, b, c) = (ground arith, ground arith, omega arith)

control_step-ShortState :
    (p : PresentationState) (byte : ℕ) → ShortState p → ShortState (control_step p byte).1
unfolding control_step escape_byte csi_byte osc_byte discard_byte
control_step-ShortState p byte h = let (a, b, c) = control_byte-ShortState p h in ground arith

copy_state-ShortState : (s : Option PresentationState) → ShortState (copy_state s)
unfolding copy_state
copy_state-ShortState none = (omega arith, omega arith, omega arith)
copy_state-ShortState (some s) = (ground arith, ground arith, ground arith)

clamp_short : (n : ℕ) → n ≤ 4096 → clamp n ≡ n
clamp_short n h = ground arith

-- The state of a page is taken up unchanged by the next one.
pub copy_state_short : (s : PresentationState) → ShortState s → copy_state (some s) ≡ s
unfolding copy_state
copy_state_short s (a, b, c) =
    rw (clamp_short s.csi_length a, clamp_short s.osc_length b, clamp_short s.control_length c) refl

abbrev Plain : ℕ → Type 0
Plain byte = byte ≢ 27

module _ (decodes : Bytes → Bool) (o : PresentLogOptions) where
  record Safe (r : Run) : Type 0 where
    pub plain : o.strip_ansi ≡ true → All Plain r.output
    pub fits : length r.output ≤ o.max_bytes
    pub short : ShortState r.parser
    pub scan : r.scanned ≤ o.raw_scan_cap

  -- More is shown, and more is scanned.
  more-Safe :
      (r s : Run) (bytes : Bytes)
      → Safe r
      → (o.strip_ansi ≡ true → All Plain bytes)
      → s.output ≡ r.output ++ bytes
      → length r.output + length bytes ≤ o.max_bytes
      → s.parser ≡ r.parser
      → s.scanned ≤ o.raw_scan_cap
      → Safe s
  more-Safe r s bytes safe plain e fits same scan = record {
    plain = λ strip. rw e (All-append Plain r.output bytes (safe.plain strip) (plain strip));
    fits = rw e (omega (arith, length-append r.output bytes));
    short = rw same safe.short;
    scan = scan;
  }

  -- Nothing more is shown.
  same-Safe :
      (r s : Run)
      → Safe r
      → s.output ≡ r.output
      → ShortState s.parser
      → s.scanned ≤ o.raw_scan_cap
      → Safe s
  same-Safe r s safe e short scan = record {
    plain = λ strip. rw e (safe.plain strip);
    fits = rw e safe.fits;
    short = short;
    scan = scan;
  }

  show-Safe :
      (r : Run) (byte : ℕ)
      → Safe r
      → r.scanned < o.raw_scan_cap
      → (o.strip_ansi ≡ true → byte ≢ 27)
      → Safe (run_of (show_byte o r byte))
  show-Safe r byte safe room plain = elim (Bool-cases (leb (length r.output + 1) o.max_bytes)) [
    | inl fits ↦ rw fits (
        more-Safe r _ (byte ∷ []) safe (λ strip. (plain strip, tt)) refl (ground arith) refl
          (omega arith))
    | inr full ↦ rw full (same-Safe r _ safe refl safe.short (omega arith))
  ]

  control-Safe :
      (r : Run) (byte : ℕ)
      → Safe r
      → r.scanned < o.raw_scan_cap
      → Safe (run_of (control_round decodes o r byte))
  unfolding control_round
  control-Safe r byte safe room =
      let short = control_step-ShortState r.parser byte safe.short in
      elim (Bool-cases (control_step r.parser byte).0) [
        | inl takes ↦ rw takes (same-Safe r _ safe refl short (omega arith))
        | inr again ↦ rw again (same-Safe r _ safe refl short (omega arith))
      ]

  module _ (decodes-high : (w : Bytes) → decodes w ≡ true → All (λ byte. 128 ≤ byte) w) where
    code_point-Safe :
        (r : Run) (byte w : ℕ)
        → Safe r
        → r.scanned < o.raw_scan_cap
        → 128 ≤ byte
        → Safe (run_of (code_point decodes o r byte w))
    unfolding code_point
    code_point-Safe r byte w safe room high =
        let candidate = take w (r.place.rest ++ flatten r.place.later) in
        let short = length-take w (r.place.rest ++ flatten r.place.later) in
        elim (Bool-cases (ltb (length candidate) w)) [
          | inl cut ↦ rw cut safe
          | inr whole ↦ elim (Bool-cases (ltb o.raw_scan_cap (r.scanned + w))) [
            | inl beyond ↦ rw (whole, beyond) (same-Safe r _ safe refl safe.short safe.scan)
            | inr within ↦ elim (Bool-cases (decodes candidate)) [
              | inr bad ↦
                  rw (whole, within, bad) (show-Safe r byte safe room (λ strip. omega arith))
              | inl decoded ↦ elim (Bool-cases (leb (length r.output + w) o.max_bytes)) [
                | inr full ↦
                    rw (whole, within, decoded, full)
                      (same-Safe r _ safe refl safe.short (omega arith))
                | inl fits ↦
                    let plain =
                      All-map (λ b. 128 ≤ b) Plain (λ b h. omega arith) candidate
                        (decodes-high candidate decoded) in
                    rw (whole, within, decoded, fits)
                      (more-Safe r _ candidate safe (λ strip. plain) refl (ground arith) refl
                        (ground arith))
              ]
            ]
          ]
        ]

    text-Safe :
        (r : Run) (byte : ℕ)
        → Safe r
        → r.scanned < o.raw_scan_cap
        → Safe (run_of (text_byte decodes o r byte))
    unfolding text_byte
    text-Safe r byte safe room =
        let (a, b, c) = safe.short in
        elim (Bool-cases (o.strip_ansi && byte == 27)) [
          | inl esc ↦ rw esc (same-Safe r _ safe refl (a, b, omega arith) (omega arith))
          | inr plain ↦ elim (Bool-cases (ltb 1 (utf8_width byte))) [
            | inl wide ↦
                let (high, four) = high_width decodes o byte wide in
                rw (plain, wide) (code_point-Safe r byte (utf8_width byte) safe room high)
            | inr one ↦ rw (plain, one) (show-Safe r byte safe room (λ strip. ground arith))
          ]
        ]

    at-Safe :
        (r : Run) (l : ℕ) (rest : Bytes) (later : List Bytes)
        → Safe (at r l rest later)
        → Safe (run_of (round decodes o (at r l rest later)))
    unfolding round
    at-Safe r l [] [] safe = safe
    at-Safe r l [] (c ∷ cs) safe = same-Safe (at r l [] (c ∷ cs)) _ safe refl safe.short safe.scan
    at-Safe r l (byte ∷ rest) later safe =
        let from = at r l (byte ∷ rest) later in
        elim (Bool-cases (leb o.raw_scan_cap r.scanned)) [
          | inl over ↦ rw over (same-Safe from _ safe refl safe.short safe.scan)
          | inr under ↦
              let room : r.scanned < o.raw_scan_cap = ground arith in
              elim (Bool-cases (reads_text o.strip_ansi r.parser)) [
                | inl text ↦ rw (under, text) (text-Safe from byte safe room)
                | inr control ↦ rw (under, control) (control-Safe from byte safe room)
              ]
        ]

    rounds-Safe : (f : ℕ) (r : Run) → Safe r → Safe (rounds decodes o f r)
    unfolding rounds
    rounds-Safe zero r safe = safe
    rounds-Safe (suc f) r safe =
        let step = at-Safe r r.place.len r.place.rest r.place.later safe in
        elim (Round-cases (round decodes o r)) [
          | inl (s, e) ↦ let ends : Safe s = rw e at step in rw (e, rounds) ends
          | inr (s, e) ↦ let goes : Safe s = rw e at step in rw (e, rounds) (rounds-Safe f s goes)
        ]

    page-Safe :
        (chunks : List Bytes) (state : Option PresentationState) (r : Run)
        → present_log_chunks decodes o chunks state ≡ some r
        → Safe r
    unfolding present_log_chunks
    page-Safe chunks state r e =
        let s = start chunks state in
        let first : Safe s = record {
          plain = λ strip. tt;
          fits = omega arith;
          short = copy_state-ShortState state;
          scan = omega arith;
        } in
        let is : rounds decodes o (fuel_for chunks) s ≡ r = ground arith in
        let safe = rounds-Safe (fuel_for chunks) s first in
        let of_r : Safe r = rw is at safe in of_r

    -- With stripAnsi, and a decoder that takes no ASCII byte, a page has no ESC byte and is within its
    -- budgets, wherever the log is cut into chunks; its state is one that a cursor can hold.
    pub page_safe :
        (chunks : List Bytes) (state : Option PresentationState) (r : Run)
        → o.strip_ansi ≡ true
        → present_log_chunks decodes o chunks state ≡ some r
        → All (λ byte. byte ≢ 27) r.output
          × (length r.output ≤ o.max_bytes)
          × (r.scanned ≤ o.raw_scan_cap)
          × ShortState r.parser
    page_safe chunks state r strip e =
        let safe = page-Safe chunks state r e in
        (safe.plain strip, safe.fits, safe.scan, safe.short)

    pub page-ShortState :
        (chunks : List Bytes) (state : Option PresentationState) (r : Run)
        → present_log_chunks decodes o chunks state ≡ some r
        → ShortState r.parser
    page-ShortState chunks state r e = let safe = page-Safe chunks state r e in safe.short
