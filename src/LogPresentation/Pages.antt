-- ===== src/LogPresentation/Pages.antt =====
-- packages/executor/src/log-presentation.ts: the pages of a log are what should be shown of it.
use remote_build_orchestrato.Common.{
  ℕ, zero, suc, ◌+◌, ◌≤◌, ◌≡◌, refl, sym, ap, ◌∙◌, inl, inr, Bool, true, ◌&&◌, Option, some, List,
  [], ◌∷◌, ◌++◌, drop, leb, ltb, ◌==◌, arith, Bool-cases,
}
use remote_build_orchestrato.LogCursor.{PresentationState, escape}
use remote_build_orchestrato.LogPresentation.{
  Bytes, PresentLogOptions, Run, reads_text, flatten, copy_state, utf8_width,
}
use remote_build_orchestrato.LogPresentation.Loop.{
  text_byte, round, rounds, present_log_chunks, start, fuel_for,
}
use remote_build_orchestrato.LogPresentation.Clean.{clean, left, Wide, Good, drop-drop}
use remote_build_orchestrato.LogPresentation.Kept.{
  All, run_of, Round-cases, at, Keeps, stays-Keeps, taken-Keeps, show-Keeps, high_width,
  control-Keeps, code_point-Keeps, text_shown, text_hidden,
}

module _ (decodes : Bytes → Bool) (o : PresentLogOptions)
    (decodes-high : (w : Bytes) → decodes w ≡ true → All (λ byte. 128 ≤ byte) w) where
  text-Keeps :
      (r : Run) (l byte : ℕ) (rest : Bytes) (later : List Bytes)
      → Good (at r l (byte ∷ rest) later).place
      → reads_text o.strip_ansi r.parser ≡ true
      → Keeps decodes o
          (at r l (byte ∷ rest) later)
          (run_of (text_byte decodes o (at r l (byte ∷ rest) later) byte))
  unfolding text_byte
  text-Keeps r l byte rest later good h =
      let hidden = record r.parser { mode = escape; control_length = 1 } in
      elim (Bool-cases (o.strip_ansi && byte == 27)) [
        | inl esc ↦ rw esc (
            taken-Keeps decodes o r l byte rest later hidden good
              (text_hidden o.strip_ansi r.parser byte h esc))
        | inr plain ↦ elim (Bool-cases (ltb 1 (utf8_width byte))) [
          | inl wide ↦
              let (high, four) = high_width decodes o byte wide in
              rw (plain, wide)
                (code_point-Keeps decodes o decodes-high r l byte (utf8_width byte) rest later good
                  h high four)
          | inr one ↦
              rw (plain, one)
                (show-Keeps decodes o r l byte rest later good
                  (text_shown o.strip_ansi r.parser byte h plain))
        ]
      ]

  pub at-Keeps :
      (r : Run) (l : ℕ) (rest : Bytes) (later : List Bytes)
      → Good (at r l rest later).place
      → Keeps decodes o (at r l rest later) (run_of (round decodes o (at r l rest later)))
  unfolding round
  at-Keeps r l [] [] good = stays-Keeps decodes o (at r l [] []) r.scanned r.truncated good
  at-Keeps r l [] (c ∷ cs) ((chunk, wide), place) = record {
    count = 0;
    consumed = omega arith;
    left_is = refl;
    good = (wide, inr chunk);
    same = refl;
  }
  at-Keeps r l (byte ∷ rest) later good = elim (Bool-cases (leb o.raw_scan_cap r.scanned)) [
    | inl over ↦ rw over (stays-Keeps decodes o (at r l (byte ∷ rest) later) r.scanned true good)
    | inr under ↦ elim (Bool-cases (reads_text o.strip_ansi r.parser)) [
      | inl text ↦ rw (under, text) (text-Keeps r l byte rest later good text)
      | inr control ↦ rw (under, control) (control-Keeps decodes o r l byte rest later good control)
    ]
  ]

  Keeps-trans : (r s t : Run) → Keeps decodes o r s → Keeps decodes o s t → Keeps decodes o r t
  Keeps-trans r s t a b = record {
    count = a.count + b.count;
    consumed = ground (arith, a.consumed, b.consumed);
    left_is = b.left_is ∙ ap (drop b.count) a.left_is ∙ drop-drop b.count a.count (left r.place);
    good = b.good;
    same = b.same ∙ a.same;
  }

  pub rounds-Keeps : (f : ℕ) (r : Run) → Good r.place → Keeps decodes o r (rounds decodes o f r)
  unfolding rounds
  rounds-Keeps zero r good = stays-Keeps decodes o r r.scanned r.truncated good
  rounds-Keeps (suc f) r good =
      let step : Keeps decodes o r (run_of (round decodes o r)) =
        at-Keeps r r.place.len r.place.rest r.place.later good in
      elim (Round-cases (round decodes o r)) [
        | inl (s, e) ↦ let ends : Keeps decodes o r s = rw e at step in rw (e, rounds) ends
        | inr (s, e) ↦
            let goes : Keeps decodes o r s = rw e at step in
            rw (e, rounds)
              (Keeps-trans r s (rounds decodes o f s) goes (rounds-Keeps f s goes.good))
      ]

  -- What a page shows, and what is to be shown of the bytes after those that it consumed, is what
  -- is to be shown of the log, whatever the budgets are and wherever the log is cut into chunks
  -- that have three bytes or more, the last one aside.
  pub page-clean :
      (chunks : List Bytes) (state : Option PresentationState) (r : Run)
      → Wide chunks
      → present_log_chunks decodes o chunks state ≡ some r
      → r.output ++ clean o.strip_ansi r.parser (drop r.consumed (flatten chunks))
        ≡ clean o.strip_ansi (copy_state state) (flatten chunks)
  unfolding present_log_chunks
  page-clean chunks state r wide e =
      let s = start chunks state in
      let kept = rounds-Keeps (fuel_for chunks) s (wide, inl refl) in
      let is : rounds decodes o (fuel_for chunks) s ≡ r = ground arith in
      let of_r : Keeps decodes o s r = rw is at kept in
      let taken_is : of_r.count ≡ r.consumed = ground (arith, of_r.consumed) in
      let rest : left r.place ≡ drop r.consumed (flatten chunks) =
        of_r.left_is ∙ ap (λ n. drop n (flatten chunks)) taken_is in
      rw (sym rest) of_r.same
