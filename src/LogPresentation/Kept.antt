-- ===== src/LogPresentation/Kept.antt =====
-- packages/executor/src/log-presentation.ts: a round keeps what is shown and to be shown.
use remote_build_orchestrato.Common.{
  ℕ, ◌+◌, ◌≤◌, ◌≡◌, refl, sym, ap, ◌∙◌, ◌⊎◌, inl, inr, Bool, true, false, ◌&&◌, List, [], ◌∷◌, ◌++◌,
  take, drop, leb, ltb, ◌==◌, arith, length, Bool-cases, take-append-drop, length-take,
}
use mathlib.Core.List.{append_assoc}
use remote_build_orchestrato.LogCursor.{PresentationState, escape}
use remote_build_orchestrato.LogPresentation.{
  Bytes, Place, PresentLogOptions, Run, Round, done, next, reads_text, control_step, flatten,
  show_byte, copy_state, utf8_width, taken, is_ground,
}
use remote_build_orchestrato.LogPresentation.Loop.{code_point, control_round}
use remote_build_orchestrato.LogPresentation.Clean.{clean, shown, left, Good, skip-Walks}

abbrev pub All : (ℕ → Type 0) → Bytes → Type 0
All P [] = Unit
All P (byte ∷ bytes) = P byte × All P bytes

abbrev pub run_of : Round → Run
run_of (done r) = r
run_of (next r) = r

pub text_shown :
    (strip : Bool) (p : PresentationState) (byte : ℕ)
    → reads_text strip p ≡ true
    → (strip && byte == 27) ≡ false
    → shown strip p byte ≡ (true, p)
unfolding shown
text_shown strip p byte h e = rw (h, e) refl

pub text_hidden :
    (strip : Bool) (p : PresentationState) (byte : ℕ)
    → reads_text strip p ≡ true
    → (strip && byte == 27) ≡ true
    → shown strip p byte ≡ (false, record p { mode = escape; control_length = 1 })
unfolding shown
text_hidden strip p byte h e = rw (h, e) refl

not_escape : (strip : Bool) (byte : ℕ) → 28 ≤ byte → (strip && byte == 27) ≡ false
not_escape strip byte h = ground arith

-- Bytes that are not ASCII are shown as they are.
clean-high :
    (strip : Bool) (p : PresentationState) (high low : Bytes)
    → reads_text strip p ≡ true
    → All (λ byte. 128 ≤ byte) high
    → clean strip p (high ++ low) ≡ high ++ clean strip p low
unfolding clean
clean-high strip p [] low h high_is = refl
clean-high strip p (byte ∷ high) low h (here, there) =
    rw
      (
        text_shown strip p byte h (not_escape strip byte (omega arith)),
        clean-high strip p high low h there,
      )
      refl

pub Round-cases : (x : Round) → ((s : Run) × (x ≡ done s)) ⊎ ((s : Run) × (x ≡ next s))
Round-cases (done s) = inl (s, refl)
Round-cases (next s) = inr (s, refl)

abbrev pub at : Run → ℕ → Bytes → List Bytes → Run
at r l rest later = record r { place = record { len = l; rest = rest; later = later } }

module _ (decodes : Bytes → Bool) (o : PresentLogOptions) where
  abbrev all_shown : Run → Bytes
  all_shown r = r.output ++ clean o.strip_ansi r.parser (left r.place)

  -- What is shown before and what is still to be shown is the same after `s`, which is further on.
  pub record Keeps (r s : Run) : Type 0 where
    pub count : ℕ
    pub consumed : s.consumed ≡ r.consumed + count
    pub left_is : left s.place ≡ drop count (left r.place)
    pub good : Good s.place
    pub same : all_shown s ≡ all_shown r

  pub stays-Keeps :
      (r : Run) (n : ℕ) (b : Bool)
      → Good r.place
      → Keeps r (record r { scanned = n; truncated = b })
  stays-Keeps r n b good = record {
    count = 0;
    consumed = omega arith;
    left_is = refl;
    good = good;
    same = refl;
  }

  Good-past :
      (l byte : ℕ) (rest : Bytes) (later : List Bytes)
      → Good (record { len = l; rest = byte ∷ rest; later = later })
      → Good (record { len = l; rest = rest; later = later })
  Good-past l byte rest later (wide, inl none_left) = absurd (ground (arith, none_left))
  Good-past l byte rest later (wide, inr other) = (wide, inr other)

  pub taken-Keeps :
      (r : Run) (l byte : ℕ) (rest : Bytes) (later : List Bytes) (q : PresentationState)
      → Good (at r l (byte ∷ rest) later).place
      → shown o.strip_ansi r.parser byte ≡ (false, q)
      → Keeps (at r l (byte ∷ rest) later) (taken (at r l (byte ∷ rest) later) q)
  unfolding clean
  taken-Keeps r l byte rest later q good e = record {
    count = 1;
    consumed = refl;
    left_is = refl;
    good = Good-past l byte rest later good;
    same = rw e refl;
  }

  pub show-Keeps :
      (r : Run) (l byte : ℕ) (rest : Bytes) (later : List Bytes)
      → Good (at r l (byte ∷ rest) later).place
      → shown o.strip_ansi r.parser byte ≡ (true, r.parser)
      → Keeps (at r l (byte ∷ rest) later) (run_of (show_byte o (at r l (byte ∷ rest) later) byte))
  unfolding clean
  show-Keeps r l byte rest later good e =
      let from = at r l (byte ∷ rest) later in
      let to = record (taken from r.parser) { output = r.output ++ byte ∷ [] } in
      let keeps : Keeps from to = record {
        count = 1;
        consumed = refl;
        left_is = refl;
        good = Good-past l byte rest later good;
        same = rw e (
            append_assoc r.output (byte ∷ [])
              (clean o.strip_ansi r.parser (rest ++ flatten later)));
      } in
      elim (Bool-cases (leb (length r.output + 1) o.max_bytes)) [
        | inl fits ↦ rw fits keeps
        | inr full ↦ rw full (stays-Keeps from (r.scanned + 1) true good)
      ]

  pub high_width :
      (byte : ℕ) → ltb 1 (utf8_width byte) ≡ true → (128 ≤ byte) × (utf8_width byte ≤ 4)
  unfolding utf8_width
  high_width byte h = (ground arith, ground arith)

  pub control_step-ground :
      (p : PresentationState) (byte : ℕ)
      → (control_step p byte).0 ≡ false
      → is_ground (control_step p byte).1.mode ≡ true
  unfolding control_step remote_build_orchestrato.LogPresentation.escape_byte
  control_step-ground p byte e = ground arith

  taken_again-Keeps :
      (r : Run) (l byte : ℕ) (rest : Bytes) (later : List Bytes) (q : PresentationState)
      → Good (at r l (byte ∷ rest) later).place
      → shown o.strip_ansi r.parser byte ≡ shown o.strip_ansi q byte
      → Keeps
          (at r l (byte ∷ rest) later)
          (record (at r l (byte ∷ rest) later) { parser = q; scanned = r.scanned + 1 })
  unfolding clean
  taken_again-Keeps r l byte rest later q good e = record {
    count = 0;
    consumed = omega arith;
    left_is = refl;
    good = good;
    same = rw e refl;
  }

  pub control-Keeps :
      (r : Run) (l byte : ℕ) (rest : Bytes) (later : List Bytes)
      → Good (at r l (byte ∷ rest) later).place
      → reads_text o.strip_ansi r.parser ≡ false
      → Keeps
          (at r l (byte ∷ rest) later)
          (run_of (control_round decodes o (at r l (byte ∷ rest) later) byte))
  unfolding control_round shown
  control-Keeps r l byte rest later good h =
      let q = (control_step r.parser byte).1 in
      elim (Bool-cases (control_step r.parser byte).0) [
        | inl takes ↦ rw takes (taken-Keeps r l byte rest later q good (rw (h, takes) refl))
        | inr again ↦
            let text = control_step-ground r.parser byte again in
            let reads : reads_text o.strip_ansi q ≡ true = ground arith in
            rw again (taken_again-Keeps r l byte rest later q good (rw (h, again, reads) refl))
      ]

  -- A code point that decodes has no ASCII byte.
  module _ (decodes-high : (w : Bytes) → decodes w ≡ true → All (λ byte. 128 ≤ byte) w) where
    walk-Keeps :
        (r : Run) (w : ℕ) (q : Place)
        → reads_text o.strip_ansi r.parser ≡ true
        → decodes (take w (left r.place)) ≡ true
        → left q ≡ drop w (left r.place)
        → Good q
        → Keeps r (record r {
          output = r.output ++ take w (left r.place);
          consumed = r.consumed + w;
          scanned = r.scanned + w;
          place = q;
        })
    walk-Keeps r w q h e left_is good =
        let candidate = take w (left r.place) in
        let after = drop w (left r.place) in
        record {
          count = w;
          consumed = refl;
          left_is = left_is;
          good = good;
          same = rw left_is (
              append_assoc r.output candidate (clean o.strip_ansi r.parser after)
              ∙ ap (λ x. r.output ++ x)
                  (sym (
                      clean-high o.strip_ansi r.parser candidate after h (decodes-high candidate e))
                    ∙ ap (clean o.strip_ansi r.parser) (take-append-drop w (left r.place))));
        }

    pub code_point-Keeps :
        (r : Run) (l byte w : ℕ) (rest : Bytes) (later : List Bytes)
        → Good (at r l (byte ∷ rest) later).place
        → reads_text o.strip_ansi r.parser ≡ true
        → 128 ≤ byte
        → w ≤ 4
        → Keeps
            (at r l (byte ∷ rest) later)
            (run_of (code_point decodes o (at r l (byte ∷ rest) later) byte w))
    unfolding code_point
    code_point-Keeps r l byte w rest later good h high four =
        let from = at r l (byte ∷ rest) later in
        let candidate = take w (byte ∷ rest ++ flatten later) in
        let shows =
          text_shown o.strip_ansi r.parser byte h (not_escape o.strip_ansi byte (omega arith)) in
        elim (Bool-cases (ltb (length candidate) w)) [
          | inl cut ↦ rw cut (stays-Keeps from r.scanned r.truncated good)
          | inr whole ↦ elim (Bool-cases (ltb o.raw_scan_cap (r.scanned + w))) [
            | inl beyond ↦ rw (whole, beyond) (stays-Keeps from r.scanned true good)
            | inr within ↦ elim (Bool-cases (decodes candidate)) [
              | inr bad ↦ rw (whole, within, bad) (show-Keeps r l byte rest later good shows)
              | inl decoded ↦ elim (Bool-cases (leb (length r.output + w) o.max_bytes)) [
                | inr full ↦
                    rw (whole, within, decoded, full) (stays-Keeps from (r.scanned + 1) true good)
                | inl fits ↦
                    let there : w ≤ length (byte ∷ rest ++ flatten later) =
                      ground (arith, length-take w (byte ∷ rest ++ flatten later)) in
                    let (q, walks, left_is, shorter, good_q) =
                      skip-Walks w l (byte ∷ rest) later good (omega arith) four there in
                    rw (whole, within, decoded, fits, walks)
                      (walk-Keeps from w q h decoded left_is good_q)
              ]
            ]
          ]
        ]
