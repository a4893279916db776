-- ===== src/LogPresentation/Reads.antt =====
-- packages/executor/src/log-presentation.ts: the pages of a log that is read on.
use remote_build_orchestrato.Common.{
  ℕ, ◌≤◌, ◌≡◌, refl, sym, ap, ◌∙◌, Bool, true, some, List, [], ◌++◌, drop,
}
use mathlib.Core.List.{append_assoc}
use remote_build_orchestrato.LogCursor.{PresentationState}
use remote_build_orchestrato.LogCursor.RoundTrip.{ShortState}
use remote_build_orchestrato.LogPresentation.{Bytes, PresentLogOptions, Run, flatten}
use remote_build_orchestrato.LogPresentation.Loop.{present_log_chunks}
use remote_build_orchestrato.LogPresentation.Clean.{clean, Wide}
use remote_build_orchestrato.LogPresentation.Kept.{All}
use remote_build_orchestrato.LogPresentation.Pages.{page-clean}
use remote_build_orchestrato.LogPresentation.Safe.{copy_state_short, page-ShortState}

-- Pages that follow each other: each has its own budgets and its own chunks of the bytes that the
-- page before left, and takes up its state.
pub data Read (decodes : Bytes → Bool) (strip : Bool)
    : PresentationState → Bytes → Bytes → PresentationState → Bytes → Type 0 where
  here : (p : PresentationState) (log : Bytes) → Read decodes strip p log [] p log
  page :
      (p q : PresentationState) (log out left : Bytes) (max_bytes scan_cap : ℕ)
      (chunks : List Bytes) (r : Run)
      → Wide chunks
      → flatten chunks ≡ log
      → present_log_chunks decodes
          (record { max_bytes = max_bytes; strip_ansi = strip; raw_scan_cap = scan_cap })
          chunks
          (some p)
        ≡ some r
      → Read decodes strip r.parser (drop r.consumed log) out q left
      → Read decodes strip p log (r.output ++ out) q left

-- Where the decoder takes no ASCII byte, pages that follow each other, from a state within its
-- bounds, show together what is to be shown of the log up to where they end: each has its own
-- budgets and its own chunks, which have three bytes or more, the last one of a page aside.
pub pages-clean :
    (decodes : Bytes → Bool) (strip : Bool)
    → ((w : Bytes) → decodes w ≡ true → All (λ byte. 128 ≤ byte) w)
    → (p q : PresentationState) (log out left : Bytes) → ShortState p
    → Read decodes strip p log out q left
    → out ++ clean strip q left ≡ clean strip p log
pages-clean decodes strip high _ _ _ _ _ short (here p log) = refl
pages-clean decodes strip high _ _ _ _ _ short
      (page p q log more left max_bytes scan_cap chunks r wide whole e next) =
    let o : PresentLogOptions = record {
      max_bytes = max_bytes;
      strip_ansi = strip;
      raw_scan_cap = scan_cap;
    } in
    let later =
      pages-clean decodes strip high r.parser q (drop r.consumed log) more left
        (page-ShortState decodes o high chunks (some p) r e) next in
    append_assoc r.output more (clean strip q left)
    ∙ ap (λ x. r.output ++ x) later
    ∙ ap (λ x. r.output ++ clean strip r.parser (drop r.consumed x)) (sym whole)
    ∙ page-clean decodes o high chunks (some p) r wide e
    ∙ ap (λ x. clean strip x (flatten chunks)) (copy_state_short p short)
    ∙ ap (clean strip p) whole
