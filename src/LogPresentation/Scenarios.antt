-- ===== src/LogPresentation/Scenarios.antt =====
-- A coloured `hi €x` in two chunks, read in two pages, and its tail.
use remote_build_orchestrato.Common.{
  ◌≤◌, ◌≡◌, ◌≢◌, ◌⊎◌, refl, inl, inr, Bool, true, false, ◌&&◌, some, List, [], ◌∷◌, ◌++◌, leb,
  arith, length,
}
use remote_build_orchestrato.LogCursor.{PresentationState, PresentationMode}
use remote_build_orchestrato.LogCursor.RoundTrip.{ShortState}
use remote_build_orchestrato.LogPresentation.{
  Bytes, PresentLogOptions, Run, flatten, copy_state, utf8_width, control_byte, escape_byte,
  csi_byte, control_step, skip,
}
use remote_build_orchestrato.LogPresentation.Tail.{
  PresentLogTailOptions, present_log_tail, is_residual, remove_residual_controls, walk_back,
  trailing_lines, first_utf8, utf8_suffix, present_stream,
}
use remote_build_orchestrato.LogPresentation.Loop.{
  present_log_chunks, code_point, text_byte, control_round, round, rounds,
}
use remote_build_orchestrato.LogPresentation.Clean.{clean}
use remote_build_orchestrato.LogPresentation.Kept.{All}
use remote_build_orchestrato.LogPresentation.Ends.{page_ends}
use remote_build_orchestrato.LogPresentation.Safe.{page_safe}
use remote_build_orchestrato.LogPresentation.Reads.{here, page, pages-clean}
use remote_build_orchestrato.LogPresentation.Tail.{Printable, tail_safe}

-- A stand-in for the decoder, which takes the bytes that are not ASCII.
high_only : Bytes → Bool
high_only [] = true
high_only (byte ∷ bytes) = leb 128 byte && high_only bytes

high_only-high : (w : Bytes) → high_only w ≡ true → All (λ byte. 128 ≤ byte) w
unfolding high_only
high_only-high [] e = tt
high_only-high (byte ∷ bytes) e = (ground arith, high_only-high bytes (ground arith))

-- ESC [ 3 1 m h i, then € and x.
abbrev chunks : List Bytes
chunks = (27 ∷ 91 ∷ 51 ∷ 49 ∷ 109 ∷ 104 ∷ 105 ∷ 226 ∷ []) ∷ (130 ∷ 172 ∷ 120 ∷ []) ∷ []

abbrev limits : PresentLogOptions
limits = record { max_bytes = 4; strip_ansi = true; raw_scan_cap = 100 }

abbrev fresh : PresentationState
fresh = record {
  mode = PresentationMode.ground;
  csi_length = 0;
  osc_length = 0;
  control_length = 0;
}

abbrev after_colour : PresentationState
after_colour = record fresh { csi_length = 3 }

abbrev first_page : Run
first_page = record {
  parser = after_colour;
  output = 104 ∷ 105 ∷ [];
  consumed = 7;
  scanned = 8;
  truncated = true;
  place = record { len = 8; rest = 226 ∷ []; later = (130 ∷ 172 ∷ 120 ∷ []) ∷ [] };
}

first_page_is : present_log_chunks high_only limits chunks (some fresh) ≡ some first_page
unfolding present_log_chunks rounds round text_byte control_round code_point control_step
    escape_byte csi_byte control_byte utf8_width copy_state high_only
first_page_is = refl

abbrev second_page : Run
second_page = record {
  parser = after_colour;
  output = 226 ∷ 130 ∷ 172 ∷ 120 ∷ [];
  consumed = 4;
  scanned = 4;
  truncated = false;
  place = record { len = 4; rest = []; later = [] };
}

second_page_is :
    present_log_chunks high_only limits ((226 ∷ 130 ∷ 172 ∷ 120 ∷ []) ∷ []) (some after_colour)
    ≡ some second_page
unfolding present_log_chunks rounds round text_byte code_point skip utf8_width copy_state high_only
second_page_is = refl

pages-clean_example :
    (104 ∷ 105 ∷ 226 ∷ 130 ∷ 172 ∷ 120 ∷ []) ++ clean true after_colour []
    ≡ clean true fresh (flatten chunks)
pages-clean_example =
    pages-clean high_only true high_only-high fresh after_colour (flatten chunks)
      (104 ∷ 105 ∷ 226 ∷ 130 ∷ 172 ∷ 120 ∷ []) [] (omega arith, omega arith, omega arith)
      (page fresh after_colour (flatten chunks) (226 ∷ 130 ∷ 172 ∷ 120 ∷ []) [] 4 100 chunks
        first_page (inr (omega arith), (inl refl, tt)) refl first_page_is
        (page after_colour after_colour (226 ∷ 130 ∷ 172 ∷ 120 ∷ []) [] [] 4 100
          ((226 ∷ 130 ∷ 172 ∷ 120 ∷ []) ∷ []) second_page (inl refl, tt) refl second_page_is
          (here after_colour [])))

page_ends_example : (true ≡ true) ⊎ (length (flatten chunks) ≤ 10)
page_ends_example =
    page_ends high_only limits high_only-high chunks (some fresh) first_page
      (inr (omega arith), (inl refl, tt)) first_page_is

page_safe_example :
    All (λ byte. byte ≢ 27) first_page.output × (2 ≤ 4) × (8 ≤ 100) × ShortState after_colour
page_safe_example =
    page_safe high_only limits high_only-high chunks (some fresh) first_page refl first_page_is

-- The first byte of € alone in a chunk: the walk over it leaves the next chunk before its end, whose
-- `x` is neither shown nor counted, and of the four bytes two are consumed.
short_chunk_lost :
    present_log_chunks high_only limits ((226 ∷ []) ∷ (130 ∷ 172 ∷ 120 ∷ []) ∷ []) (some fresh)
    ≡ some (record {
      parser = fresh;
      output = 226 ∷ 130 ∷ 172 ∷ [];
      consumed = 2;
      scanned = 3;
      truncated = false;
      place = record { len = 0; rest = []; later = [] };
    })
unfolding present_log_chunks rounds round text_byte code_point skip utf8_width copy_state high_only
short_chunk_lost = refl

abbrev tail_limits : PresentLogTailOptions
tail_limits = record {
  max_bytes = 5;
  max_lines = 1;
  stderr_prefix_complete = true;
  stdout_prefix_complete = false;
}

tail_is :
    present_log_tail high_only
      (λ bytes. true)
      ((97 ∷ 10 ∷ 7 ∷ 98 ∷ 10 ∷ []) ∷ [])
      ((99 ∷ []) ∷ [])
      tail_limits
    ≡ some (98 ∷ 10 ∷ [])
unfolding present_log_tail present_stream present_log_chunks rounds round text_byte utf8_width
    copy_state remove_residual_controls is_residual trailing_lines walk_back utf8_suffix first_utf8
tail_is = refl

tail_safe_example : (2 ≤ 5) × All Printable (98 ∷ 10 ∷ [])
tail_safe_example =
    tail_safe high_only (λ bytes. true) ((97 ∷ 10 ∷ 7 ∷ 98 ∷ 10 ∷ []) ∷ []) ((99 ∷ []) ∷ [])
      tail_limits (98 ∷ 10 ∷ []) tail_is
