-- ===== src/LogPresentation/Clean.antt =====
-- packages/executor/src/log-presentation.ts: what should be shown of a log, byte after byte and
-- without budgets, and the bytes that are left at a place.
use remote_build_orchestrato.Common.{
  ℕ, zero, suc, ◌+◌, ◌-◌, ◌≤◌, ◌<◌, ◌≡◌, refl, sym, ap, ◌∙◌, ◌⊎◌, inl, inr, Bool, true, false, ◌&&◌,
  not, List, [], ◌∷◌, ◌++◌, drop, drop-append_left, leb, leb→le, Bool-cases, ◌==◌, if◌then◌else◌,
  arith, length, length-append,
}
use remote_build_orchestrato.LogCursor.{PresentationState, escape}
use remote_build_orchestrato.LogPresentation.{Bytes, Place, reads_text, control_step, flatten, skip}

abbrev pub as_text : Bool → PresentationState → ℕ → Bool × PresentationState
as_text strip p byte =
    if strip && byte == 27
    then (false, record p { mode = escape; control_length = 1 })
    else (true, p)

-- Whether a byte is shown, and the state after it.
unfoldable pub shown : Bool → PresentationState → ℕ → Bool × PresentationState
shown strip p byte =
    let (takes, q) = control_step p byte in
    if reads_text strip p
    then as_text strip p byte
    else if takes
    then (false, q)
    else as_text strip q byte

unfoldable pub clean : Bool → PresentationState → Bytes → Bytes
clean strip p [] = []
clean strip p (byte ∷ bytes) =
    let (shows, q) = shown strip p byte in
    let tail = clean strip q bytes in if shows then byte ∷ tail else tail

abbrev pub left : Place → Bytes
left p = p.rest ++ flatten p.later

-- Every chunk but the last has the three bytes that a code point may leave to it.
abbrev pub Wide : List Bytes → Type 0
Wide [] = Unit
Wide (c ∷ cs) = ((cs ≡ []) ⊎ (3 ≤ length c)) × Wide cs

abbrev pub Good : Place → Type 0
Good p = Wide p.later × ((p.rest ≡ []) ⊎ ((p.later ≡ []) ⊎ (3 ≤ p.len)))

drop_one : (w : ℕ) (bytes : Bytes) → drop w (drop 1 bytes) ≡ drop (suc w) bytes
drop_one zero [] = refl
drop_one (suc w) [] = refl
drop_one w (b ∷ bytes) = refl

drop-nil : (n : ℕ) → drop {A = ℕ} n [] ≡ []
drop-nil zero = refl
drop-nil (suc n) = refl

pub drop-drop : (n w : ℕ) (bytes : Bytes) → drop n (drop w bytes) ≡ drop (w + n) bytes
drop-drop n zero bytes = let same : n ≡ 0 + n = omega arith in ap (λ k. drop k bytes) same
drop-drop n (suc w) [] = drop-nil n ∙ sym (drop-nil (suc w + n))
drop-drop n (suc w) (b ∷ bytes) =
    let later : suc (w + n) ≡ suc w + n = omega arith in
    drop-drop n w bytes ∙ ap (λ k. drop k (b ∷ bytes)) later

drop-append : (w k : ℕ) (a b : Bytes) → w ≡ length a + k → drop w (a ++ b) ≡ drop k b
drop-append w k [] b h = ap (λ n. drop n b) (omega arith)
drop-append zero k (x ∷ a) b h = absurd (omega arith)
drop-append (suc w) k (x ∷ a) b h = drop-append w k a b (omega arith)

-- The walk stays in the chunk as long as there is room.
skip-within :
    (len room w l : ℕ) (rest : Bytes) (later : List Bytes)
    → w ≤ room
    → skip len room w (record { len = l; rest = rest; later = later })
      ≡ (w, record { len = l; rest = drop w rest; later = later })
unfolding skip
skip-within len room zero l rest later h = refl
skip-within len room (suc w) l rest later h =
    let stays : (leb room 1 && not (w == 0)) ≡ false = ground arith in
    rw (stays, skip-within len (room - 1) w l (drop 1 rest) later (omega arith), drop_one w rest)
      refl

-- A walk that goes on in the next chunk.
skip-across :
    (len w k l : ℕ) (rest c : Bytes) (cs : List Bytes)
    → 1 ≤ length rest
    → w ≡ length rest + k
    → 1 ≤ k
    → k ≤ len
    → skip len (length rest) w (record { len = l; rest = rest; later = c ∷ cs })
      ≡ (w, record { len = length c; rest = drop k c; later = cs })
unfolding skip
skip-across len w k l [] c cs h e m n = absurd (omega arith)
skip-across len zero k l (b ∷ rest) c cs h e m n = absurd (omega arith)
skip-across len (suc w) k l (b ∷ []) c cs h e m n =
    let moves : (leb 1 1 && not (w == 0)) ≡ true = ground arith in
    rw (moves, skip-within len len w (length c) c cs (omega arith))
      (ap (λ x. (suc w, record { len = length c; rest = drop x c; later = cs })) (omega arith))
skip-across len (suc w) k l (b ∷ d ∷ rest) c cs h e m n =
    let stays : (leb (suc (suc (length rest))) 1 && not (w == 0)) ≡ false = ground arith in
    let on = skip-across len w k l (d ∷ rest) c cs (omega arith) (omega arith) m n in
    let room : suc (suc (length rest)) - 1 ≡ suc (length rest) = omega arith in
    rw (stays, room, on) refl

short-chunk :
    (k w : ℕ) (rest c : Bytes) (cs : List Bytes)
    → w ≡ length rest + k
    → k ≤ 3
    → w ≤ length (rest ++ (c ++ flatten cs))
    → (cs ≡ []) ⊎ (3 ≤ length c)
    → k ≤ length c
short-chunk k w rest c cs e h within (inr wide) = omega arith
short-chunk k w rest c cs e h within (inl last) =
    let whole : w ≤ length (rest ++ (c ++ [])) = rw last at within in
    omega (arith, length-append rest (c ++ []), length-append c [])

-- What a walk over `w` bytes comes to.
abbrev pub Walks : ℕ → Place → Type 0
Walks w p =
    (q : Place) × (skip p.len (length p.rest) w p ≡ (w, q))
    × (left q ≡ drop w (left p))
    × (length q.later ≤ length p.later)
    × Good q

walk-inside :
    (w l : ℕ) (rest : Bytes) (later : List Bytes)
    → let p : Place = record { len = l; rest = rest; later = later } in
      Good p → 1 ≤ length rest → w ≤ length rest → Walks w p
walk-inside w l rest later (wide, place) h inside = (
  record { len = l; rest = drop w rest; later = later },
  skip-within l (length rest) w l rest later inside,
  sym (drop-append_left w rest (flatten later) inside),
  omega arith,
  (wide, elim place [ inl none_left ↦ absurd (ground (arith, none_left)) | inr other ↦ inr other ]),
)

walk-across :
    (w k l : ℕ) (rest c : Bytes) (cs : List Bytes)
    → let p : Place = record { len = l; rest = rest; later = c ∷ cs } in
      Good p
      → 1 ≤ length rest
      → w ≡ length rest + k
      → 1 ≤ k
      → k ≤ 3
      → w ≤ length (left p)
      → Walks w p
walk-across w k l rest c cs ((chunk, wide), inl none_left) h e more few within =
    absurd (ground (arith, none_left))
walk-across w k l rest c cs ((chunk, wide), inr (inl last)) h e more few within =
    absurd (ground (arith, last))
walk-across w k l rest c cs ((chunk, wide), inr (inr long)) h e more few within = (
  record { len = length c; rest = drop k c; later = cs },
  skip-across l w k l rest c cs h e more (omega arith),
  sym (
      drop-append w k rest (c ++ flatten cs) e
      ∙ drop-append_left k c (flatten cs) (short-chunk k w rest c cs e few within chunk)),
  omega arith,
  (wide, elim chunk [ inl last ↦ inr (inl last) | inr three ↦ inr (inr three) ]),
)

-- A code point that is there whole is walked over byte by byte.
pub skip-Walks :
    (w l : ℕ) (rest : Bytes) (later : List Bytes)
    → let p : Place = record { len = l; rest = rest; later = later } in
      Good p → 1 ≤ length rest → w ≤ 4 → w ≤ length (left p) → Walks w p
skip-Walks w l rest later good h four within = elim (Bool-cases (leb w (length rest))) [
  | inl inside ↦ walk-inside w l rest later good h (leb→le w (length rest) inside)
  | inr outside ↦ beyond w l rest later good h four within (ground arith)
]
  where
    beyond :
        (w l : ℕ) (rest : Bytes) (later : List Bytes)
        → let p : Place = record { len = l; rest = rest; later = later } in
          Good p → 1 ≤ length rest → w ≤ 4 → w ≤ length (left p) → length rest < w → Walks w p
    beyond w l rest [] good h four within far = absurd (omega (arith, length-append rest []))
    beyond w l rest (c ∷ cs) good h four within far =
        walk-across w (w - length rest) l rest c cs good h (omega arith) (omega arith) (omega arith)
          within
