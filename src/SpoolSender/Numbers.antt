-- ===== src/SpoolSender/Numbers.antt =====
-- apps/agent/src/logs/spool-sender.ts: which sequence numbers a list of chunks has.
use remote_build_orchestrato.Common.{ℕ, ◌≡◌, refl, ◌||◌, List, [], ◌∷◌, ◌++◌, arith}
use remote_build_orchestrato.Common.Sort.{sort, insert}
use remote_build_orchestrato.SpoolSender.{SpoolChunk, has, no_later}

pub has-append : (n : ℕ) (xs ys : List SpoolChunk) → has n (xs ++ ys) ≡ (has n xs || has n ys)
has-append n [] ys = refl
has-append n (x ∷ xs) ys = ground (arith, has-append n xs ys)

has-insert :
    (n : ℕ) (c : SpoolChunk) (xs : List SpoolChunk) → has n (insert no_later c xs) ≡ has n (c ∷ xs)
unfolding insert
has-insert n c [] = refl
has-insert n c (x ∷ xs) = ground (arith, has-insert n c xs)

pub has-sort : (n : ℕ) (xs : List SpoolChunk) → has n (sort no_later xs) ≡ has n xs
unfolding sort
has-sort n [] = refl
has-sort n (x ∷ xs) = ground (arith, has-insert n x (sort no_later xs), has-sort n xs)
