-- ===== src/Hash/Tests.antt =====
-- Tests of the hasher, and the theorem about it at a concrete input.
use tuletorn.Common.{refl, [], ◌≡◌, List, ◌∷◌, map, All}
use tuletorn.Common.Bytes.{Bytes, codes}
use tuletorn.Hash.{seed, from_ne_bytes, write, write_u8, write_u64, write_usize}
use tuletorn.Hash.Words.{IsChunk, joined, fold_words, write-words}

write-words_example :
    (parts : List Bytes) × All IsChunk parts
    × (joined parts ≡ codes "api.example.com")
    × (write seed (codes "api.example.com") ≡ fold_words seed (15 ∷ map from_ne_bytes parts))
write-words_example = write-words seed (codes "api.example.com")

-- A number and its bytes fold to the same, after the length that `write` folds first.
words_agree :
    (write (write_u64 seed 1) (7 ∷ []) ≡ write_u8 (write_usize (write_u64 seed 1) 1) 7)
    × (write seed (2 ∷ 1 ∷ 0 ∷ 0 ∷ 0 ∷ 0 ∷ 0 ∷ 0 ∷ []) ≡ write_u64 (write_usize seed 8) 258)
unfolding write write_u8 write_u64 write_usize
words_agree = (refl, refl)
