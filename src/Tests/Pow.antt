-- ===== src/Tests/Pow.antt =====
-- The proof-of-work hash over a toy hash.
use equiforge.Prelude.{◌≡◌, refl, [], ◌∷◌, length}
use equiforge.Pow.{mix_rounds, prepare, read_chunk, read_index, rotate_left}
use equiforge.Pow.Laws.{IsSound, mix_rounds_bounds}
use equiforge.Tests.Toy.{checksum}

rotated : rotate_left 0x8000000000000001 4 ≡ 0x18
unfolding rotate_left
rotated = refl

mix_rounds_bounds_example :
    IsSound (mix_rounds checksum checksum 64 0 (prepare checksum checksum (7 ∷ [])))
    × (length (
          read_chunk
            (read_index 64
              (mix_rounds checksum checksum 64 0 (prepare checksum checksum (7 ∷ []))).0)
            (mix_rounds checksum checksum 64 0 (prepare checksum checksum (7 ∷ []))).1)
        ≡ 64)
mix_rounds_bounds_example = mix_rounds_bounds checksum checksum (7 ∷ []) 64 64 (λ message. refl)
