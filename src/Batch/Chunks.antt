-- ===== src/Batch/Chunks.antt =====
-- `iter_in_chunks` (core/batch/chunked.py): the chunks and their sizes.
use mathlib.Core.List.{append_assoc}
use high_performance_e_comme.Common.{
  ℕ, ◌≤◌, ◌<◌, ◌≡◌, refl, ap, ◌∙◌, inl, inr, List, [], ◌∷◌, ◌++◌, arith, leb, length, length-append,
  All, Bool-cases,
}
use high_performance_e_comme.Batch.{chunks_from, iter_in_chunks}

module _ {A : Type 0} where
  abbrev pub concat : List (List A) → List A
  concat [] = []
  concat (xs ∷ xss) = xs ++ concat xss

  -- A chunk as it is yielded.
  abbrev pub FitsSize : ℕ → List A → Type 0
  FitsSize size chunk = (0 < length chunk) × (length chunk ≤ size)

  concat-chunks_from :
      (size : ℕ) (chunk rows : List A) → concat (chunks_from size chunk rows) ≡ chunk ++ rows
  unfolding chunks_from
  concat-chunks_from size [] [] = refl
  concat-chunks_from size (x ∷ chunk) [] = refl
  concat-chunks_from size chunk (row ∷ rows) =
      elim (Bool-cases (leb size (length (chunk ++ row ∷ [])))) [
        | inl full ↦
            rw (full, chunks_from)
              (ap (λ (r : List A). (chunk ++ row ∷ []) ++ r) (concat-chunks_from size [] rows)
                ∙ append_assoc chunk (row ∷ []) rows)
        | inr more ↦
            rw (more, chunks_from)
              (concat-chunks_from size (chunk ++ row ∷ []) rows
                ∙ append_assoc chunk (row ∷ []) rows)
      ]

  chunks_from-FitsSize :
      (size : ℕ) (chunk rows : List A)
      → length chunk < size
      → All (FitsSize size) (chunks_from size chunk rows)
  unfolding chunks_from
  chunks_from-FitsSize size [] [] h = tt
  chunks_from-FitsSize size (x ∷ chunk) [] h = ground arith
  chunks_from-FitsSize size chunk (row ∷ rows) h =
      let grown = length-append chunk (row ∷ []) in
      elim (Bool-cases (leb size (length (chunk ++ row ∷ [])))) [
        | inl full ↦
            rw (full, chunks_from)
              ((omega arith, omega arith), chunks_from-FitsSize size [] rows (omega arith))
        | inr more ↦
            rw (more, chunks_from)
              (chunks_from-FitsSize size (chunk ++ row ∷ []) rows (ground arith))
      ]

  -- For a positive size the chunks of a queryset, one after another, are its rows, and every chunk has
  -- a row and at most that many rows.
  pub iter_in_chunks-partitions :
      (size : ℕ) (rows : List A)
      → 0 < size
      → (concat (iter_in_chunks size rows) ≡ rows) × All (FitsSize size) (iter_in_chunks size rows)
  unfolding iter_in_chunks
  iter_in_chunks-partitions size rows h =
      (concat-chunks_from size [] rows, chunks_from-FitsSize size [] rows h)
