-- ===== src/Chunker/Tests.antt =====
-- Examples for the chunker, and its theorem applied to one.
use discordagent.Base.{ℕ, zero, suc, ◌≤◌, ◌≡◌, refl, some, List, [], ◌∷◌, ◌++◌, length, All}
use discordagent.Chunker.{max_length, last_index_of, chunk_text}
use discordagent.Chunker.Bounds.{AreCutsOf, chunk_text_returns}

-- A text of one repeated unit.
abbrev repeated : ℕ → ℕ → List ℕ
repeated zero c = []
repeated (suc n) c = c ∷ repeated n c

short : chunk_text (repeated 3 97) ≡ some (repeated 3 97 ∷ [])
unfolding chunk_text max_length
short = refl

last_newline : last_index_of (97 ∷ 10 ∷ 97 ∷ 10 ∷ 97 ∷ []) 10 2 ≡ some 1
unfolding last_index_of
last_newline = refl

abbrev two_lines : List ℕ
two_lines = repeated 1200 97 ++ 10 ∷ repeated 1000 98

chunk_text_returns_example :
    (chunks : List (List ℕ)) × (chunk_text two_lines ≡ some chunks)
    × All (λ chunk. length chunk ≤ max_length) chunks
    × AreCutsOf two_lines chunks
chunk_text_returns_example = chunk_text_returns two_lines
