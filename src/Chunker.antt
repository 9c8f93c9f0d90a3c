-- ===== src/Chunker.antt =====
-- utils/chunker.ts: a text is cut into messages. A text is the list of its UTF-16 code units, which is
-- what `length`, `lastIndexOf` and `slice` count.
pub mod Bounds
mod Tests
use discordagent.Base.{
  ℕ, zero, suc, ◌+◌, Bool, true, false, Option, none, some, List, [], ◌∷◌, length, leb, nat_beq,
  if◌then◌else◌,
}
use discordagent.Base.{take, drop}

unfoldable pub max_length : ℕ
max_length = 1800

abbrev pub newline : ℕ
newline = 10

abbrev pub space : ℕ
space = 32

abbrev later : Bool → Option ℕ → Option ℕ
later here (some i) = some (suc i)
later true none = some 0
later false none = none

-- `text.lastIndexOf(c, from)`; `none` is -1.
unfoldable pub last_index_of : List ℕ → ℕ → ℕ → Option ℕ
last_index_of [] c from = none
last_index_of (x ∷ xs) c zero = later (nat_beq x c) none
last_index_of (x ∷ xs) c (suc from) = later (nat_beq x c) (last_index_of xs c from)

-- An index that is at most 0 is replaced by a default.
abbrev pub positive_or : Option ℕ → ℕ → ℕ
positive_or none d = d
positive_or (some zero) d = d
positive_or (some (suc i)) d = suc i

unfoldable pub split_at : List ℕ → ℕ
split_at remaining =
    positive_or (last_index_of remaining newline max_length)
      (positive_or (last_index_of remaining space max_length) max_length)

-- `.replace(/^\n/, '')`.
unfoldable pub without_newline : List ℕ → List ℕ
without_newline [] = []
without_newline (c ∷ s) = if nat_beq c newline then s else c ∷ s

abbrev pub push : List ℕ → Option (List (List ℕ)) → Option (List (List ℕ))
push chunk none = none
push chunk (some chunks) = some (chunk ∷ chunks)

-- The loop, with a bound on its rounds; `none` means that the rounds ran out.
unfoldable pub chunk_loop : ℕ → List ℕ → Option (List (List ℕ))
chunk_loop fuel [] = some []
chunk_loop zero (c ∷ s) = none
chunk_loop (suc fuel) (c ∷ s) = elim (leb (length (c ∷ s)) max_length) [
  | true ↦ some ((c ∷ s) ∷ [])
  | false ↦
      push (take (split_at (c ∷ s)) (c ∷ s))
        (chunk_loop fuel (without_newline (drop (split_at (c ∷ s)) (c ∷ s))))
]

unfoldable pub chunk_text : List ℕ → Option (List (List ℕ))
chunk_text text =
    if leb (length text) max_length then some (text ∷ []) else chunk_loop (length text) text
