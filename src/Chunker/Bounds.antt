-- ===== src/Chunker/Bounds.antt =====
-- utils/chunker.ts: the loop ends, its chunks are short enough, and the text can be put together again.
use discordagent.Base.{
  ℕ, zero, suc, ◌≤◌, ◌<◌, ◌≡◌, refl, subst, true, false, Option, none, some, List, [], ◌∷◌, ◌++◌,
  length, leb, nat_beq, All, take, drop, take-append_drop, length-take, length-drop,
  length-take_pos, arith, Bool-cases, inl, inr,
}
use discordagent.Chunker.{
  max_length, newline, space, last_index_of, positive_or, split_at, without_newline, chunk_loop,
  chunk_text, push,
}

max_length_pos : 0 < max_length
unfolding max_length
max_length_pos = omega arith

-- An index that is found is at most the one that the search starts from.
last_index_of-le : (s : List ℕ) (c from i : ℕ) → last_index_of s c from ≡ some i → i ≤ from
unfolding last_index_of
last_index_of-le [] c from i e = absurd (ground arith)
last_index_of-le (x ∷ s) c zero i e = ground arith
last_index_of-le (x ∷ s) c (suc from) zero e = omega arith
last_index_of-le (x ∷ s) c (suc from) (suc i) e = ground (arith, last_index_of-le s c from i)

positive_or_bounds :
    (o : Option ℕ) (d m : ℕ)
    → ((i : ℕ) → o ≡ some i → i ≤ m)
    → (0 < d) × (d ≤ m)
    → (0 < positive_or o d) × (positive_or o d ≤ m)
positive_or_bounds none d m h k = k
positive_or_bounds (some zero) d m h k = k
positive_or_bounds (some (suc i)) d m h k = (omega arith, h (suc i) refl)

split_at_bounds : (s : List ℕ) → (0 < split_at s) × (split_at s ≤ max_length)
unfolding split_at
split_at_bounds s = positive_or_bounds _ _ max_length (last_index_of-le s newline max_length) (
    positive_or_bounds _ _ max_length (last_index_of-le s space max_length)
      (max_length_pos, omega arith))

length-without_newline : (s : List ℕ) → length (without_newline s) ≤ length s
unfolding without_newline
length-without_newline [] = omega arith
length-without_newline (c ∷ s) = ground arith

-- The text that is left after a round is shorter.
rest_shorter :
    (c : ℕ) (s : List ℕ)
    → length (without_newline (drop (split_at (c ∷ s)) (c ∷ s))) < suc (length s)
rest_shorter c s =
    let n : ℕ = split_at (c ∷ s) in
    let positive = (split_at_bounds (c ∷ s)).0 in
    ground (arith, positive, length-without_newline (drop n (c ∷ s)), length-drop n (c ∷ s))

-- A list of chunks of a text: each is a piece of it, in order, and nothing is left out between two
-- pieces but a newline.
pub data AreCutsOf : List ℕ → List (List ℕ) → Type 0 where
  none_left : AreCutsOf [] []
  last : (s : List ℕ) → AreCutsOf s (s ∷ [])
  cut :
      {rest : List ℕ} {chunks : List (List ℕ)} (chunk : List ℕ)
      → AreCutsOf rest chunks
      → AreCutsOf (chunk ++ rest) (chunk ∷ chunks)
  cut_at_newline :
      {rest : List ℕ} {chunks : List (List ℕ)} (chunk : List ℕ)
      → AreCutsOf rest chunks
      → AreCutsOf (chunk ++ newline ∷ rest) (chunk ∷ chunks)

without_newline-cut :
    (chunk s : List ℕ) (chunks : List (List ℕ))
    → AreCutsOf (without_newline s) chunks
    → AreCutsOf (chunk ++ s) (chunk ∷ chunks)
unfolding without_newline
without_newline-cut chunk [] chunks h = cut chunk h
without_newline-cut chunk (c ∷ s) chunks h = elim (Bool-cases (nat_beq c newline)) [
  | inl is_newline ↦
      let tail : AreCutsOf s chunks = subst (λ l. AreCutsOf l chunks) (ground arith) h in
      let same : newline ≡ c = ground arith in
      subst (λ x. AreCutsOf (chunk ++ x ∷ s) (chunk ∷ chunks)) same (cut_at_newline chunk tail)
  | inr other ↦ cut chunk (subst (λ l. AreCutsOf l chunks) (ground arith) h)
]

-- Every chunk has a unit and is within the bound.
abbrev pub IsShort : List ℕ → Type 0
IsShort chunk = (0 < length chunk) × (length chunk ≤ max_length)

record IsChunked (s : List ℕ) (r : Option (List (List ℕ))) : Type 0 where
  pub chunks : List (List ℕ)
  pub returned : r ≡ some chunks
  pub short : All IsShort chunks
  pub cuts : AreCutsOf s chunks

All-short : (l : List (List ℕ)) → All IsShort l → All (λ chunk. length chunk ≤ max_length) l
All-short [] h = tt
All-short (x ∷ l) h = (h.0.1, All-short l h.1)

-- A round: the piece in front, and the chunks of what is left.
round :
    (c : ℕ) (s : List ℕ) (r : Option (List (List ℕ)))
    → IsChunked (without_newline (drop (split_at (c ∷ s)) (c ∷ s))) r
    → IsChunked (c ∷ s) (push (take (split_at (c ∷ s)) (c ∷ s)) r)
round c s r k =
    let n : ℕ = split_at (c ∷ s) in
    let (positive, bounded) = split_at_bounds (c ∷ s) in
    record {
      chunks = take n (c ∷ s) ∷ k.chunks;
      returned = ground (arith, k.returned);
      short = ((length-take_pos n c s positive, ground (arith, length-take n (c ∷ s))), k.short);
      cuts =
          subst (λ l. AreCutsOf l (take n (c ∷ s) ∷ k.chunks)) (take-append_drop n (c ∷ s))
            (without_newline-cut (take n (c ∷ s)) (drop n (c ∷ s)) k.chunks k.cuts);
    }

chunk_loop_last :
    (fuel c : ℕ) (s : List ℕ)
    → leb (length (c ∷ s)) max_length ≡ true
    → chunk_loop (suc fuel) (c ∷ s) ≡ some ((c ∷ s) ∷ [])
unfolding chunk_loop
chunk_loop_last fuel c s fits = rw (fits, chunk_loop) refl

chunk_loop_more :
    (fuel c : ℕ) (s : List ℕ)
    → leb (length (c ∷ s)) max_length ≡ false
    → chunk_loop (suc fuel) (c ∷ s)
      ≡ push
          (take (split_at (c ∷ s)) (c ∷ s))
          (chunk_loop fuel (without_newline (drop (split_at (c ∷ s)) (c ∷ s))))
unfolding chunk_loop
chunk_loop_more fuel c s longer = rw (longer, chunk_loop) refl

chunk_loop-IsChunked : (fuel : ℕ) (s : List ℕ) → length s ≤ fuel → IsChunked s (chunk_loop fuel s)
unfolding chunk_loop
chunk_loop-IsChunked fuel [] h = record {
  chunks = [];
  returned = refl;
  short = tt;
  cuts = none_left;
}
chunk_loop-IsChunked zero (c ∷ s) h = absurd (omega (arith, h))
chunk_loop-IsChunked (suc fuel) (c ∷ s) h = elim (Bool-cases (leb (length (c ∷ s)) max_length)) [
  | inl fits ↦ rw (chunk_loop_last fuel c s fits) (record {
    chunks = (c ∷ s) ∷ [];
    returned = refl;
    short = ((omega arith, ground arith), tt);
    cuts = last (c ∷ s);
  })
  | inr longer ↦ rw (chunk_loop_more fuel c s longer) (
      round c s _ (
        chunk_loop-IsChunked fuel (without_newline (drop (split_at (c ∷ s)) (c ∷ s)))
          (ground (arith, rest_shorter c s, h))))
]

-- Every text is cut into a list of chunks, after as many rounds at most as it has code units. The
-- chunks are pieces of the text in order, no chunk is longer than 1800, and what is left out between
-- two chunks is a newline at most.
pub chunk_text_returns :
    (text : List ℕ)
    → (chunks : List (List ℕ)) × (chunk_text text ≡ some chunks)
      × All (λ chunk. length chunk ≤ max_length) chunks
      × AreCutsOf text chunks
unfolding chunk_text
chunk_text_returns text = elim (Bool-cases (leb (length text) max_length)) [
  | inl fits ↦ rw (fits, chunk_text) (text ∷ [], refl, (ground arith, tt), last text)
  | inr longer ↦
      let k = chunk_loop-IsChunked (length text) text (omega arith) in
      rw (longer, chunk_text) (k.chunks, k.returned, All-short k.chunks k.short, k.cuts)
]
