-- ===== src/Tasks/Codec.antt =====
-- Texts of a task result as one text and back, for the examples: a mark before each character, and
-- two marks after each text. It stands where the source calls `JSON.stringify` and `JSON.parse`.
use discordagent.Base.{
  String, Bool, ◌≡◌, refl, Option, none, some, List, [], ◌∷◌, nat_beq, if◌then◌else◌,
}
use Prim.Native.Char.{Char, code}

abbrev is_mark : Char → Bool
is_mark c = nat_beq (code c) b'e'

abbrev pub write_text : String → String → String
write_text String.[] rest = String.◌∷◌ "e" (String.◌∷◌ "e" rest)
write_text (String.◌∷◌ c s) rest = String.◌∷◌ "c" (String.◌∷◌ c (write_text s rest))

unfoldable pub write_texts : List String → String
write_texts [] = ""
write_texts (s ∷ l) = write_text s (write_texts l)

abbrev put_text : Option (List String) → Option (List String)
put_text none = none
put_text (some l) = some ("" ∷ l)

abbrev put_char : Char → Option (List String) → Option (List String)
put_char c none = none
put_char c (some []) = none
put_char c (some (s ∷ l)) = some (String.◌∷◌ c s ∷ l)

unfoldable pub read_texts : String → Option (List String)
read_texts String.[] = some []
read_texts (String.◌∷◌ m String.[]) = none
read_texts (String.◌∷◌ m (String.◌∷◌ c s)) =
    let rest = read_texts s in if is_mark m then put_text rest else put_char c rest

read_texts-write_text :
    (s rest : String) (l : List String)
    → read_texts rest ≡ some l
    → read_texts (write_text s rest) ≡ some (s ∷ l)
unfolding read_texts
read_texts-write_text String.[] rest l e = rw e refl
read_texts-write_text (String.◌∷◌ c s) rest l e = rw (read_texts-write_text s rest l e) refl

pub read_texts-write_texts : (l : List String) → read_texts (write_texts l) ≡ some l
unfolding read_texts write_texts
read_texts-write_texts [] = refl
read_texts-write_texts (s ∷ l) =
    read_texts-write_text s (write_texts l) l (read_texts-write_texts l)
