-- ===== src/Usage/Classify.antt =====
-- services/usageAdmission.ts: the class of a prompt, and the estimates.
use discordagent.Base.{
  ℕ, zero, suc, ◌-◌, ◌*◌, ◌/◌, String, Bool, true, false, not, ◌&&◌, ◌||◌, Option, none, some, List,
  [], ◌∷◌, length, leb, nat_beq, if◌then◌else◌, ◌==◌,
}
use Prim.Native.Char.{Char, code}
use discordagent.Dict.{is_some}
use discordagent.ServiceAuth.Header.{after}

-- A text with a given text in it.
unfoldable pub contains : String → String → Bool
contains needle String.[] = is_some (after needle String.[])
contains needle (String.◌∷◌ c s) = is_some (after needle (String.◌∷◌ c s)) || contains needle s

-- `\w`.
abbrev is_word : Char → Bool
is_word c =
    (leb 48 (code c) && leb (code c) 57)
    || (leb 65 (code c) && leb (code c) 90)
    || nat_beq (code c) 95
    || (leb 97 (code c) && leb (code c) 122)

abbrev ends_word : Option String → Bool
ends_word none = false
ends_word (some String.[]) = true
ends_word (some (String.◌∷◌ c s)) = not (is_word c)

-- `\bword\b`, after a word character or not.
unfoldable pub contains_word : Bool → String → String → Bool
contains_word inside needle String.[] = false
contains_word inside needle (String.◌∷◌ c s) =
    (not inside && ends_word (after needle (String.◌∷◌ c s))) || contains_word (is_word c) needle s

-- The tests of `classify` on the prompt in lower case, one after the other.
unfoldable pub classify_normalized : String → String
classify_normalized t =
    if contains "refactor" t || contains "repository-wide" t || contains "rewrite" t
    then "refactor"
    else if contains "review" t || contains "pull request" t || contains_word false "pr" t
    then "review"
    else if contains "investigate" t
        || contains "research" t
        || contains "analyse" t
        || contains "analyze" t
    then "research"
    else if contains "fix" t || contains "bug" t || contains "error" t
    then "small_fix"
    else if contains "architecture" t || contains "across" t || contains "multiple packages" t
    then "cross_cutting_feature"
    else if contains "implement" t || contains "add" t || contains "build" t
    then "contained_feature"
    else "conversation"

-- `DEFAULT_ESTIMATES`, in percent; the others are those of a contained feature.
unfoldable pub default_estimate : String → ℕ × ℕ
default_estimate cls =
    if cls == "conversation"
    then (1, 2)
    else if cls == "orientation"
    then (2, 4)
    else if cls == "review"
    then (3, 7)
    else if cls == "small_fix"
    then (4, 9)
    else if cls == "contained_feature"
    then (6, 14)
    else if cls == "cross_cutting_feature"
    then (12, 25)
    else if cls == "refactor"
    then (18, 40)
    else if cls == "research"
    then (4, 12)
    else (6, 14)

unfoldable pub insert_cost : ℕ → List ℕ → List ℕ
insert_cost n [] = n ∷ []
insert_cost n (x ∷ xs) = let rest = insert_cost n xs in if leb n x then n ∷ x ∷ xs else x ∷ rest

unfoldable pub sort_costs : List ℕ → List ℕ
unfolding insert_cost
sort_costs [] = []
sort_costs (n ∷ ns) = insert_cost n (sort_costs ns)

abbrev pub nth : ℕ → List ℕ → ℕ
nth n [] = 0
nth zero (x ∷ xs) = x
nth (suc n) (x ∷ xs) = nth n xs

-- The quantile is a fraction at most 1, so the index is within the list.
unfoldable pub percentile : List ℕ → ℕ → ℕ → ℕ
percentile values numerator denominator =
    nth ((length values - 1) * numerator / denominator) (sort_costs values)
