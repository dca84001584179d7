-- ===== src/Scenarios/Codec.antt =====
-- A text for a list of texts, in place of JSON: `+` before each character and `-` after each text.
use Prim.Native.Char.{Char, code}
use Prim.Native.String.{String}
use wanax.Prelude.{◌≡◌, refl, ap, ◌∙◌, List, [], ◌∷◌, ◌==◌, if◌then◌else◌, inr}
use wanax.Core.Store.Rows.{Json, IsJson}

unfoldable pub write_text : String → String → String
write_text String.[] rest = String.◌∷◌ "-" rest
write_text (String.◌∷◌ c s) rest = String.◌∷◌ "+" (String.◌∷◌ c (write_text s rest))

unfoldable pub write_all : List String → String
unfolding write_text
write_all [] = ""
write_all (s ∷ ss) = write_text s (write_all ss)

unfoldable pub push_char : Char → List String → List String
push_char c [] = []
push_char c (s ∷ ss) = String.◌∷◌ c s ∷ ss

unfoldable pub read_all : String → List String
unfolding push_char
read_all String.[] = []
read_all (String.◌∷◌ mark String.[]) = "" ∷ []
read_all (String.◌∷◌ mark (String.◌∷◌ c s)) =
    let read_on = push_char c (read_all s) in
    let ended = "" ∷ read_all (String.◌∷◌ c s) in if code mark == 43 then read_on else ended

read_all-end : (s : String) → read_all (String.◌∷◌ "-" s) ≡ "" ∷ read_all s
unfolding read_all
read_all-end String.[] = refl
read_all-end (String.◌∷◌ c s) = refl

read_all-write_text : (s rest : String) → read_all (write_text s rest) ≡ s ∷ read_all rest
unfolding write_text read_all push_char
read_all-write_text String.[] rest = read_all-end rest
read_all-write_text (String.◌∷◌ c s) rest = ap (push_char c) (read_all-write_text s rest)

read_all-write_all : (ss : List String) → read_all (write_all ss) ≡ ss
unfolding write_all read_all
read_all-write_all [] = refl
read_all-write_all (s ∷ ss) =
    read_all-write_text s (write_all ss) ∙ ap (λ l. s ∷ l) (read_all-write_all ss)

abbrev pub codec : Json
codec = record { write = λ ss. write_all ss; read = λ s. inr (read_all s) }

pub codec-IsJson : IsJson codec
codec-IsJson = λ ss. ap inr (read_all-write_all ss)
