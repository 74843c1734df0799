-- ===== src/Access/Command.antt =====
-- `_is_setup_command` of pytmbot/middleware/access_control.py, on texts of code points.
use pytmbot.Base.{
  ℕ, ◌≡◌, refl, Bool, true, false, ◌&&◌, Option, none, some, List, [], ◌∷◌, arith, if◌then◌else◌,
}
use pytmbot.Base.Text.{is_space, lower, text_eq}
use pytmbot.Base.Eq.{◌==◌, nat_eq}

unfoldable pub word : List ℕ → List ℕ
word [] = []
word (c ∷ text) = if is_space c then [] else c ∷ word text

-- `text.strip().split()[0]`; `none` is the `IndexError` of a text of white space alone.
unfoldable pub first_word : List ℕ → Option (List ℕ)
unfolding word
first_word [] = none
first_word (c ∷ text) = if is_space c then first_word text else some (c ∷ word text)

-- `command.split("@")[0]` if there is an `@`, else the whole.
unfoldable pub without_bot_name : List ℕ → List ℕ
without_bot_name [] = []
without_bot_name (c ∷ text) = if c == b'@' then [] else c ∷ without_bot_name text

abbrev pub getmyid : List ℕ
getmyid = b'/' ∷ b'g' ∷ b'e' ∷ b't' ∷ b'm' ∷ b'y' ∷ b'i' ∷ b'd' ∷ []

-- The answer of the test, or the exception.
pub data Tested : Type 0 where
  tested : Bool → Tested
  index_error : Tested

unfoldable pub is_setup_command : Option (List ℕ) → Tested
unfolding first_word without_bot_name lower
is_setup_command none = tested false
is_setup_command (some []) = tested false
is_setup_command (some (c ∷ text)) = elim (first_word (c ∷ text)) [
  | none ↦ index_error
  | some command ↦ tested (text_eq (without_bot_name (lower command)) getmyid)
]

-- A text that is not empty, of white space alone.
abbrev pub is_blank : List ℕ → Bool
is_blank [] = true
is_blank (c ∷ text) = is_space c && is_blank text

first_word-blank : (text : List ℕ) → is_blank text ≡ true → first_word text ≡ none
unfolding first_word
first_word-blank [] h = refl
first_word-blank (c ∷ text) h = ground (arith, first_word-blank text)

-- A text that is not empty, and white space alone, makes the test raise.
is_setup_command-blank :
    (c : ℕ) (text : List ℕ)
    → is_blank (c ∷ text) ≡ true
    → is_setup_command (some (c ∷ text)) ≡ index_error
unfolding is_setup_command
is_setup_command-blank c text h = ground (arith, first_word-blank (c ∷ text))
