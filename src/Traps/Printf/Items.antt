-- ===== src/Traps/Printf/Items.antt =====
-- Formats as sequences of items.
use os_lab.Prelude.{ℕ, ◌+◌, ◌≢◌, List, [], ◌∷◌, ◌++◌}

-- A plain character, `%%`, or a conversion for a word or for a double.
pub data Item : Type 0 where
  literal : ℕ → Item
  percent_sign : Item
  char_item decimal hexadecimal : Item
  float_f float_g float_e long_float : Item

abbrev pub render : Item → List ℕ
render (literal c) = c ∷ []
render percent_sign = b'%' ∷ b'%' ∷ []
render char_item = b'%' ∷ b'c' ∷ []
render decimal = b'%' ∷ b'd' ∷ []
render hexadecimal = b'%' ∷ b'x' ∷ []
render float_f = b'%' ∷ b'f' ∷ []
render float_g = b'%' ∷ b'g' ∷ []
render float_e = b'%' ∷ b'e' ∷ []
render long_float = b'%' ∷ b'l' ∷ b'f' ∷ []

-- The words that an item takes.
abbrev pub words_of : Item → ℕ
words_of (literal c) = 0
words_of percent_sign = 0
words_of char_item = 1
words_of decimal = 1
words_of hexadecimal = 1
words_of float_f = 2
words_of float_g = 2
words_of float_e = 2
words_of long_float = 2

abbrev pub render_all : List Item → List ℕ
render_all [] = []
render_all (i ∷ is) = render i ++ render_all is

abbrev pub all_words : List Item → ℕ
all_words [] = 0
all_words (i ∷ is) = words_of i + all_words is

-- A literal is no percent sign and no NUL.
abbrev pub IsItem : Item → Type 0
IsItem (literal c) = (c ≢ b'%') × (c ≢ 0)
IsItem other = Unit {0}

abbrev pub AreItems : List Item → Type 0
AreItems [] = Unit {0}
AreItems (i ∷ is) = IsItem i × AreItems is
