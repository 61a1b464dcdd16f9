-- ===== src/Ssh/Client/Words.antt =====
-- How a POSIX shell reads a word of single-quoted parts, escaped characters and plain characters, and
-- what it reads of the texts that internal/ssh/client.go quotes.
use mcp_execmesh.Base.{
  ◌≡◌, refl, ◌≢◌, ap, ℕ, Bool, true, false, ◌||◌, ◌&&◌, not, Option, none, some, [], ◌∷◌, ◌++◌,
  append_assoc, append-nil, ◌∙◌, ==_iff, Str, codes, is_space, replace_byte, ◌==◌, Bool-cases, inl,
  inr, arith, if◌then◌else◌,
}
use mcp_execmesh.Ssh.Client.{escape_quotes, change_dir}

pub data Mode : Type 0 where
  plain quoted escaped : Mode

pub data Move : Type 0 where
  stop : Move
  skip : Mode → Move
  keep : Mode → Move

-- The characters that end a word or mean something in it, outside quotes.
abbrev is_special : ℕ → Bool
is_special c =
    is_space c
    || (c == 34)
    || (c == 35)
    || (c == 36)
    || (c == 38)
    || (c == 40)
    || (c == 41)
    || (c == 42)
    || (c == 59)
    || (c == 60)
    || (c == 62)
    || (c == 63)
    || (c == 91)
    || (c == 96)
    || (c == 124)
    || (c == 126)

abbrev pub word_step : Mode → ℕ → Move
word_step quoted c = if c == 39 then skip plain else keep quoted
word_step escaped c = keep plain
word_step plain c =
    if c == 39
    then skip quoted
    else if c == 92
    then skip escaped
    else if is_special c
    then stop
    else keep plain

abbrev pub put : ℕ → Option (Str × Str) → Option (Str × Str)
put c none = none
put c (some (word, rest)) = some (c ∷ word, rest)

-- The word at the front of a text, and the rest; `none` is an open quote.
unfoldable pub read_word : Mode → Str → Option (Str × Str)
read_word plain [] = some ([], [])
read_word quoted [] = none
read_word escaped [] = some ([], [])
read_word m (c ∷ s) = elim (word_step m c) [
  | stop ↦ some ([], c ∷ s)
  | skip n ↦ read_word n s
  | keep n ↦ put c (read_word n s)
]

abbrev pub puts : Str → Option (Str × Str) → Option (Str × Str)
puts [] r = r
puts (c ∷ s) r = put c (puts s r)

pub puts-some : (s word rest : Str) → puts s (some (word, rest)) ≡ some (s ++ word, rest)
puts-some [] word rest = refl
puts-some (c ∷ s) word rest = ap (put c) (puts-some s word rest)

-- No byte of the text is b.
unfoldable pub has_no : ℕ → Str → Bool
has_no b [] = true
has_no b (c ∷ s) = not (c == b) && has_no b s

step_quoted :
    (c : ℕ) (s : Str) → (c == 39) ≡ false → read_word quoted (c ∷ s) ≡ put c (read_word quoted s)
unfolding read_word
step_quoted c s other = ground (arith, other)

escaped_quote : (s : Str) → read_word quoted (codes "'\\''" ++ s) ≡ put 39 (read_word quoted s)
unfolding read_word
escaped_quote s = refl

-- A text with its quotes escaped is read as the text itself.
pub read_word-escape_quotes :
    (v rest : Str) → read_word quoted (escape_quotes v ++ rest) ≡ puts v (read_word quoted rest)
unfolding escape_quotes replace_byte
read_word-escape_quotes [] rest = refl
read_word-escape_quotes (c ∷ v) rest = elim (Bool-cases (c == 39)) [
  | inl quote ↦
      rw ((==_iff c 39).0 quote)
        (escaped_quote (escape_quotes v ++ rest) ∙ ap (put 39) (read_word-escape_quotes v rest))
  | inr other ↦
      rw other (
        step_quoted c (escape_quotes v ++ rest) other ∙ ap (put c) (read_word-escape_quotes v rest))
]

-- A blank behind the closing quote ends the word.
pub closed :
    (v rest : Str) → puts v (read_word quoted (codes "' " ++ rest)) ≡ some (v, codes " " ++ rest)
unfolding read_word
closed v rest =
    puts-some v [] (codes " " ++ rest) ∙ ap (λ w. some (w, codes " " ++ rest)) (append-nil v)

-- The `cd` of a command names exactly the directory, whatever its characters.
pub change_dir-word :
    (cwd rest : Str)
    → cwd ≢ []
    → (tail : Str) × (change_dir cwd ++ rest ≡ codes "cd " ++ tail)
      × (read_word plain tail ≡ some (cwd, codes " && " ++ rest))
unfolding change_dir read_word
change_dir-word [] rest h = absurd (h refl)
change_dir-word (c ∷ cwd) rest h = (
  codes "'" ++ (escape_quotes (c ∷ cwd) ++ (codes "' && " ++ rest)),
  ap (λ s. codes "cd '" ++ s) (append_assoc (escape_quotes (c ∷ cwd)) (codes "' && ") rest),
  read_word-escape_quotes (c ∷ cwd) (codes "' && " ++ rest)
      ∙ closed (c ∷ cwd) (codes "&& " ++ rest),
)

-- The word between quotes, piece by piece: a text without a quote, and an escaped text.
pub read_word-piece :
    (s rest : Str) {word end : Str}
    → has_no 39 s ≡ true
    → read_word quoted rest ≡ some (word, end)
    → read_word quoted (s ++ rest) ≡ some (s ++ word, end)
unfolding read_word has_no
read_word-piece [] rest h e = e
read_word-piece (c ∷ s) rest {word = word} {end = end} h e =
    ground (arith, h, e, read_word-piece s rest {word = word} {end = end})

pub read_word-escaped_piece :
    (v rest : Str) {word end : Str}
    → read_word quoted rest ≡ some (word, end)
    → read_word quoted (escape_quotes v ++ rest) ≡ some (v ++ word, end)
read_word-escaped_piece v rest {word = word} {end = end} e =
    read_word-escape_quotes v rest ∙ ap (puts v) e ∙ puts-some v word end

-- A text that a shell is to read between quotes, up to the closing one and a blank: the text, what it
-- means, and what is left.
pub data QuotedText : Str → Str → Str → Type 0 where
  closing : (rest : Str) → QuotedText (39 ∷ 32 ∷ rest) [] (32 ∷ rest)
  literal :
      (s : Str) {text word end : Str}
      → has_no 39 s ≡ true
      → QuotedText text word end
      → QuotedText (s ++ text) (s ++ word) end
  with_quotes :
      (v : Str) {text word end : Str}
      → QuotedText text word end
      → QuotedText (escape_quotes v ++ text) (v ++ word) end

pub read_word-QuotedText :
    {text word end : Str} → QuotedText text word end → read_word quoted text ≡ some (word, end)
unfolding read_word
read_word-QuotedText (closing rest) = refl
read_word-QuotedText (literal s h q) = read_word-piece s _ h (read_word-QuotedText q)
read_word-QuotedText (with_quotes v q) = read_word-escaped_piece v _ (read_word-QuotedText q)

-- Every character of the text stands for itself outside quotes.
unfoldable pub is_plain : Str → Bool
is_plain [] = true
is_plain (c ∷ s) = not ((c == 39) || (c == 92) || is_special c) && is_plain s

-- Outside quotes a blank ends the word.
pub read_word-is_plain :
    (s rest : Str) → is_plain s ≡ true → read_word plain (s ++ (32 ∷ rest)) ≡ some (s, 32 ∷ rest)
unfolding read_word is_plain
read_word-is_plain [] rest h = refl
read_word-is_plain (c ∷ s) rest h = ground (arith, h, read_word-is_plain s rest)

pub escape_quotes-is_plain :
    (s rest : Str) → is_plain s ≡ true → escape_quotes (s ++ rest) ≡ s ++ escape_quotes rest
unfolding escape_quotes replace_byte is_plain
escape_quotes-is_plain [] rest h = refl
escape_quotes-is_plain (c ∷ s) rest h = ground (arith, h, escape_quotes-is_plain s rest)
