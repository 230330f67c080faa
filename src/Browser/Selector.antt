-- ===== src/Browser/Selector.antt =====
-- js_selector, and the escaping of `type` (cdp_browser_manager.cpp): text inside a quoted string of
-- JavaScript. `read_string` is that string's value as JavaScript reads it.
use lynne_social.Prelude.{
  ℕ, ◌≡◌, ◌≢◌, refl, Bool, true, false, All, Option, none, some, [], ◌∷◌, ◌++◌, Text, ◌==◌,
  if◌then◌else◌, arith,
}

abbrev pub quote : ℕ
quote = 39

abbrev pub backslash : ℕ
backslash = 92

unfoldable pub js_selector : Text → Text
js_selector [] = []
js_selector (c ∷ s) =
    let rest = js_selector s in
    if c == backslash
    then backslash ∷ backslash ∷ rest
    else if c == quote
    then backslash ∷ quote ∷ rest
    else c ∷ rest

-- the loop of `type` over the text
unfoldable pub js_text : Text → Text
js_text [] = []
js_text (c ∷ s) =
    let rest = js_text s in
    if c == backslash
    then backslash ∷ backslash ∷ rest
    else if c == quote
    then backslash ∷ quote ∷ rest
    else if c == 10
    then backslash ∷ b'n' ∷ rest
    else if c == 13
    then backslash ∷ b'r' ∷ rest
    else c ∷ rest

abbrev pub escaped : ℕ → ℕ
escaped c = if c == b'n' then 10 else if c == b'r' then 13 else c

abbrev pub grow : ℕ → Option (Text × Text) → Option (Text × Text)
grow c none = none
grow c (some (t, r)) = some (c ∷ t, r)

-- A string of JavaScript from behind its opening quote: its value, and what follows the closing
-- quote. A raw line break ends the script with a syntax error. Of the escapes, those that the
-- program writes are read.
-- The flag says that a backslash stands in front.
unfoldable pub read_string : Bool → Text → Option (Text × Text)
read_string behind [] = none
read_string true (c ∷ s) = grow (escaped c) (read_string false s)
read_string false (c ∷ s) =
    let plain = grow c (read_string false s) in
    let behind = read_string true s in
    if c == quote
    then some ([], s)
    else if c == backslash
    then behind
    else if c == 10
    then none
    else if c == 13
    then none
    else plain

-- Text without the line breaks that JavaScript does not take raw.
abbrev pub IsOneLine : Text → Type 0
IsOneLine = All (λ c. (c ≢ 10) × (c ≢ 13))

-- Whatever the text given to type, its escaped form before a quote is read by a JavaScript reader
-- of quoted strings as that text, and the script goes on behind the quote.
pub read_string-js_text : (s r : Text) → read_string false (js_text s ++ (quote ∷ r)) ≡ some (s, r)
unfolding js_text read_string
read_string-js_text [] r = refl
read_string-js_text (c ∷ s) r = ground (arith, read_string-js_text s r)

-- A selector without line feed and carriage return, escaped by js_selector and closed by a quote,
-- is read by a JavaScript reader of quoted strings as that selector, and the script goes on behind
-- the quote.
read_string-js_selector :
    (s r : Text) → IsOneLine s → read_string false (js_selector s ++ (quote ∷ r)) ≡ some (s, r)
unfolding js_selector read_string
read_string-js_selector [] r h = refl
read_string-js_selector (c ∷ s) r h = ground (arith, read_string-js_selector s r h.1)

-- A selector with a line feed, after a first part on one line, makes a script whose quoted string
-- a JavaScript reader refuses.
pub read_string-js_selector_feed :
    (s t r : Text)
    → IsOneLine s
    → read_string false (js_selector (s ++ (10 ∷ t)) ++ (quote ∷ r)) ≡ none
unfolding js_selector read_string
read_string-js_selector_feed [] t r h = refl
read_string-js_selector_feed (c ∷ s) t r h = ground (arith, read_string-js_selector_feed s t r h.1)
