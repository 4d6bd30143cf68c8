-- ===== src/Server/Http/Escape.antt =====
-- server/src/route.rs, `html_escape`. The characters that it replaces are single bytes, which no
-- other character's encoding contains, so the text is walked by bytes.
use epoxy_tls.Base.{
  ℕ, zero, suc, ◌≡◌, ◌≢◌, refl, arith, [], ◌∷◌, ◌++◌, ◌==◌, if◌then◌else◌, length, drop, All, codes,
  sym, All-append, ◌∙◌, ap, append-nil, append_assoc,
}
use epoxy_tls.Bytes.Utf8.{Text}
use epoxy_tls.Server.Texts.{starts_with}

-- What one round of the loop pushes.
abbrev pub escape_char : ℕ → Text
escape_char c =
    if c == b'&'
    then codes "&amp;"
    else if c == b'<'
    then codes "&lt;"
    else if c == b'>'
    then codes "&gt;"
    else if c == b'"'
    then codes "&quot;"
    else if c == b'\''
    then codes "&#39;"
    else c ∷ []

-- The loop from `escaped` on.
unfoldable pub escape_loop : Text → Text → Text
escape_loop [] escaped = escaped
escape_loop (character ∷ value) escaped = escape_loop value (escaped ++ escape_char character)

unfoldable pub html_escape : Text → Text
unfolding escape_loop
html_escape value = escape_loop value []

-- A browser's reading of the five references, over at most n characters.
abbrev pub read_text : ℕ → Text → Text
read_text zero s = []
read_text (suc n) [] = []
read_text (suc n) (c ∷ s) =
    if starts_with (c ∷ s) (codes "&amp;")
    then b'&' ∷ read_text n (drop 4 s)
    else if starts_with (c ∷ s) (codes "&lt;")
    then b'<' ∷ read_text n (drop 3 s)
    else if starts_with (c ∷ s) (codes "&gt;")
    then b'>' ∷ read_text n (drop 3 s)
    else if starts_with (c ∷ s) (codes "&quot;")
    then b'"' ∷ read_text n (drop 5 s)
    else if starts_with (c ∷ s) (codes "&#39;")
    then b'\'' ∷ read_text n (drop 4 s)
    else c ∷ read_text n s

-- A byte that neither opens a tag nor ends an attribute.
abbrev pub IsPlain : ℕ → Type 0
IsPlain c = (c ≢ b'<') × (c ≢ b'>') × (c ≢ b'"') × (c ≢ b'\'')

escape_char-IsPlain : (c : ℕ) → All IsPlain (escape_char c)
escape_char-IsPlain c = ground arith

read_escape_char : (n c : ℕ) (s : Text) → read_text (suc n) (escape_char c ++ s) ≡ c ∷ read_text n s
read_escape_char n c s = ground arith

abbrev escaped_text : Text → Text
escaped_text [] = []
escaped_text (c ∷ s) = escape_char c ++ escaped_text s

escape_loop-escaped_text : (s out : Text) → escape_loop s out ≡ out ++ escaped_text s
unfolding escape_loop
escape_loop-escaped_text [] out = sym (append-nil out)
escape_loop-escaped_text (c ∷ s) out =
    rw (escape_loop-escaped_text s (out ++ escape_char c), append_assoc) refl

escaped_text-IsPlain : (s : Text) → All IsPlain (escaped_text s)
escaped_text-IsPlain [] = tt
escaped_text-IsPlain (c ∷ s) =
    All-append IsPlain (escape_char c) (escaped_text s) (escape_char-IsPlain c)
      (escaped_text-IsPlain s)

read_text-escaped_text : (s : Text) → read_text (length s) (escaped_text s) ≡ s
read_text-escaped_text [] = refl
read_text-escaped_text (c ∷ s) =
    read_escape_char (length s) c (escaped_text s) ∙ ap (◌∷◌ c) (read_text-escaped_text s)

-- Escaped text opens no tag and ends no quoted attribute, and a browser that reads its character
-- references shows the text that was escaped.
pub html_escape_lem :
    (s : Text) → All IsPlain (html_escape s) × (read_text (length s) (html_escape s) ≡ s)
unfolding html_escape
html_escape_lem s =
    rw (escape_loop-escaped_text s []) (escaped_text-IsPlain s, read_text-escaped_text s)
