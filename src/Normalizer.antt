-- ===== src/Normalizer.antt =====
-- crates/contexide-normalizer/src/text.rs: `normalize` and its helpers. A text is the list of its code points; the NFKC form, of the crate `unicode_normalization`, is a
-- parameter.
pub mod Tidy
pub mod Lossless
pub mod Changes
pub mod Html
pub mod Markdown
mod Samples
use contexide.Prelude.{
  ℕ, zero, suc, ◌+◌, Bool, true, false, ◌&&◌, ◌||◌, not, List, [], ◌∷◌, ◌++◌, eqb, ltb, leb,
  if◌then◌else◌, Chars, reversed, trim, is_whitespace,
}

abbrev pub line_feed : ℕ
line_feed = 10

abbrev pub space : ℕ
space = 32

abbrev pub tab : ℕ
tab = 9

-- `'\u{200B}' | '\u{200C}' | '\u{200D}' | '\u{FEFF}' | '\u{2060}'`
unfoldable pub is_dropped : ℕ → Bool
is_dropped ch = (leb 8203 ch && leb ch 8205) || eqb ch 65279 || eqb ch 8288

-- The loop that fills `mapped`.
unfoldable pub mapped : Chars → Chars
mapped [] = []
mapped (ch ∷ chars) =
    let rest = mapped chars in
    if eqb ch 13
    then line_feed ∷ rest
    else if eqb ch 160
    then space ∷ rest
    else if is_dropped ch
    then rest
    else ch ∷ rest

-- The variables of the loop in `collapse_whitespace`; `out` and `line_buf` are held in reverse, so that
-- to push is to put in front.
pub record Collapse : Type 0 where
  pub out : Chars
  pub line_buf : Chars
  pub prev_was_space : Bool
  pub newline_run : ℕ

abbrev pub is_empty : Chars → Bool
is_empty [] = true
is_empty (c ∷ s) = false

-- `while line.ends_with(' ') { line.pop(); }`
abbrev pub without_spaces : Chars → Chars
without_spaces [] = []
without_spaces (c ∷ line) = let rest = without_spaces line in if eqb c space then rest else c ∷ line

abbrev pub push_newlines : ℕ → Chars → Chars
push_newlines zero out = out
push_newlines (suc n) out = line_feed ∷ push_newlines n out

abbrev pub flush_line : Chars → Chars → ℕ → Chars
flush_line out line newline_count = push_newlines newline_count (without_spaces line ++ out)

-- At most one blank line.
abbrev pub capped : ℕ → ℕ
capped newline_run = if leb 3 newline_run then 2 else newline_run

abbrev pub on_newline : Collapse → Collapse
on_newline s = record {
  out = flush_line s.out s.line_buf 0;
  line_buf = [];
  prev_was_space = false;
  newline_run = s.newline_run + 1;
}

abbrev pub on_blank : Collapse → Collapse
on_blank s =
    if not s.prev_was_space && not (is_empty s.line_buf)
    then record s { line_buf = space ∷ s.line_buf; prev_was_space = true }
    else s

abbrev pub on_other : Collapse → ℕ → Collapse
on_other s ch = record {
  out = if ltb 0 s.newline_run then push_newlines (capped s.newline_run) s.out else s.out;
  line_buf = ch ∷ s.line_buf;
  prev_was_space = false;
  newline_run = 0;
}

-- One turn of the loop.
unfoldable pub collapse_char : Collapse → ℕ → Collapse
collapse_char s ch =
    if eqb ch line_feed
    then on_newline s
    else if eqb ch space || eqb ch tab
    then on_blank s
    else on_other s ch

unfoldable pub collapse_chars : Collapse → Chars → Collapse
collapse_chars s [] = s
collapse_chars s (ch ∷ chars) = collapse_chars (collapse_char s ch) chars

abbrev pub begin : Collapse
begin = record { out = []; line_buf = []; prev_was_space = false; newline_run = 0 }

-- What `collapse_whitespace` returns, in reverse.
unfoldable pub collapsed : Chars → Chars
collapsed chars =
    let s = collapse_chars begin chars in
    flush_line s.out s.line_buf (if ltb 0 s.newline_run then capped s.newline_run else 0)

unfoldable pub collapse_whitespace : Chars → Chars
collapse_whitespace chars = reversed (collapsed chars) []

-- `trimmed` in `normalize`.
unfoldable pub trimmed : (Chars → Chars) → Chars → Chars
trimmed nfkc input = trim (collapse_whitespace (mapped (nfkc input)))

abbrev len_utf8 : ℕ → ℕ
len_utf8 c = if ltb c 128 then 1 else if ltb c 2048 then 2 else if ltb c 65536 then 3 else 4

-- `str::len`, in bytes.
abbrev pub byte_len : Chars → ℕ
byte_len [] = 0
byte_len (c ∷ s) = len_utf8 c + byte_len s

-- `bytecount::count(.., b'\n')`: no other character has this byte.
abbrev pub line_feeds : Chars → ℕ
line_feeds [] = 0
line_feeds (c ∷ s) = let rest = line_feeds s in if eqb c line_feed then rest + 1 else rest

abbrev pub line_count : Chars → ℕ
line_count text = if is_empty text then 0 else line_feeds text + 1

-- `split_whitespace().count()`: the words that begin in the rest of a text, where `inside` says that
-- the character before it belongs to a word.
unfoldable pub words_from : Bool → Chars → ℕ
words_from inside [] = 0
words_from inside (c ∷ s) =
    let apart = words_from false s in
    let within = words_from true s in
    if is_whitespace c then apart else if inside then within else within + 1

-- `==` on texts.
abbrev pub same_text : Chars → Chars → Bool
same_text [] [] = true
same_text (c ∷ s) (d ∷ t) = eqb c d && same_text s t
same_text _ _ = false

-- `bytes_in != bytes_out || input != trimmed`
abbrev pub differs : Chars → Chars → Bool
differs s t = not (eqb (byte_len s) (byte_len t)) || not (same_text s t)

pub record NormalizedText : Type 0 where
  pub text : Chars
  pub bytes_in : ℕ
  pub bytes_out : ℕ
  pub changed : Bool
  pub lines : ℕ
  pub words : ℕ

unfoldable pub normalize : (Chars → Chars) → Chars → NormalizedText
normalize nfkc input =
    let text = trimmed nfkc input in
    record {
      text = text;
      bytes_in = byte_len input;
      bytes_out = byte_len text;
      changed = differs input text;
      lines = line_count text;
      words = words_from false text;
    }
