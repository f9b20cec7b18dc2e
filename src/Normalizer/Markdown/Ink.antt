-- ===== src/Normalizer/Markdown/Ink.antt =====
-- What the renderer keeps of a text.
use mathlib.Core.List.{append-nil}
use contexide.Prelude.{
  ℕ, ◌+◌, ◌%◌, ◌^◌, ◌≡◌, refl, sym, ap, ◌∙◌, inl, inr, List, [], ◌∷◌, ◌++◌, eqb, if◌then◌else◌,
  Chars, arith, reversed, reversed-reversed, Bool-cases, List-cases,
}
use contexide.Normalizer.Lossless.{ink, ink-append, ink-reversed}
use contexide.Normalizer.Markdown.{
  MdOptions, Tag, paragraph, heading, block_quote, code_block, list, item, table, table_head,
  table_row, table_cell, link, image, other, Event, start, finish, text, code, html, soft_break,
  hard_break, rule, footnote_reference, task_list_marker, inline_math, display_math, inline_html,
  State, initial, ensure_newline, ends_blank, ensure_blank_line, bullet, numbered, popped,
  unwrap_or_zero, on_start, on_end, on_event, on_events, render_plain_markdown,
}

-- The number of an item, or its dash, by the list that it stands in.
abbrev pub marker : List ℕ → Chars
marker [] = bullet
marker (top ∷ rest) = if eqb top 0 then bullet else numbered top

abbrev pub counted : List ℕ → List ℕ
counted [] = []
counted (top ∷ rest) = if eqb top 0 then top ∷ rest else (top + 1) % 2 ^ 64 ∷ rest

module _ (html_text : Chars → Chars) where
  -- The text of an event, where the lists around it stand at these numbers.
  abbrev pub text_of : List ℕ → Event → Chars
  text_of ordered (start item) = marker ordered
  text_of ordered (text cow) = cow
  text_of ordered (code cow) = cow
  text_of ordered (inline_math cow) = cow
  text_of ordered (display_math cow) = cow
  text_of ordered (inline_html cow) = html_text cow
  text_of ordered _ = []

  -- The numbers after it.
  abbrev pub lists_after : List ℕ → Event → List ℕ
  lists_after ordered (start item) = counted ordered
  lists_after ordered (start (list first)) = unwrap_or_zero first ∷ ordered
  lists_after ordered (finish (list first)) = popped ordered
  lists_after ordered _ = ordered

  -- The texts of all events, with the marks of the items.
  abbrev pub content : List ℕ → List Event → Chars
  content ordered [] = []
  content ordered (ev ∷ events) = text_of ordered ev ++ content (lists_after ordered ev) events

ink-ensure_newline : (buf : Chars) → ink (ensure_newline buf) ≡ ink buf
ink-ensure_newline [] = refl
ink-ensure_newline (c ∷ buf) = ground arith

ink-ensure_blank_line : (buf : Chars) → ink (ensure_blank_line buf) ≡ ink buf
ink-ensure_blank_line buf = elim (Bool-cases (ends_blank buf)) [
  | inl blank ↦ rw blank refl
  | inr full ↦ rw full (ink-ensure_newline buf)
]

-- What a step has kept of an event's text `s`.
abbrev Keeps : Chars → List ℕ → State → State → Type 0
Keeps s ordered st next = (ink next.out ≡ reversed (ink s) (ink st.out)) × (next.ordered ≡ ordered)

module _ (st : State) where
  Keeps-on_start :
      (html_text : Chars → Chars) (tag : Tag)
      → Keeps
          (text_of html_text st.ordered (start tag))
          (lists_after html_text st.ordered (start tag))
          st
          (on_start tag st)
  unfolding on_start reversed
  Keeps-on_start html_text paragraph = ground (arith, ink-ensure_newline st.out)
  Keeps-on_start html_text heading = ground (arith, ink-ensure_blank_line st.out)
  Keeps-on_start html_text block_quote = ground (arith, ink-ensure_newline st.out)
  Keeps-on_start html_text code_block = (ink-ensure_blank_line st.out, refl)
  Keeps-on_start html_text (list first) = ground (arith, ink-ensure_newline st.out)
  Keeps-on_start html_text item = elim (List-cases st.ordered) [
    | inl e ↦ ground (arith, e, ink-reversed bullet st.out)
    | inr (top, rest, e) ↦
        ground (arith, e, ink-reversed bullet st.out, ink-reversed (numbered top) st.out)
  ]
  Keeps-on_start html_text table = ground (arith, ink-ensure_newline st.out)
  Keeps-on_start html_text table_head = ground (arith, ink-ensure_newline st.out)
  Keeps-on_start html_text table_row = ground (arith, ink-ensure_newline st.out)
  Keeps-on_start html_text table_cell = ground arith
  Keeps-on_start html_text link = (refl, refl)
  Keeps-on_start html_text image = (refl, refl)
  Keeps-on_start html_text other = (refl, refl)

  Keeps-on_end :
      (html_text : Chars → Chars) (tag : Tag)
      → Keeps [] (lists_after html_text st.ordered (finish tag)) st (on_end tag st)
  unfolding on_end reversed
  Keeps-on_end html_text paragraph = (ink-ensure_newline st.out, refl)
  Keeps-on_end html_text heading = (ink-ensure_blank_line st.out, refl)
  Keeps-on_end html_text block_quote = (ink-ensure_newline st.out, refl)
  Keeps-on_end html_text code_block = (ink-ensure_blank_line st.out, refl)
  Keeps-on_end html_text (list first) = (ink-ensure_newline st.out, refl)
  Keeps-on_end html_text item = (ink-ensure_newline st.out, refl)
  Keeps-on_end html_text table = (ink-ensure_newline st.out, refl)
  Keeps-on_end html_text table_head = (refl, refl)
  Keeps-on_end html_text table_row = (refl, refl)
  Keeps-on_end html_text table_cell = (refl, refl)
  Keeps-on_end html_text link = (refl, refl)
  Keeps-on_end html_text image = (refl, refl)
  Keeps-on_end html_text other = (refl, refl)

  Keeps-on_event :
      (html_text : Chars → Chars) (opts : MdOptions) (ev : Event)
      → Keeps
          (text_of html_text st.ordered ev)
          (lists_after html_text st.ordered ev)
          st
          (on_event html_text opts ev st)
  unfolding on_event reversed
  Keeps-on_event html_text opts (start tag) = Keeps-on_start html_text tag
  Keeps-on_event html_text opts (finish tag) = Keeps-on_end html_text tag
  Keeps-on_event html_text opts (text cow) = ground (arith, ink-reversed cow st.out)
  Keeps-on_event html_text opts (code cow) = (ink-reversed cow st.out, refl)
  Keeps-on_event html_text opts (html cow) = (refl, refl)
  Keeps-on_event html_text opts soft_break = ground arith
  Keeps-on_event html_text opts hard_break = (refl, refl)
  Keeps-on_event html_text opts rule = (ink-ensure_blank_line st.out, refl)
  Keeps-on_event html_text opts (footnote_reference label) = (refl, refl)
  Keeps-on_event html_text opts (task_list_marker checked) = (refl, refl)
  Keeps-on_event html_text opts (inline_math cow) = (ink-reversed cow st.out, refl)
  Keeps-on_event html_text opts (display_math cow) = (ink-reversed cow st.out, refl)
  Keeps-on_event html_text opts (inline_html cow) = (ink-reversed (html_text cow) st.out, refl)

pub reversed-append : (a b out : Chars) → reversed (a ++ b) out ≡ reversed b (reversed a out)
unfolding reversed
reversed-append [] b out = refl
reversed-append (c ∷ a) b out = reversed-append a b (c ∷ out)

kept-on_events :
    (html_text : Chars → Chars) (opts : MdOptions) (events : List Event) (st : State)
    → ink (on_events html_text opts events st).out
      ≡ reversed (ink (content html_text st.ordered events)) (ink st.out)
unfolding on_events reversed
kept-on_events html_text opts [] st = refl
kept-on_events html_text opts (ev ∷ events) st =
    let next = on_event html_text opts ev st in
    let (kept, ordered) = Keeps-on_event st html_text opts ev in
    let s = text_of html_text st.ordered ev in
    let rest = content html_text (lists_after html_text st.ordered ev) events in
    kept-on_events html_text opts events next
    ∙ ap (λ o. reversed (ink (content html_text o events)) (ink next.out)) ordered
    ∙ ap (reversed (ink rest)) kept
    ∙ sym (reversed-append (ink s) (ink rest) (ink st.out))
    ∙ ap (λ t. reversed t (ink st.out)) (sym (ink-append s rest))

-- Whatever the events of a text are, the renderer gives their texts and the marks of the items, in
-- order: but for line feeds, spaces and tabs nothing is lost, added or moved.
pub render_plain_markdown-ink :
    (parser : MdOptions → Chars → List Event) (html_text : Chars → Chars)
    → (md : Chars) (opts : MdOptions)
    → ink (render_plain_markdown parser html_text md opts)
      ≡ ink (content html_text [] (parser opts md))
unfolding render_plain_markdown reversed
render_plain_markdown-ink parser html_text md opts =
    let events = parser opts md in
    ink-reversed (on_events html_text opts events initial).out []
    ∙ ap (λ s. reversed s []) (kept-on_events html_text opts events initial)
    ∙ reversed-reversed (ink (content html_text [] events)) [] []
    ∙ append-nil (ink (content html_text [] events))
