-- ===== src/Queue/Lines.antt =====
-- src/group-queue.ts: the text of a turn, described by its lines.
use nanoclaw_github_copilot.Base.{
  ◌≡◌, ◌≢◌, refl, sym, ap, ◌∙◌, String, true, false, not, Option, none, some, List, [], ◌∷◌, arith,
  if◌then◌else◌, if_elim, str_eq, eq_iff,
}
use nanoclaw_github_copilot.Queue.Pipe.{join_text}
use Prim.Native.String
use text.Mathlib.TextLemmas.{
  append-nil, append_assoc, append-ne-nil_of_right_ne-nil, cons-append, cons-ne-nil,
}

-- The lines, with a line end between each two.
abbrev pub after_line : List String → String
after_line [] = ""
after_line (line ∷ lines) = String.◌++◌ "\n" (String.◌++◌ line (after_line lines))

abbrev pub as_lines : List String → String
as_lines [] = ""
as_lines (line ∷ lines) = String.◌++◌ line (after_line lines)

-- Empty lines at the front are left out.
abbrev pub skip_empty : List String → List String
skip_empty [] = []
skip_empty (line ∷ lines) = if str_eq line "" then skip_empty lines else line ∷ lines

abbrev pub texts_of : List (String × Option String) → List String
texts_of [] = []
texts_of ((text, _) ∷ rest) = text ∷ texts_of rest

abbrev pub lines_of : Option String → List String → List String
lines_of none lines = lines
lines_of (some held) lines = held ∷ lines

-- What a turn holds after these messages: the lines it held and the texts, in order.
abbrev pub turn_text : Option String → List (String × Option String) → Option String
turn_text held [] = held
turn_text held (m ∷ ms) = some (as_lines (skip_empty (lines_of held (texts_of (m ∷ ms)))))

joined_not_empty : (held text : String) → String.◌++◌ held (String.◌++◌ "\n" text) ≢ ""
joined_not_empty held text = append-ne-nil_of_right_ne-nil held line_not_empty
  where
    line_not_empty : String.◌++◌ "\n" text ≢ ""
    line_not_empty e = cons-ne-nil "\n" _ (sym (cons-append "\n" "" text) ∙ e)

join-lines :
    (held : Option String) (text : String) (lines : List String)
    → as_lines (skip_empty (join_text held text ∷ lines))
      ≡ as_lines (skip_empty (lines_of held (text ∷ lines)))
unfolding join_text
join-lines none text lines = refl
join-lines (some held) text lines =
    if_elim (λ (j : String). as_lines (skip_empty (j ∷ lines)) ≡ whole) (not (str_eq held ""))
      {x = joined} {y = text}
      (λ e.
        rw (lemma_true joined (joined_not_empty held text), off e)
          (append_assoc held _ (after_line lines)
            ∙ ap (λ (s : String). String.◌++◌ held s) (append_assoc "\n" text _)))
      (λ e. rw (is_empty e) refl)
  where
    joined : String
    joined = String.◌++◌ held (String.◌++◌ "\n" text)

    whole : String
    whole = as_lines (skip_empty (held ∷ text ∷ lines))

    lemma_true : (s : String) → s ≢ "" → str_eq s "" ≡ false
    lemma_true s n = ground (arith, n, eq_iff s "")

    off : not (str_eq held "") ≡ true → str_eq held "" ≡ false
    off e = ground (arith, e)

    is_empty : not (str_eq held "") ≡ false → str_eq held "" ≡ true
    is_empty e = ground (arith, e)

lone : (text : String) → as_lines (skip_empty (text ∷ [])) ≡ text
lone text =
    if_elim (λ (l : List String). as_lines l ≡ text) (str_eq text "")
      (λ e. sym ((eq_iff text "").0 e)) (λ _. append-nil text)

pub turn_text-join :
    (held cursor : Option String) (text : String) (rest : List (String × Option String))
    → turn_text (some (join_text held text)) rest ≡ turn_text held ((text, cursor) ∷ rest)
turn_text-join held cursor text [] =
    ap some (sym (lone (join_text held text)) ∙ join-lines held text [])
turn_text-join held cursor text (m ∷ ms) = ap some (join-lines held text (texts_of (m ∷ ms)))
