-- ===== src/Pairing/RoundTrip.antt =====
-- src/pairing/code.ts: a code that is shown to a person and typed again is found.
use nanoclaw_github_copilot.Base.{
  ℕ, zero, suc, ◌≡◌, refl, sym, subst, ap, ◌∙◌, ◌<◌, Bool, true, false, ◌&&◌, ◌||◌, List, [], ◌∷◌,
  ◌++◌, arith, leb, ◌==◌, length, length-append, All, All-append,
}
use nanoclaw_github_copilot.Mounts.Strings.{Text}
use nanoclaw_github_copilot.Gate.{is_space, push, trim_start, trim_end, trim, to_lower_case}
use nanoclaw_github_copilot.Gate.Words.{NoSpace, Blank, trim_start-blanks}
use nanoclaw_github_copilot.Pairing.{
  pairing_alphabet, char_at, pick_chars, take, drop, grouped, generate_pairing_code, to_upper_case,
  strip_dashes, normalize_pairing_code, format_code,
}

-- A digit from 2 on, or a capital letter; every character of the alphabet is one.
abbrev pub is_code_char : ℕ → Bool
is_code_char c = leb b'2' c && leb c b'9' || leb b'A' c && leb c b'Z'

abbrev CodeChars : Text → Type 0
CodeChars = All (λ c. is_code_char c ≡ true)

-- Eight such characters.
abbrev pub IsCode : Text → Type 0
IsCode code = (length code ≡ 8) × All (λ c. is_code_char c ≡ true) code

abbrev Shown : Text → Type 0
Shown = All (λ c. (is_code_char c || c == b'-') ≡ true)

push-char : (c : ℕ) (s : Text) → is_space c ≡ false → push c s ≡ c ∷ s
push-char c [] h = ground (arith, h)
push-char c (d ∷ s) h = refl

trim_end-Blank : (s : Text) → Blank s → trim_end s ≡ []
unfolding trim_end
trim_end-Blank [] b = refl
trim_end-Blank (c ∷ s) b = ground (arith, b.0, trim_end-Blank s b.1)

trim_start-Blank : (s : Text) → Blank s → trim_start s ≡ []
unfolding trim_start
trim_start-Blank [] b = refl
trim_start-Blank (c ∷ s) b = ground (arith, b.0, trim_start-Blank s b.1)

trim_end-word : (s blanks : Text) → NoSpace s → Blank blanks → trim_end (s ++ blanks) ≡ s
unfolding trim_end
trim_end-word [] blanks n b = trim_end-Blank blanks b
trim_end-word (c ∷ s) blanks n b = ap (push c) (trim_end-word s blanks n.1 b) ∙ push-char c s n.0

trim-word :
    (before s after : Text)
    → Blank before
    → NoSpace s
    → Blank after
    → trim (before ++ (s ++ after)) ≡ s
unfolding trim trim_start
trim-word before [] after b n a =
    rw (trim_start-blanks before after b, trim_start-Blank after a) (unfold trim_end in refl)
trim-word before (c ∷ s) after b n a =
    rw (trim_start-blanks before (c ∷ s ++ after) b, n.0) (trim_end-word (c ∷ s) after n a)

lower-NoSpace : (s : Text) → Shown s → NoSpace (to_lower_case s)
unfolding to_lower_case
lower-NoSpace [] h = tt
lower-NoSpace (c ∷ s) h = (ground (arith, h.0), lower-NoSpace s h.1)

upper_lower : (s : Text) → Shown s → to_upper_case (to_lower_case s) ≡ s
unfolding to_upper_case to_lower_case
upper_lower [] h = refl
upper_lower (c ∷ s) h = ground (arith, h.0, upper_lower s h.1)

strip_dashes-append : (s t : Text) → CodeChars s → strip_dashes (s ++ t) ≡ s ++ strip_dashes t
unfolding strip_dashes
strip_dashes-append [] t h = refl
strip_dashes-append (c ∷ s) t h = ground (arith, h.0, strip_dashes-append s t h.1)

strip_dashes-code : (s : Text) → CodeChars s → strip_dashes s ≡ s
unfolding strip_dashes
strip_dashes-code [] h = refl
strip_dashes-code (c ∷ s) h = ground (arith, h.0, strip_dashes-code s h.1)

take-drop : (n : ℕ) (s : Text) → take n s ++ drop n s ≡ s
unfolding take drop
take-drop zero s = refl
take-drop (suc n) [] = refl
take-drop (suc n) (c ∷ s) = ap (λ (t : Text). c ∷ t) (take-drop n s)

module _ (P : ℕ → Type 0) where
  All-take : (n : ℕ) (s : Text) → All P s → All P (take n s)
  unfolding take
  All-take zero s h = tt
  All-take (suc n) [] h = tt
  All-take (suc n) (c ∷ s) h = (h.0, All-take n s h.1)

  All-drop : (n : ℕ) (s : Text) → All P s → All P (drop n s)
  unfolding drop
  All-drop zero s h = h
  All-drop (suc n) [] h = tt
  All-drop (suc n) (c ∷ s) h = All-drop n s h.1

code-Shown : (s : Text) → CodeChars s → Shown s
code-Shown [] h = tt
code-Shown (c ∷ s) h = (ground (arith, h.0), code-Shown s h.1)

grouped-Shown : (s : Text) → CodeChars s → Shown (grouped s)
grouped-Shown s h =
    All-append (λ c. (is_code_char c || c == b'-') ≡ true) (take 4 s) (b'-' ∷ drop 4 s)
      (code-Shown (take 4 s) (All-take (λ c. is_code_char c ≡ true) 4 s h))
      (refl, code-Shown (drop 4 s) (All-drop (λ c. is_code_char c ≡ true) 4 s h))

dash-dropped : (s : Text) → strip_dashes (b'-' ∷ s) ≡ strip_dashes s
unfolding strip_dashes
dash-dropped s = refl

strip-grouped : (s : Text) → CodeChars s → strip_dashes (grouped s) ≡ s
strip-grouped s h =
    strip_dashes-append (take 4 s) (b'-' ∷ drop 4 s) (All-take (λ c. is_code_char c ≡ true) 4 s h)
    ∙ ap (λ (t : Text). take 4 s ++ t)
        (dash-dropped (drop 4 s)
          ∙ strip_dashes-code (drop 4 s) (All-drop (λ c. is_code_char c ≡ true) 4 s h))
    ∙ take-drop 4 s

normalize-format :
    (before code after : Text)
    → Blank before
    → IsCode code
    → Blank after
    → normalize_pairing_code (before ++ (to_lower_case (format_code code) ++ after)) ≡ code
unfolding normalize_pairing_code format_code
normalize-format before code after b c a =
    let shown = grouped-Shown code c.1 in
    rw
      (
        c.0,
        trim-word before (to_lower_case (grouped code)) after b (lower-NoSpace (grouped code) shown)
            a,
        upper_lower (grouped code) shown,
      )
      (strip-grouped code c.1)

nth_char :
    (n : ℕ) (s : Text)
    → n < length s
    → CodeChars s
    → (c : ℕ) × (char_at n s ≡ c ∷ []) × (is_code_char c ≡ true)
unfolding char_at
nth_char n [] l h = absurd (omega (arith, l))
nth_char zero (c ∷ s) l h = (c, refl, h.0)
nth_char (suc n) (c ∷ s) l h = nth_char n s (omega (arith, l)) h.1

alphabet-chars : CodeChars pairing_alphabet
unfolding pairing_alphabet
alphabet-chars = (
  refl,
  (
    refl,
    (
      refl,
      (
        refl,
        (
          refl,
          (
            refl,
            (
              refl,
              (
                refl,
                (
                  refl,
                  (
                    refl,
                    (
                      refl,
                      (
                        refl,
                        (
                          refl,
                          (
                            refl,
                            (
                              refl,
                              (
                                refl,
                                (
                                  refl,
                                  (
                                    refl,
                                    (
                                      refl,
                                      (
                                        refl,
                                        (
                                          refl,
                                          (
                                            refl,
                                            (
                                              refl,
                                              (
                                                refl,
                                                (refl, (refl, (refl, (refl, (refl, (refl, tt)))))),
                                              ),
                                            ),
                                          ),
                                        ),
                                      ),
                                    ),
                                  ),
                                ),
                              ),
                            ),
                          ),
                        ),
                      ),
                    ),
                  ),
                ),
              ),
            ),
          ),
        ),
      ),
    ),
  ),
)

alphabet-length : length pairing_alphabet ≡ 30
unfolding pairing_alphabet
alphabet-length = refl

abbrev Below30 : List ℕ → Type 0
Below30 = All (λ n. n < 30)

pick_chars-IsCode :
    (ns : List ℕ) → Below30 ns → (length (pick_chars ns) ≡ length ns) × CodeChars (pick_chars ns)
unfolding pick_chars
pick_chars-IsCode [] h = (refl, tt)
pick_chars-IsCode (n ∷ ns) h =
    let c = nth_char n pairing_alphabet (omega (arith, h.0, alphabet-length)) alphabet-chars in
    let rest = pick_chars-IsCode ns h.1 in
    (
      ground (arith, c.1, rest.0, length-append (c.0 ∷ []) (pick_chars ns)),
      subst (λ (s : Text). CodeChars (s ++ pick_chars ns)) (sym c.1) (c.2, rest.1),
    )

append_nil : (s : Text) → s ++ [] ≡ s
append_nil [] = refl
append_nil (c ∷ s) = ap (λ (t : Text). c ∷ t) (append_nil s)

upper-Shown : (s : Text) → Shown s → to_upper_case s ≡ s
unfolding to_upper_case
upper-Shown [] h = refl
upper-Shown (c ∷ s) h = ground (arith, h.0, upper-Shown s h.1)

Shown-NoSpace : (s : Text) → Shown s → NoSpace s
Shown-NoSpace [] h = tt
Shown-NoSpace (c ∷ s) h = (ground (arith, h.0), Shown-NoSpace s h.1)

trim-Shown : (s : Text) → Shown s → trim s ≡ s
trim-Shown s h = ap trim (sym (append_nil s)) ∙ at_end s h
  where
    at_end : (s : Text) → Shown s → trim (s ++ []) ≡ s
    at_end s h = trim-word [] s [] tt (Shown-NoSpace s h) tt

normalize-grouped : (code : Text) → CodeChars code → normalize_pairing_code (grouped code) ≡ code
unfolding normalize_pairing_code
normalize-grouped code h =
    let shown = grouped-Shown code h in
    rw (trim-Shown (grouped code) shown, upper-Shown (grouped code) shown) (strip-grouped code h)

-- A generated code is shown to a person as it was generated, and however the person types it again, in
-- small letters and with blanks around it, the lookup finds the text that was stored.
pub normalize-generate :
    (random_ints : List ℕ) (before after : Text)
    → length random_ints ≡ 8
    → All (λ n. n < 30) random_ints
    → Blank before
    → Blank after
    → (format_code (normalize_pairing_code (generate_pairing_code random_ints))
        ≡ generate_pairing_code random_ints)
      × (normalize_pairing_code
            (before ++ (to_lower_case (generate_pairing_code random_ints) ++ after))
          ≡ normalize_pairing_code (generate_pairing_code random_ints))
unfolding generate_pairing_code format_code
normalize-generate ns before after l n b a =
    let code = pick_chars-IsCode ns n in
    let eight : length (pick_chars ns) ≡ 8 = code.0 ∙ l in
    let stored = normalize-grouped (pick_chars ns) code.1 in
    (
      rw (stored, eight) refl,
      rw stored (
          subst
            (λ (s : Text).
              normalize_pairing_code (before ++ (to_lower_case s ++ after)) ≡ pick_chars ns)
            (shown_eight (pick_chars ns) eight)
            (normalize-format before (pick_chars ns) after b (eight, code.1) a)),
    )
  where
    shown_eight : (s : Text) → length s ≡ 8 → format_code s ≡ grouped s
    shown_eight s e = ground (arith, e)
