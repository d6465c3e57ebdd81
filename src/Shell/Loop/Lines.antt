-- ===== src/Shell/Loop/Lines.antt =====
-- A line that was written from words is read by `read_line` as it stands.
use iu_sysprog.Prelude.{
  ℕ, ◌≡◌, ◌≢◌, refl, Bool, true, false, not, ◌&&◌, ◌||◌, List, [], ◌∷◌, ◌++◌, some, arith, ◌==◌,
  if◌then◌else◌, All, Bool-cases, inl, inr, ap, ◌∙◌,
}
use iu_sysprog.Shell.ReadLine.{eof, read_line}
use iu_sysprog.Shell.ReadLine.Joined.{IsLine, joined, read_line-joined}
use iu_sysprog.Shell.Lexer.Words.{
  Word, bare, single, double, operator, doubled, content, escape, render,
}
use iu_sysprog.Shell.Lexer.RoundTrip.{render_line}

-- A byte that `read_line` keeps, and that neither ends the line nor counts as a double quote.
abbrev pub IsInline : ℕ → Type 0
IsInline c = (c ≢ eof) × (c ≢ 4) × (c ≢ b'\n')

abbrev quoted_after : Bool → List ℕ → Bool
quoted_after q [] = q
quoted_after q (c ∷ l) = quoted_after (if c == b'"' then not q else q) l

abbrev last_or : ℕ → List ℕ → ℕ
last_or p [] = p
last_or p (c ∷ l) = last_or c l

IsLine-inline :
    (l : List ℕ) (q : Bool) (p : ℕ)
    → All IsInline l
    → quoted_after q l ≡ false
    → last_or p l ≢ b'\\'
    → IsLine q p l × (joined q p l ≡ l)
IsLine-inline [] q p h e ne = ((e, ne), refl)
IsLine-inline (c ∷ l) q p h e ne =
    let plain : (not q && p == b'\\' && c == b'\n') ≡ false = ground arith in
    let (line, same) = IsLine-inline l (if c == b'"' then not q else q) c h.1 e ne in
    rw plain ((h.0.0, h.0.1, λ n. absurd (h.0.2 n), line), ap (◌∷◌ c) same)

-- The word can be typed on one line: `read_line` counts each double quote, also one that a
-- backslash or a single quote hides from the lexer.
abbrev pub IsTyped : Word → Type 0
IsTyped word = All (λ c. IsInline c × (c ≢ b'"')) (content word)

abbrev IsTypedByte : ℕ → Type 0
IsTypedByte c = IsInline c × (c ≢ b'"')

All-IsInline : (t rest : List ℕ) → All IsTypedByte t → All IsInline rest → All IsInline (t ++ rest)
All-IsInline [] rest h k = k
All-IsInline (c ∷ t) rest h k = (h.0.0, All-IsInline t rest h.1 k)

space-IsInline : IsInline b' '
space-IsInline = (omega arith, omega arith, omega arith)

escape-IsInline :
    (t rest : List ℕ) → All IsTypedByte t → All IsInline rest → All IsInline (escape t rest)
escape-IsInline [] rest h k = k
escape-IsInline (c ∷ t) rest h k =
    let ih = escape-IsInline t rest h.1 k in
    let slash : IsInline b'\\' = (omega arith, omega arith, omega arith) in
    elim (Bool-cases (c == b'\\' || c == b'"')) [
      | inl e ↦ rw e (slash, (h.0.0, ih))
      | inr e ↦ rw e (h.0.0, ih)
    ]

render-IsInline :
    (word : Word) (rest : List ℕ)
    → IsTyped word
    → All IsInline rest
    → All IsInline (render word rest)
render-IsInline (bare c t) rest h k = (h.0.0, All-IsInline t (b' ' ∷ rest) h.1 (space-IsInline, k))
render-IsInline (single t) rest h k =
    let quote : IsInline b'\'' = (omega arith, omega arith, omega arith) in
    (quote, All-IsInline t (b'\'' ∷ b' ' ∷ rest) h (quote, (space-IsInline, k)))
render-IsInline (double t) rest h k =
    let quote : IsInline b'"' = (omega arith, omega arith, omega arith) in
    (quote, escape-IsInline t (b'"' ∷ b' ' ∷ rest) h (quote, (space-IsInline, k)))
render-IsInline (operator c) rest h k = (h.0.0, (space-IsInline, k))
render-IsInline (doubled c) rest h k = (h.0.0, (h.0.0, (space-IsInline, k)))

quoted_after-step :
    (c : ℕ) (l : List ℕ) (q : Bool) → c ≢ b'"' → quoted_after q (c ∷ l) ≡ quoted_after q l
quoted_after-step c l q ne = let e : (c == b'"') ≡ false = ground arith in rw (e, quoted_after)

quoted_after-append :
    (t rest : List ℕ) (q : Bool)
    → All IsTypedByte t
    → quoted_after q (t ++ rest) ≡ quoted_after q rest
quoted_after-append [] rest q h = refl
quoted_after-append (c ∷ t) rest q h =
    quoted_after-step c (t ++ rest) q h.0.1 ∙ quoted_after-append t rest q h.1

quoted_after-escape :
    (t rest : List ℕ) (q : Bool)
    → All IsTypedByte t
    → quoted_after q (escape t rest) ≡ quoted_after q rest
quoted_after-escape [] rest q h = refl
quoted_after-escape (c ∷ t) rest q h =
    let whole = quoted_after-step c (escape t rest) q h.0.1 ∙ quoted_after-escape t rest q h.1 in
    elim (Bool-cases (c == b'\\' || c == b'"')) [ inl e ↦ rw e whole | inr e ↦ rw e whole ]

quoted_after-render :
    (word : Word) (rest : List ℕ)
    → IsTyped word
    → quoted_after false (render word rest) ≡ quoted_after false rest
quoted_after-render (bare c t) rest h = quoted_after-append (c ∷ t) (b' ' ∷ rest) false h
quoted_after-render (single t) rest h = quoted_after-append t (b'\'' ∷ b' ' ∷ rest) false h
quoted_after-render (double t) rest h = quoted_after-escape t (b'"' ∷ b' ' ∷ rest) true h
quoted_after-render (operator c) rest h = quoted_after-append (c ∷ []) (b' ' ∷ rest) false h
quoted_after-render (doubled c) rest h =
    quoted_after-append (c ∷ c ∷ []) (b' ' ∷ rest) false (h.0, (h.0, tt))

last_or-append : (t rest : List ℕ) (p c : ℕ) → last_or p (t ++ c ∷ rest) ≡ last_or c rest
last_or-append [] rest p c = refl
last_or-append (d ∷ t) rest p c = last_or-append t rest d c

last_or-escape : (t rest : List ℕ) (p c : ℕ) → last_or p (escape t (c ∷ rest)) ≡ last_or c rest
last_or-escape [] rest p c = refl
last_or-escape (d ∷ t) rest p c = elim (Bool-cases (d == b'\\' || d == b'"')) [
  | inl e ↦ rw e (last_or-escape t rest d c)
  | inr e ↦ rw e (last_or-escape t rest d c)
]

last_or-render :
    (word : Word) (rest : List ℕ) (p : ℕ) → last_or p (render word rest) ≡ last_or b' ' rest
last_or-render (bare c t) rest p = last_or-append (c ∷ t) rest p b' '
last_or-render (single t) rest p = last_or-append t (b' ' ∷ rest) b'\'' b'\''
last_or-render (double t) rest p = last_or-escape t (b' ' ∷ rest) b'"' b'"'
last_or-render (operator c) rest p = refl
last_or-render (doubled c) rest p = refl

abbrev pub AreTyped : List Word → Type 0
AreTyped = All IsTyped

render_line-facts :
    (words : List Word) (p : ℕ)
    → AreTyped words
    → p ≢ b'\\'
    → All IsInline (render_line words [])
      × (quoted_after false (render_line words []) ≡ false)
      × (last_or p (render_line words []) ≢ b'\\')
render_line-facts [] p h ne = (tt, refl, ne)
render_line-facts (word ∷ words) p h ne =
    let (inline, quoted, last) = render_line-facts words b' ' h.1 (omega arith) in
    let rest = render_line words [] in
    (
      render-IsInline word rest h.0 inline,
      quoted_after-render word rest h.0 ∙ quoted,
      rw (last_or-render word rest p) last,
    )

-- `read_line` gives such a line back, with a NUL, and leaves what stands behind its newline.
pub read_line-render_line :
    (words : List Word) (rest : List ℕ)
    → AreTyped words
    → read_line (render_line words [] ++ b'\n' ∷ rest) ≡ some (render_line words [] ++ 0 ∷ [], rest)
read_line-render_line words rest h =
    let (inline, quoted, last) = render_line-facts words b's' h (omega arith) in
    let (line, same) = IsLine-inline (render_line words []) false b's' inline quoted last in
    read_line-joined (render_line words []) rest line ∙ rw same
