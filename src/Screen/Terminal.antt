-- ===== src/Screen/Terminal.antt =====
-- What scrn.c promises: a terminal of 25 rows and 80 columns. It is described by rows and columns
-- and knows nothing of addresses: text that runs past the last row moves every row up.
use eg_gs.Base.{
  ℕ, suc, ◌+◌, ◌-◌, ◌*◌, ◌/◌, ◌<◌, ◌≡◌, refl, ap, subst, update, bit_and, ◌^◌, ◌∙◌, lt→ltb, List,
  [], ◌∷◌, arith, leb, ltb, true, false, inl, inr, Bool-cases, ◌==◌, if◌then◌else◌,
}
use eg_gs.Screen.{Screen, columns, rows, place, wrap, scroll, putch, puts, blank, blank_of, cell}
use eg_gs.Screen.Bounds.{OnScreen, tab_stop, scroll-mem, putch-OnScreen}

pub record Terminal : Type 0 where
  pub char_at : ℕ → ℕ → ℕ
  pub x : ℕ
  pub y : ℕ

-- What a character asks for. The control characters that are not named do nothing.
pub data Key : Type 0 where
  back tab return line other : Key
  print : ℕ → Key

unfoldable pub key : ℕ → Key
key ch =
    if ch == 8
    then back
    else if ch == 9
    then tab
    else if ch == 13
    then return
    else if ch == 10
    then line
    else if leb 32 ch
    then print ch
    else other

module _ (attrib : ℕ) where
  -- The start of the next row. On the last row the rows move up, and the new one is blank.
  unfoldable pub newline : Terminal → Terminal
  newline t =
      if suc t.y == rows
      then record t {
        char_at = λ r c. if suc r == rows then blank_of attrib else t.char_at (suc r) c;
        x = 0;
      }
      else record t { x = 0; y = suc t.y }

  -- The cursor set to column `x`; past the end it goes to the next row.
  unfoldable pub go_to : Terminal → ℕ → Terminal
  unfolding newline
  go_to t x = if ltb x columns then record t { x = x } else newline t

  -- A character at the cursor.
  unfoldable pub stamp : Terminal → ℕ → Terminal
  stamp t ch = record t {
    char_at = λ r c.
        if r == t.y then (if c == t.x then cell ch attrib else t.char_at r c) else t.char_at r c;
  }

  unfoldable pub type_key : Terminal → Key → Terminal
  unfolding newline go_to stamp
  type_key t back = record t { x = t.x - 1 }
  type_key t tab = go_to t ((t.x / 8 + 1) * 8)
  type_key t return = record t { x = 0 }
  type_key t line = newline t
  type_key t (print ch) = go_to (stamp t ch) (t.x + 1)
  type_key t other = t

  unfoldable pub type_char : Terminal → ℕ → Terminal
  type_char t ch = type_key t (key ch)

  unfoldable pub type_text : Terminal → List ℕ → Terminal
  type_text t [] = t
  type_text t (ch ∷ text) = type_text (type_char t ch) text

-- The rows and columns of the video memory.
abbrev pub view : Screen → Terminal
view s = record { char_at = λ r c. s.mem (r * columns + c); x = s.csr_x; y = s.csr_y }

-- Two terminals that show the same.
pub record Same (t u : Terminal) : Type 0 where
  pub same_x : t.x ≡ u.x
  pub same_y : t.y ≡ u.y
  pub same_char : (r c : ℕ) → r < rows → c < columns → t.char_at r c ≡ u.char_at r c

Same-trans : {t u v : Terminal} → Same t u → Same u v → Same t v
Same-trans p q = record {
  same_x = p.same_x ∙ q.same_x;
  same_y = p.same_y ∙ q.same_y;
  same_char = λ r c hr hc. p.same_char r c hr hc ∙ q.same_char r c hr hc;
}

-- Where the cursor goes next does not depend on its column.
module _ (t u : Terminal) (attrib : ℕ) (hy : t.y ≡ u.y)
    (hch : (r c : ℕ) → r < rows → c < columns → t.char_at r c ≡ u.char_at r c) where
  newline-Same : Same (newline attrib t) (newline attrib u)
  unfolding newline
  newline-Same = record {
    same_x = ground arith;
    same_y = ground arith;
    same_char = λ r c hr hc. ground (arith, hch r c hr hc, hch (suc r) c);
  }

  go_to-Same : (x y : ℕ) → x ≡ y → Same (go_to attrib t x) (go_to attrib u y)
  unfolding go_to
  go_to-Same x y e = rw e (elim (Bool-cases (ltb y columns)) [
    | inl lt ↦ rw lt (record { same_x = refl; same_y = hy; same_char = hch })
    | inr ge ↦ rw ge newline-Same
  ])

stamp-Same :
    {t u : Terminal} (attrib ch : ℕ) → Same t u → Same (stamp attrib t ch) (stamp attrib u ch)
unfolding stamp
stamp-Same attrib ch same = record {
  same_x = same.same_x;
  same_y = same.same_y;
  same_char = λ r c hr hc. ground (arith, same.same_char r c hr hc);
}

type_key-Same :
    {t u : Terminal} (attrib : ℕ) (k : Key)
    → Same t u
    → Same (type_key attrib t k) (type_key attrib u k)
unfolding type_key
type_key-Same {t} {u} attrib back h = record {
  same_x = ground arith;
  same_y = h.same_y;
  same_char = h.same_char;
}
type_key-Same {t} {u} attrib tab h =
    go_to-Same t u attrib h.same_y h.same_char _ _ (ap (λ x. (x / 8 + 1) * 8) h.same_x)
type_key-Same {t} {u} attrib return h = record {
  same_x = refl;
  same_y = h.same_y;
  same_char = h.same_char;
}
type_key-Same {t} {u} attrib line h = newline-Same t u attrib h.same_y h.same_char
type_key-Same {t} {u} attrib (print ch) h =
    let h' = stamp-Same attrib ch h in
    go_to-Same (stamp attrib t ch) (stamp attrib u ch) attrib h'.same_y h'.same_char _ _
      (ap (λ x. x + 1) h.same_x)
type_key-Same {t} {u} attrib other h = h

scroll-Same :
    (s : Screen)
    → s.csr_y < rows
    → Same (view (scroll (record s { csr_x = 0; csr_y = s.csr_y + 1 }))) (newline s.attrib (view s))
unfolding newline blank
scroll-Same s v = record {
  same_x = unfold scroll in ground arith;
  same_y = unfold scroll in ground arith;
  same_char = λ r c hr hc.
      ground (arith, scroll-mem (record s { csr_x = 0; csr_y = s.csr_y + 1 }) (r * columns + c));
}

-- The cursor brought back onto the screen, against the terminal's move to that column.
settle-Same :
    (s : Screen) → s.csr_y < rows → Same (view (scroll (wrap s))) (go_to s.attrib (view s) s.csr_x)
unfolding wrap go_to
settle-Same s v = elim (Bool-cases (ltb s.csr_x columns)) [
  | inl e ↦
      let f : leb columns s.csr_x ≡ false = ground arith in
      rw (e, f)
        (record {
          same_x = unfold scroll in ground arith;
          same_y = unfold scroll in ground arith;
          same_char = λ r c hr hc. ground (arith, scroll-mem s (r * columns + c));
        })
  | inr e ↦ let f : leb columns s.csr_x ≡ true = ground arith in rw (e, f) (scroll-Same s v)
]

go_to_inside :
    (attrib : ℕ) (t : Terminal) (x : ℕ) → x < columns → go_to attrib t x ≡ record t { x = x }
unfolding go_to
go_to_inside attrib t x h = rw (lt→ltb x columns h)

-- The screen `s'` after a branch of `putch` that leaves the cursor on its row.
settled :
    (s s' : Screen) (t : Terminal) (x : ℕ)
    → s'.csr_y < rows
    → s'.csr_y ≡ t.y
    → s'.csr_x ≡ x
    → ((r c : ℕ) → r < rows → c < columns → (view s').char_at r c ≡ t.char_at r c)
    → Same (view (scroll (wrap s'))) (go_to s'.attrib t x)
settled s s' t x v ey ex ech =
    Same-trans (settle-Same s' v) (go_to-Same (view s') t s'.attrib ey ech _ _ ex)

abbrev printed : Screen → ℕ → Screen
printed s c = record s {
  mem = update s.mem (s.csr_y * columns + s.csr_x) (cell c s.attrib);
  csr_x = s.csr_x + 1;
}

place-key :
    (s : Screen) (ch : ℕ) (k : Key)
    → OnScreen s
    → key ch ≡ k
    → Same (view (scroll (wrap (place s ch)))) (type_key s.attrib (view s) k)
unfolding type_key
place-key s ch back v e =
    let p : place s ch ≡ record s { csr_x = s.csr_x - 1 } = unfold place key in ground arith in
    rw (p, ← go_to_inside s.attrib (view s) (s.csr_x - 1) (omega arith))
      (settled s (record s { csr_x = s.csr_x - 1 }) (view s) (s.csr_x - 1) v.row refl refl
        (λ r c _ _. refl))
place-key s ch tab v e =
    let p : place s ch ≡ record s { csr_x = bit_and (s.csr_x + 8) (2 ^ 32 - 8) } =
      unfold place key in ground arith in
    rw p (
      settled s (record s { csr_x = bit_and (s.csr_x + 8) (2 ^ 32 - 8) }) (view s) _ v.row refl
        (omega (arith, tab_stop s.csr_x v.column)) (λ r c _ _. refl))
place-key s ch return v e =
    let p : place s ch ≡ record s { csr_x = 0 } = unfold place key in ground arith in
    rw (p, ← go_to_inside s.attrib (view s) 0 (omega arith))
      (settled s (record s { csr_x = 0 }) (view s) 0 v.row refl refl (λ r c _ _. refl))
place-key s ch line v e =
    let p : place s ch ≡ record s { csr_x = 0; csr_y = s.csr_y + 1 } =
      unfold place key in ground arith in
    rw p (unfold wrap in scroll-Same s v.row)
place-key s ch (print c) v e =
    let p : place s ch ≡ printed s c = unfold place key in ground arith in
    rw p (
      settled s (printed s c) (stamp s.attrib (view s) c) (s.csr_x + 1) v.row (unfold stamp in refl)
        refl (λ r d hr hd. unfold stamp in ground arith))
place-key s ch other v e =
    let p : place s ch ≡ s = unfold place key in ground arith in
    rw (p, ← go_to_inside s.attrib (view s) s.csr_x v.column)
      (settled s s (view s) s.csr_x v.row refl refl (λ r c _ _. refl))

-- One character: what `putch` shows is what the terminal shows.
putch-Same :
    (s : Screen) (ch : ℕ) → OnScreen s → Same (view (putch s ch)) (type_char s.attrib (view s) ch)
unfolding putch type_char
putch-Same s ch v = place-key s ch (key ch) v refl

type_text-Same :
    (attrib : ℕ) (text : List ℕ) {t u : Terminal}
    → Same t u
    → Same (type_text attrib t text) (type_text attrib u text)
unfolding type_text type_char
type_text-Same attrib [] h = h
type_text-Same attrib (ch ∷ text) h = type_text-Same attrib text (type_key-Same attrib (key ch) h)

attrib-putch : (s : Screen) (ch : ℕ) → (putch s ch).attrib ≡ s.attrib
unfolding putch
attrib-putch s ch = ground arith

-- The colour is a variable here, since a step leaves it alone only up to an equation.
puts-Same :
    (text : List ℕ) (s : Screen) (attrib : ℕ)
    → OnScreen s
    → s.attrib ≡ attrib
    → Same (view (puts s text)) (type_text attrib (view s) text) × OnScreen (puts s text)
unfolding puts type_text
puts-Same [] s attrib v e =
    (record { same_x = refl; same_y = refl; same_char = λ r c _ _. refl }, v)
puts-Same (ch ∷ text) s attrib v e =
    let next = putch s ch in
    let (rest, on) = puts-Same text next attrib (putch-OnScreen s ch v) (attrib-putch s ch ∙ e) in
    let step : Same (view next) (type_char attrib (view s) ch) =
      subst (λ a. Same (view next) (type_char a (view s) ch)) e (putch-Same s ch v) in
    (Same-trans rest (type_text-Same attrib text step), on)

-- With the cursor on the screen, printing a text shows what the terminal of 25 rows shows after
-- that text, in every cell and at the cursor, and the cursor stays on the screen.
pub puts_refines :
    (s : Screen) (text : List ℕ)
    → OnScreen s
    → Same (view (puts s text)) (type_text s.attrib (view s) text) × OnScreen (puts s text)
puts_refines s text v = puts-Same text s s.attrib v refl
