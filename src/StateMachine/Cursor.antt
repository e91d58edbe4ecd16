-- ===== src/StateMachine/Cursor.antt =====
-- The cursor of `step`: what one read leaves is what the next one finds.
use native.Mathlib.Nat.{zero-add, suc-add}
use mathlib.Core.List.{append_assoc}
use codex_loop_orchestra.Prelude.{
  ℕ, zero, suc, ◌+◌, ◌≤◌, ◌<◌, ◌≡◌, refl, sym, ap, ◌∙◌, List, [], ◌∷◌, ◌++◌, Option, none, some,
  length, drop, arith, ◌==◌, if◌then◌else◌,
}
use codex_loop_orchestra.StateMachine.Packet.{EventRecord, Env, World}
use codex_loop_orchestra.StateMachine.Apply.{Result, running, exited, apply_all}
use codex_loop_orchestra.StateMachine.Stream.{
  take_line, lines_within, complete_lines, size, read_events, new_lines, step, commit, saved,
  Ledger, cursor,
}

-- The first line found in `b ∷ bs`, by the first line found in `bs`.
take_line_cons : ℕ → List ℕ → Option (List ℕ × List ℕ) → Option (List ℕ × List ℕ)
take_line_cons b bs found =
    if b == 10
    then some (b ∷ [], bs)
    else elim found [ none ↦ none | some (line, rest) ↦ some (b ∷ line, rest) ]

take_line_split :
    (xs : List ℕ) (l r : List ℕ)
    → take_line xs ≡ some (l, r)
    → (xs ≡ l ++ r) × (length r < length xs)
unfolding take_line take_line_cons
take_line_split [] l r h = cc
take_line_split (b ∷ bs) l r h = go (take_line bs) h (λ l' r'. take_line_split bs l' r')
  where
    go :
        (o : Option (List ℕ × List ℕ))
        → take_line_cons b bs o ≡ some (l, r)
        → ((l' r' : List ℕ) → o ≡ some (l', r') → (bs ≡ l' ++ r') × (length r' < length bs))
        → (b ∷ bs ≡ l ++ r) × (length r < suc (length bs))
    go none e ih = ground arith
    go (some (l', r')) e ih = ground (arith, ih l' r' refl)

take_line-append :
    (xs ys : List ℕ) (l r : List ℕ)
    → take_line xs ≡ some (l, r)
    → take_line (xs ++ ys) ≡ some (l, r ++ ys)
unfolding take_line take_line_cons
take_line-append [] ys l r h = cc
take_line-append (b ∷ bs) ys l r h = go (take_line bs) h (λ l' r'. take_line-append bs ys l' r')
  where
    go :
        (o : Option (List ℕ × List ℕ))
        → take_line_cons b bs o ≡ some (l, r)
        → ((l' r' : List ℕ) → o ≡ some (l', r') → take_line (bs ++ ys) ≡ some (l', r' ++ ys))
        → take_line_cons b (bs ++ ys) (take_line (bs ++ ys)) ≡ some (l, r ++ ys)
    go none e ih = ground arith
    go (some (l', r')) e ih = ground (arith, ih l' r' refl)

-- What the loop does with the line that it has read.
abbrev after : ℕ → Option (List ℕ × List ℕ) → List (List ℕ)
after f none = []
after f (some (l, r)) = l ∷ lines_within f r

-- The fuel does not matter once it covers the bytes.
lines_within-fuel :
    (f g : ℕ) (bs : List ℕ) → length bs ≤ f → length bs ≤ g → lines_within f bs ≡ lines_within g bs
unfolding lines_within take_line
lines_within-fuel zero zero bs hf hg = refl
lines_within-fuel zero (suc g) [] hf hg = refl
lines_within-fuel zero (suc g) (b ∷ bs) hf hg = absurd (omega arith)
lines_within-fuel (suc f) zero [] hf hg = refl
lines_within-fuel (suc f) zero (b ∷ bs) hf hg = absurd (omega arith)
lines_within-fuel (suc f) (suc g) bs hf hg =
    go (take_line bs) (λ l r e. take_line_split bs l r e) (λ r. lines_within-fuel f g r)
  where
    go :
        (o : Option (List ℕ × List ℕ))
        → ((l r : List ℕ) → o ≡ some (l, r) → (bs ≡ l ++ r) × (length r < length bs))
        → ((r : List ℕ) → length r ≤ f → length r ≤ g → lines_within f r ≡ lines_within g r)
        → after f o ≡ after g o
    go none split ih = refl
    go (some (l, r)) split ih =
        let (_, shorter) = split l r refl in rw (ih r (omega arith) (omega arith))

complete_lines-some :
    (bs l r : List ℕ) → take_line bs ≡ some (l, r) → complete_lines bs ≡ l ∷ complete_lines r
unfolding complete_lines lines_within take_line
complete_lines-some [] l r h = cc
complete_lines-some (b ∷ bs) l r h =
    let (_, shorter) = take_line_split (b ∷ bs) l r h in
    ap (after (length bs)) h
    ∙ ap (λ (ls : List (List ℕ)). l ∷ ls)
        (lines_within-fuel (length bs) (length r) r (omega arith) (omega arith))

drop-append : (l : List ℕ) (n : ℕ) (r : List ℕ) → drop (length l + n) (l ++ r) ≡ drop n r
drop-append [] n r = simp zero-add
drop-append (x ∷ l) n r = simp suc-add (drop-append l n r)

-- Reading on after the complete lines of `xs` gives what one reading of everything gives.
lines-append :
    (f : ℕ) (xs ys : List ℕ)
    → length xs ≤ f
    → complete_lines (xs ++ ys)
      ≡ lines_within f xs ++ complete_lines (drop (size (lines_within f xs)) (xs ++ ys))
unfolding lines_within
lines-append zero xs ys h = refl
lines-append (suc f) xs ys h = go (take_line xs) refl (λ r. lines-append f r ys)
  where
    go :
        (o : Option (List ℕ × List ℕ))
        → take_line xs ≡ o
        → ((r : List ℕ)
            → length r ≤ f
            → complete_lines (r ++ ys)
              ≡ lines_within f r ++ complete_lines (drop (size (lines_within f r)) (r ++ ys)))
        → complete_lines (xs ++ ys)
          ≡ after f o ++ complete_lines (drop (size (after f o)) (xs ++ ys))
    go none e ih = refl
    go (some (l, r)) e ih =
        let (split, shorter) = take_line_split xs l r e in
        complete_lines-some (xs ++ ys) l (r ++ ys) (take_line-append xs ys l r e)
        ∙ ap (λ (ls : List (List ℕ)). l ∷ ls)
            (ih r (omega arith)
              ∙ ap (λ (t : List ℕ). lines_within f r ++ complete_lines t)
                  (sym (drop-append l (size (lines_within f r)) (r ++ ys))
                    ∙ ap (drop (length l + size (lines_within f r)))
                        (sym (append_assoc l r ys) ∙ ap (λ (t : List ℕ). t ++ ys) (sym split))))

drop-append_le : (n : ℕ) (xs ys : List ℕ) → n ≤ length xs → drop n (xs ++ ys) ≡ drop n xs ++ ys
drop-append_le zero xs ys h = refl
drop-append_le (suc n) [] ys h = absurd (omega arith)
drop-append_le (suc n) (x ∷ xs) ys h = drop-append_le n xs ys (omega arith)

drop-add : (m n : ℕ) (xs : List ℕ) → drop (m + n) xs ≡ drop n (drop m xs)
drop-add zero n xs = simp zero-add
drop-add (suc m) zero [] = simp suc-add
drop-add (suc m) (suc n) [] = simp suc-add
drop-add (suc m) n (x ∷ xs) = simp suc-add (drop-add m n xs)

-- A later read of a longer file goes on where the earlier one stopped.
resume :
    (bytes more : List ℕ) (o : ℕ)
    → o ≤ length bytes
    → new_lines (bytes ++ more) o
      ≡ new_lines bytes o ++ new_lines (bytes ++ more) (o + size (new_lines bytes o))
unfolding complete_lines
resume bytes more o h =
    let whole = drop-append_le o bytes more h in
    let read = drop o bytes in
    ap complete_lines whole
    ∙ lines-append (length read) read more (omega arith)
    ∙ ap (λ (t : List ℕ). complete_lines read ++ complete_lines t)
        (ap (drop (size (complete_lines read))) (sym whole)
          ∙ sym (drop-add o (size (complete_lines read)) (bytes ++ more)))

module _ (json_loads : List ℕ → Option EventRecord) where
  read_events-append :
      (a b : List (List ℕ))
      → read_events json_loads (a ++ b) ≡ read_events json_loads a ++ read_events json_loads b
  unfolding read_events
  read_events-append [] b = refl
  read_events-append (l ∷ ls) b = ground (arith, read_events-append ls b)

  -- The events of a longer file begin with those of the shorter one.
  pub read_events-resume :
      (bytes more : List ℕ) (o : ℕ)
      → o ≤ length bytes
      → read_events json_loads (new_lines (bytes ++ more) o)
        ≡ read_events json_loads (new_lines bytes o)
          ++ read_events json_loads (new_lines (bytes ++ more) (o + size (new_lines bytes o)))
  read_events-resume bytes more o h =
      ap (read_events json_loads) (resume bytes more o h) ∙ read_events-append (new_lines bytes o) _

  commit-cursor :
      (env : Env) (n : ℕ) (o : Result) (w : World) (led : Ledger) (appended : List EventRecord)
      → commit env n o ≡ saved w led appended
      → cursor led ≡ n
  unfolding commit
  commit-cursor env n (exited v) w led appended e = cc
  commit-cursor env n (running m s) w led appended e = ground arith

  -- The committed cursor is the offset that the read has consumed.
  committed :
      (env : Env) (bytes : List ℕ) (w w' : World) (led led' : Ledger) (appended : List EventRecord)
      → step json_loads env bytes w led ≡ saved w' led' appended
      → cursor led' ≡ cursor led + size (new_lines bytes (cursor led))
  unfolding step
  committed env bytes w w' led led' appended e =
      commit-cursor env _ (apply_all env _ _) w' led' appended e

  -- A step commits a cursor such that, whatever is appended to the stream afterwards, the events
  -- that the next step reads are exactly those that a single reading from the old cursor would
  -- give after the ones already applied: none is lost and none comes twice.
  pub step-resumes :
      (env : Env) (bytes more : List ℕ) (w w' : World) (led led' : Ledger)
      (appended : List EventRecord)
      → cursor led ≤ length bytes
      → step json_loads env bytes w led ≡ saved w' led' appended
      → read_events json_loads (new_lines (bytes ++ more) (cursor led))
        ≡ read_events json_loads (new_lines bytes (cursor led))
          ++ read_events json_loads (new_lines (bytes ++ more) (cursor led'))
  step-resumes env bytes more w w' led led' appended h e =
      read_events-resume bytes more (cursor led) h
      ∙ ap
          (λ (c : ℕ).
            read_events json_loads (new_lines bytes (cursor led))
            ++ read_events json_loads (new_lines (bytes ++ more) c))
          (sym (committed env bytes w w' led led' appended e))
