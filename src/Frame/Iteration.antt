-- ===== src/Frame/Iteration.antt =====
-- The iterators of a frame, from both ends.
use mpd_protocol.Prelude.{
  ◌≡◌, refl, sym, ap, ◌∙◌, Bool, true, false, Option, none, some, List, [], ◌∷◌, ◌++◌, append_assoc,
  append-nil,
}
use mathlib.Core.List.{reverse, reverse-reverse, reverse-cons}
use mpd_protocol.Std.Utf8.{Str}
use mpd_protocol.Frame.{Fields, next, next_back, next_reversed, collect}

pub collect-append : (a b : Fields) → collect (a ++ b) ≡ collect a ++ collect b
collect-append [] b = refl
collect-append (none ∷ a) b = collect-append a b
collect-append (some (k, v) ∷ a) b = ap (λ xs. (k.text, v) ∷ xs) (collect-append a b)

abbrev pub to_list {ℓ} : {A : Type ℓ} → Option A → List A
to_list none = []
to_list (some a) = a ∷ []

-- `next` takes the first item off, and yields nothing only when none is left.
pub next-collect : (it : Fields) → collect it ≡ to_list (next it).0 ++ collect (next it).1
unfolding next
next-collect [] = refl
next-collect (none ∷ it) = next-collect it
next-collect (some (k, v) ∷ it) = refl

next-none : (it : Fields) → (next it).0 ≡ none → collect it ≡ []
unfolding next
next-none [] h = refl
next-none (none ∷ it) h = next-none it h
next-none (some (k, v) ∷ it) h = cc

collect-reverse :
    (l : Fields)
    → collect (reverse l) ≡ collect (reverse (next_reversed l).1) ++ to_list (next_reversed l).0
unfolding next_reversed
collect-reverse [] = refl
collect-reverse (none ∷ l) =
    ap collect (reverse-cons none l)
    ∙ collect-append (reverse l) (none ∷ [])
    ∙ append-nil (collect (reverse l))
    ∙ collect-reverse l
collect-reverse (some (k, v) ∷ l) =
    ap collect (reverse-cons (some (k, v)) l) ∙ collect-append (reverse l) (some (k, v) ∷ [])

-- `next_back` takes the last item off.
pub next_back-collect :
    (it : Fields) → collect it ≡ collect (next_back it).1 ++ to_list (next_back it).0
unfolding next_back
next_back-collect it = rw reverse-reverse at (collect-reverse (reverse it))

reversed_none : (l : Fields) → (next_reversed l).0 ≡ none → (next_reversed l).1 ≡ []
unfolding next_reversed
reversed_none [] h = refl
reversed_none (none ∷ l) h = reversed_none l h
reversed_none (some (k, v) ∷ l) h = cc

next_back-none : (it : Fields) → (next_back it).0 ≡ none → collect it ≡ []
next_back-none it h =
    next_back-collect it
    ∙ rw (h, append-nil) (unfold next_back in rw (reversed_none (reverse it) h))

-- Calls of `next` (true) and `next_back` (false) in any order: the items that came from the front,
-- those that came from the back, in the order of the frame, and what is left.
pub record Drained : Type 0 where
  pub front : List (Str × Str)
  pub left : Fields
  pub back : List (Str × Str)

pub drain : List Bool → Fields → Drained
drain [] it = record { front = []; left = it; back = [] }
drain (true ∷ calls) it =
    let (item, it') = next it in
    let d = drain calls it' in record d { front = to_list item ++ d.front }
drain (false ∷ calls) it =
    let (item, it') = next_back it in
    let d = drain calls it' in record d { back = d.back ++ to_list item }

-- In whatever order the two ends are called, every field comes exactly once and in order: the items
-- from the front, those left and those from the back are the fields of the frame.
pub drain-collect :
    (calls : List Bool) (it : Fields)
    → (drain calls it).front ++ (collect (drain calls it).left ++ (drain calls it).back)
      ≡ collect it
unfolding drain
drain-collect [] it = append-nil (collect it)
drain-collect (true ∷ calls) it =
    append_assoc (to_list (next it).0) _ _
    ∙ ap (λ xs. to_list (next it).0 ++ xs) (drain-collect calls (next it).1)
    ∙ sym (next-collect it)
drain-collect (false ∷ calls) it =
    let d = drain calls (next_back it).1 in
    let item = to_list (next_back it).0 in
    simp (← append_assoc) (
      rw (append_assoc d.front (collect d.left) d.back, drain-collect calls (next_back it).1)
        (sym (next_back-collect it)))
