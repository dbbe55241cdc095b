-- ===== src/Response/Iteration.antt =====
-- The iterators over a response's frames, from both ends, and their exact size.
use mpd_protocol.Prelude.{
  suc, ◌+◌, ◌≡◌, refl, sym, ap, ◌∙◌, Bool, true, false, Option, none, some, List, [], ◌∷◌, ◌++◌,
  ◌-◌, ◌⊎◌, inl, inr, append_assoc, append-nil, arith, map, length, length-append, if◌then◌else◌,
}
use mathlib.Core.List.{reverse, reverse-reverse, reverse-cons, map-append}
use mpd_protocol.Frame.{Frame}
use mpd_protocol.Parser.{Error}
use mpd_protocol.Frame.Iteration.{to_list}
use mpd_protocol.Response.{
  Response, FrameResult, ok, err, Frames, frames_iter, next, next_back, size_hint, is_some,
  last_frame, next_back_frame,
}

-- What is left to yield: the frames, and the error at the end.
abbrev pub items : Frames → List FrameResult
items it = map ok it.frames ++ map err (to_list it.error)

items-next_frame :
    (fs : List Frame) (e : Option Error)
    → map ok fs ++ map err (to_list e)
      ≡ to_list (next (record { frames = fs; error = e })).0
        ++ items (next (record { frames = fs; error = e })).1
unfolding next
items-next_frame (f ∷ fs) e = refl
items-next_frame [] none = refl
items-next_frame [] (some e) = refl

-- `next` takes the first item off.
pub next-items : (it : Frames) → items it ≡ to_list (next it).0 ++ items (next it).1
next-items it = items-next_frame it.frames it.error

items-last_frame :
    (l : List Frame) → map ok (reverse l) ++ [] ≡ items (last_frame l).1 ++ to_list (last_frame l).0
unfolding last_frame
items-last_frame [] = refl
items-last_frame (f ∷ l) =
    append-nil _
    ∙ ap (map ok) (reverse-cons f l)
    ∙ map-append ok (reverse l) (f ∷ [])
    ∙ sym (ap (λ xs. xs ++ ok f ∷ []) (append-nil (map ok (reverse l))))

items-next_back_frame :
    (fs : List Frame) (e : Option Error)
    → map ok fs ++ map err (to_list e)
      ≡ items (next_back_frame fs e).1 ++ to_list (next_back_frame fs e).0
unfolding next_back_frame
items-next_back_frame fs (some e) = rw append-nil
items-next_back_frame fs none = rw reverse-reverse at (items-last_frame (reverse fs))

-- `next_back` takes the last item off.
pub next_back-items : (it : Frames) → items it ≡ items (next_back it).1 ++ to_list (next_back it).0
unfolding next_back
next_back-items it = items-next_back_frame it.frames it.error

length-map_ok : (fs : List Frame) → length (map ok fs) ≡ length fs
length-map_ok [] = refl
length-map_ok (f ∷ fs) = ap suc (length-map_ok fs)

length-items :
    (fs : List Frame) (e : Option Error)
    → length (map ok fs ++ map err (to_list e)) ≡ length fs + (if is_some e then 1 else 0)
length-items fs none = omega (arith, length-append {0} (map ok fs) [], length-map_ok fs)
length-items fs (some e) =
    omega (arith, length-append {0} (map ok fs) (err e ∷ []), length-map_ok fs)

-- `size_hint` is exact: both bounds are the number of items left.
pub size_hint-items : (it : Frames) → size_hint it ≡ (length (items it), some (length (items it)))
unfolding size_hint
size_hint-items it = rw (length-items it.frames it.error)

-- Calls of `next` (true) and `next_back` (false) in any order: the items that came from the front,
-- those that came from the back, in the order of the response, and what is left.
pub record Drained : Type 0 where
  pub front : List FrameResult
  pub left : Frames
  pub back : List FrameResult

pub drain : List Bool → Frames → Drained
drain [] it = record { front = []; left = it; back = [] }
drain (true ∷ calls) it =
    let (item, it') = next it in
    let d = drain calls it' in record d { front = to_list item ++ d.front }
drain (false ∷ calls) it =
    let (item, it') = next_back it in
    let d = drain calls it' in record d { back = d.back ++ to_list item }

drain-items :
    (calls : List Bool) (it : Frames)
    → (drain calls it).front ++ (items (drain calls it).left ++ (drain calls it).back) ≡ items it
unfolding drain
drain-items [] it = append-nil (items it)
drain-items (true ∷ calls) it =
    append_assoc (to_list (next it).0) _ _
    ∙ ap (λ xs. to_list (next it).0 ++ xs) (drain-items calls (next it).1)
    ∙ sym (next-items it)
drain-items (false ∷ calls) it =
    let d = drain calls (next_back it).1 in
    ap (λ xs. d.front ++ xs) (sym (append_assoc (items d.left) d.back (to_list (next_back it).0)))
    ∙ sym (append_assoc d.front (items d.left ++ d.back) (to_list (next_back it).0))
    ∙ ap (λ xs. xs ++ to_list (next_back it).0) (drain-items calls (next_back it).1)
    ∙ sym (next_back-items it)

-- `next` takes one item off while any is left.
next-size :
    (fs : List Frame) (e : Option Error)
    → length (items (next (record { frames = fs; error = e })).1)
      ≡ length (map ok fs ++ map err (to_list e)) - 1
unfolding next
next-size (f ∷ fs) e = omega arith
next-size [] none = refl
next-size [] (some e) = refl

last_frame-size : (l : List Frame) → (l ≡ []) ⊎ (length (to_list (last_frame l).0) ≡ 1)
unfolding last_frame
last_frame-size [] = inl refl
last_frame-size (f ∷ l) = inr refl

next_back_frame-size :
    (fs : List Frame) (e : Option Error)
    → (map ok fs ++ map err (to_list e) ≡ []) ⊎ (length (to_list (next_back_frame fs e).0) ≡ 1)
unfolding next_back_frame
next_back_frame-size fs (some e) = inr refl
next_back_frame-size fs none = elim (last_frame-size (reverse fs)) [
  | inl empty ↦
      let no_frames : fs ≡ [] = sym (reverse-reverse fs) ∙ ap reverse empty in
      inl (ap (λ l. map ok l ++ []) no_frames)
  | inr one ↦ inr one
]

-- So does `next_back`.
next_back-size : (it : Frames) → length (items (next_back it).1) ≡ length (items it) - 1
unfolding next_back
next_back-size it =
    let split =
      ap length (next_back-items it)
      ∙ length-append {0} (items (next_back it).1) (to_list (next_back it).0) in
    elim (next_back_frame-size it.frames it.error) [
      | inl empty ↦ omega (arith, split, ap length empty)
      | inr one ↦ omega (arith, split, one)
    ]

drain-size :
    (calls : List Bool) (it : Frames)
    → length (items (drain calls it).left) ≡ length (items it) - length calls
unfolding drain
drain-size [] it = omega arith
drain-size (true ∷ calls) it =
    omega (arith, drain-size calls (next it).1, next-size it.frames it.error)
drain-size (false ∷ calls) it = omega (arith, drain-size calls (next_back it).1, next_back-size it)

-- In whatever order the two ends of a response's iterator are called, what came from the front, what is
-- left and what came from the back are, one behind the other, the frames in order and the error last; and
-- each call takes one of these items as long as any is left: with `k` calls, `k` items fewer are left, and
-- none with as many calls as items.
pub drain-frames_iter :
    (calls : List Bool) (r : Response)
    → let d = drain calls (frames_iter r) in
      (d.front ++ (items d.left ++ d.back) ≡ map ok r.frames ++ map err (to_list r.error))
      × (length (items d.left)
          ≡ length (map ok r.frames ++ map err (to_list r.error)) - length calls)
drain-frames_iter calls r = (drain-items calls (frames_iter r), drain-size calls (frames_iter r))
