-- ===== src/Builder/Interned/Shares.antt =====
-- `ResponseBuilder::parse` of src/response.rs shares the allocations of keys.
use mpd_protocol.Prelude.{
  ℕ, zero, suc, ◌≡◌, sym, ap, ◌∙◌, Option, none, some, List, [], ◌∷◌, ◌++◌, All, All-append, length,
  Bytes,
}
use mpd_protocol.Nom.Laws.{IResult, done, incomplete, error, failure}
use mpd_protocol.Nom.Reference.{nom}
use mpd_protocol.Crates.{Crates, CratesLaws, with_set, by_reference}
use mpd_protocol.Interner.{Arc, HashSetOps, HashSetLaws, InternedKeys}
use mpd_protocol.Parser.{
  ParsedComponent, end_of_frame, end_of_response, error_response, field, binary_field, Component,
  component, parse, apply,
}
use mpd_protocol.Frame.{Slot, Frame}
use mpd_protocol.Builder.{
  ParseResult, ok, err, panicked, out_of_fuel, ResponseBuilder, Round, continue_with, return_,
  payload, binary_round, dispatch, split_message, take_message, on_parsed, round, parse_loop,
  parse_buffer,
}
use mpd_protocol.Builder.Interned.{
  KeyIn, SlotIn, FrameIn, StateIn, Grows, ComponentIn, AllFair, ResultIn, state-Grows,
  component-AllFair, field-StateIn, binary-StateIn, frame_end-StateIn, finish-In, error-In,
}

module _ {h : HashSetOps} where
  abbrev OutIn : InternedKeys h → ParseResult × ResponseBuilder (with_set h) × Bytes → Type 0
  OutIn keys (r, b, src) = Grows keys b.fields × StateIn b.fields b.state × ResultIn b.fields r

  module _ (laws : HashSetLaws h) where
    -- What a round leaves, next to the keys that were there before it.
    abbrev RoundIn : InternedKeys h → Round (with_set h) → Type 0
    RoundIn keys (continue_with b src) = Grows keys b.fields × StateIn b.fields b.state
    RoundIn keys (return_ r b src) =
        Grows keys b.fields × StateIn b.fields b.state × ResultIn b.fields r

    RoundIn-Grows :
        (keys keys' : InternedKeys h) (r : Round (with_set h))
        → Grows keys keys'
        → RoundIn keys' r
        → RoundIn keys r
    RoundIn-Grows keys keys' (continue_with b src) grows (more, is) =
        (λ k a e. more k a (grows k a e), is)
    RoundIn-Grows keys keys' (return_ r b src) grows (more, is, js) =
        (λ k a e. more k a (grows k a e), is, js)

    dispatch-In :
        (p : ParsedComponent) (msg : Bytes) (b : ResponseBuilder (with_set h)) (src : Bytes)
        → ComponentIn b.fields p
        → StateIn b.fields b.state
        → RoundIn b.fields (dispatch (with_set h) p msg b src)
    unfolding dispatch binary_round
    dispatch-In end_of_frame msg b src i is = (λ k a e. e, frame_end-StateIn b.fields b.state is)
    dispatch-In end_of_response msg b src i is =
        let (frames, state) = finish-In b.fields b.state is in (λ k a e. e, state, frames)
    dispatch-In (error_response e) msg b src i is =
        let (frames, state) = error-In b.fields e b.state is in (λ k a e. e, state, frames)
    dispatch-In (field k v) msg b src i is = (λ k a e. e, field-StateIn b.fields k v b.state i is)
    dispatch-In (binary_field n) msg b src i is = by_payload (payload (with_set h) msg n)
      where
        by_payload : (m : Option Bytes) → RoundIn b.fields (binary_round (with_set h) m b src)
        by_payload none = (λ k a e. e, is, tt)
        by_payload (some content) = (λ k a e. e, binary-StateIn b.fields content b.state is)

    round-In :
        (b : ResponseBuilder (with_set h)) (src : Bytes)
        → StateIn b.fields b.state
        → RoundIn b.fields (round (with_set h) b src)
    unfolding round on_parsed take_message parse
    round-In b src is = by_component (component nom h src) (component-AllFair laws src)
      where
        by_split :
            (m : Option (Bytes × Bytes)) (p : ParsedComponent) (keys : InternedKeys h)
            → Grows b.fields keys
            → ComponentIn keys p
            → RoundIn b.fields
                (take_message (with_set h) m p (record { fields = keys; state = b.state }) src)
        by_split none p keys grows i = (grows, state-Grows b.fields keys b.state grows is, tt)
        by_split (some (msg, rest)) p keys grows i =
            RoundIn-Grows b.fields keys
              (dispatch (with_set h) p msg (record { fields = keys; state = b.state }) rest) grows
              (dispatch-In p msg (record { fields = keys; state = b.state }) rest i
                (state-Grows b.fields keys b.state grows is))

        by_component :
            (res : IResult (Component nom h))
            → AllFair res
            → RoundIn b.fields (on_parsed (with_set h) (apply nom h b.fields res) b.state src)
        by_component (done r c) fair =
            let (grows, brings) = fair b.fields in
            by_split (split_message (with_set h) src r) (c b.fields).0 (c b.fields).1 grows brings
        by_component incomplete fair = (λ k a e. e, is, tt)
        by_component error fair = (λ k a e. e, is, tt)
        by_component failure fair = (λ k a e. e, is, tt)

    loop-OutIn :
        (fuel : ℕ) (b : ResponseBuilder (with_set h)) (src : Bytes)
        → StateIn b.fields b.state
        → OutIn b.fields (parse_loop (with_set h) fuel b src)
    unfolding parse_loop
    loop-OutIn zero b src is = (λ k a e. e, is, tt)
    loop-OutIn (suc fuel) b [] is = (λ k a e. e, is, tt)
    loop-OutIn (suc fuel) b (x ∷ src) is =
        by_round (round (with_set h) b (x ∷ src)) (round-In b (x ∷ src) is)
          (λ b' src' js. loop-OutIn fuel b' src' js)
      where
        by_round :
            (r : Round (with_set h))
            → RoundIn b.fields r
            → ((b' : ResponseBuilder (with_set h)) (src' : Bytes)
                → StateIn b'.fields b'.state
                → OutIn b'.fields (parse_loop (with_set h) fuel b' src'))
            → let end : ParseResult × ResponseBuilder (with_set h) × Bytes = elim r [
              | continue_with b' src' ↦ parse_loop (with_set h) fuel b' src'
              | return_ r b' src' ↦ (r, b', src')
            ] in
              OutIn b.fields end
        by_round (continue_with b' src') (grows, js) ih =
            let (more, ks, ls) = ih b' src' js in (λ k a e. more k a (grows k a e), ks, ls)
        by_round (return_ r b' src') ends ih = ends

-- The allocations of the keys of the fields, in order.
abbrev pub slot_keys : List Slot → List Arc
slot_keys [] = []
slot_keys (none ∷ fs) = slot_keys fs
slot_keys (some (a, v) ∷ fs) = a ∷ slot_keys fs

abbrev pub frame_keys : List Frame → List Arc
frame_keys [] = []
frame_keys (f ∷ fs) = slot_keys f.fields ++ frame_keys fs

-- Keys with the same text are one allocation.
abbrev pub Share : List Arc → Type 0
Share ks = All (λ a. All (λ a'. a.text ≡ a'.text → a ≡ a') ks) ks

abbrev pub ResultShares : ParseResult → Type 0
ResultShares (ok (some response)) = Share (frame_keys response.frames)
ResultShares _ = Unit {0}

module _ (h : HashSetOps) (keys : InternedKeys h) where
  slot_keys_in : (fs : List Slot) → All (SlotIn keys) fs → All (KeyIn keys) (slot_keys fs)
  slot_keys_in [] is = tt
  slot_keys_in (none ∷ fs) (i, is) = slot_keys_in fs is
  slot_keys_in (some (a, v) ∷ fs) (i, is) = (i, slot_keys_in fs is)

  pub frame_keys_in : (fs : List Frame) → All (FrameIn keys) fs → All (KeyIn keys) (frame_keys fs)
  frame_keys_in [] is = tt
  frame_keys_in (f ∷ fs) (i, is) =
      All-append (KeyIn keys) (slot_keys f.fields) (frame_keys fs) (slot_keys_in f.fields i)
        (frame_keys_in fs is)

  each_share :
      (a : Arc) (ks : List Arc)
      → KeyIn keys a
      → All (KeyIn keys) ks
      → All (λ a'. a.text ≡ a'.text → a ≡ a') ks
  each_share a [] i is = tt
  each_share a (a' ∷ ks) i (j, js) =
      (λ same. some_inj (sym i ∙ ap (h.get keys.keys) same ∙ j), each_share a ks i js)
    where
      some_inj : {x y : Arc} → some x ≡ some y → x ≡ y
      some_inj e = cc

  pub Share-in :
      (ks all : List Arc)
      → All (KeyIn keys) ks
      → All (KeyIn keys) all
      → All (λ a. All (λ a'. a.text ≡ a'.text → a ≡ a') all) ks
  Share-in [] all is js = tt
  Share-in (a ∷ ks) all (i, is) js = (each_share a all i js, Share-in ks all is js)

  result_shares : (r : ParseResult) → ResultIn keys r → ResultShares r
  result_shares (ok (some response)) is =
      let all = frame_keys_in response.frames is in
      Share-in (frame_keys response.frames) (frame_keys response.frames) all all
  result_shares (ok none) is = tt
  result_shares (err e) is = tt
  result_shares panicked is = tt
  result_shares out_of_fuel is = tt

-- A call keeps the keys of the state and of its response in the set, and every allocation that it had.
pub parse_buffer-In :
    {c : Crates} (b : ResponseBuilder c) (src : Bytes)
    → CratesLaws c
    → StateIn b.fields b.state
    → let (result, b', left) = parse_buffer c b src in
      Grows b.fields b'.fields × StateIn b'.fields b'.state × ResultIn b'.fields result
unfolding parse_buffer
parse_buffer-In {c} b src laws is =
    by_reference
      (λ k.
        (b : ResponseBuilder k)
        → StateIn b.fields b.state
        → let (result, b', left) = parse_buffer k b src in
          Grows b.fields b'.fields × StateIn b'.fields b'.state × ResultIn b'.fields result)
      laws (λ set b is. loop-OutIn set (suc (length src)) b src is) b is

-- At a state whose keys are all interned, as a new builder's are, a call of `ResponseBuilder::parse` keeps
-- that so, and keeps every allocation that the set had. In a response that it returns, fields whose keys
-- have the same text share one allocation, across all frames.
pub parse_buffer-ResultShares :
    {c : Crates} (b : ResponseBuilder c) (src : Bytes)
    → CratesLaws c
    → StateIn b.fields b.state
    → let (result, b', left) = parse_buffer c b src in
      ResultShares result × StateIn b'.fields b'.state × Grows b.fields b'.fields
parse_buffer-ResultShares {c} b src laws is =
    let (grows, js, ks) = parse_buffer-In b src laws is in
    let (result, b', left) = parse_buffer c b src in
    (result_shares c.set b'.fields result ks, js, grows)
