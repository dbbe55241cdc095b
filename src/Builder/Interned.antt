-- ===== src/Builder/Interned.antt =====
-- The keys that the builder of src/response.rs interns: every field holds the allocation of its key that the
-- set has.
pub mod Shares
use mpd_protocol.Prelude.{
  ℕ, zero, suc, ◌≡◌, refl, sym, ap, ◌∙◌, subst, Option, none, some, List, [], ◌∷◌, ◌++◌, equal_refl,
  All, All-append, length, codes, Bytes,
}
use mpd_protocol.Std.Utf8.{Str}
use mpd_protocol.Nom.Laws.{
  and_then, IResult, done, incomplete, error, failure, or_else, unrecoverable,
}
use mpd_protocol.Nom.Reference.{nom, tag}
use mpd_protocol.Crates.{Crates, CratesLaws, with_set, by_reference}
use mpd_protocol.Interner.{Arc, HashSetOps, HashSetLaws, InternedKeys, intern_key}
use mpd_protocol.Interner.Sharing.{text-intern_key, get-intern_key, intern_key-keeps}
use mpd_protocol.Parser.{
  Error, ParsedComponent, end_of_frame, end_of_response, error_response, field, binary_field,
  Component, plain, interned_field, component, parse, into_owned_error, apply, parse_error,
  parse_binary_field, key_value_field,
}
use mpd_protocol.Frame.{Slot, Frame}
use mpd_protocol.Response.{Response}
use mpd_protocol.Builder.{
  ResponseState, initial, in_progress, list_in_progress, on_field, on_binary, completed_frames,
  finish_frame, finish, finish_error, ParseResult, ok, err, panicked, out_of_fuel, ResponseBuilder,
  Round, continue_with, return_, payload, binary_round, dispatch, split_message, take_message,
  on_parsed, round, parse_loop, parse_buffer,
}

module _ {h : HashSetOps} where
  -- The set has this very allocation.
  abbrev pub KeyIn : InternedKeys h → Arc → Type 0
  KeyIn keys a = h.get keys.keys a.text ≡ some a

  abbrev pub SlotIn : InternedKeys h → Slot → Type 0
  SlotIn keys none = Unit {0}
  SlotIn keys (some (a, v)) = KeyIn keys a

  abbrev pub FrameIn : InternedKeys h → Frame → Type 0
  FrameIn keys f = All (SlotIn keys) f.fields

  abbrev pub StateIn : InternedKeys h → ResponseState → Type 0
  StateIn keys initial = Unit {0}
  StateIn keys (in_progress f) = FrameIn keys f
  StateIn keys (list_in_progress f fs) = FrameIn keys f × All (FrameIn keys) fs

  -- What the set had before it still has.
  abbrev pub Grows : InternedKeys h → InternedKeys h → Type 0
  Grows keys keys' = (k : Str) (a : Arc) → h.get keys.keys k ≡ some a → h.get keys'.keys k ≡ some a

  slots-Grows :
      (keys keys' : InternedKeys h) (fs : List Slot)
      → Grows keys keys'
      → All (SlotIn keys) fs
      → All (SlotIn keys') fs
  slots-Grows keys keys' [] grows i = tt
  slots-Grows keys keys' (none ∷ fs) grows (i, is) = (tt, slots-Grows keys keys' fs grows is)
  slots-Grows keys keys' (some (a, v) ∷ fs) grows (i, is) =
      (grows a.text a i, slots-Grows keys keys' fs grows is)

  pub frames-Grows :
      (keys keys' : InternedKeys h) (fs : List Frame)
      → Grows keys keys'
      → All (FrameIn keys) fs
      → All (FrameIn keys') fs
  frames-Grows keys keys' [] grows i = tt
  frames-Grows keys keys' (f ∷ fs) grows (i, is) =
      (slots-Grows keys keys' f.fields grows i, frames-Grows keys keys' fs grows is)

  pub state-Grows :
      (keys keys' : InternedKeys h) (s : ResponseState)
      → Grows keys keys'
      → StateIn keys s
      → StateIn keys' s
  state-Grows keys keys' initial grows i = tt
  state-Grows keys keys' (in_progress f) grows i = slots-Grows keys keys' f.fields grows i
  state-Grows keys keys' (list_in_progress f fs) grows (i, is) =
      (slots-Grows keys keys' f.fields grows i, frames-Grows keys keys' fs grows is)

  -- What a component brings is in the set.
  abbrev pub ComponentIn : InternedKeys h → ParsedComponent → Type 0
  ComponentIn keys (field k v) = KeyIn keys k
  ComponentIn keys _ = Unit {0}

  abbrev pub Fair : Component nom h → Type 0
  Fair c = (keys : InternedKeys h) → Grows keys (c keys).1 × ComponentIn (c keys).1 (c keys).0

  abbrev pub AllFair : IResult (Component nom h) → Type 0
  AllFair (done r c) = Fair c
  AllFair _ = Unit {0}

  or_else-AllFair :
      (r s : IResult (Component nom h)) → AllFair r → AllFair s → AllFair (or_else r s)
  or_else-AllFair (done r c) s i j = i
  or_else-AllFair incomplete s i j = tt
  or_else-AllFair error s i j = j
  or_else-AllFair failure s i j = tt

  mapped-AllFair :
      {A : Type 0} (f : A → Component nom h) (res : IResult A)
      → ((x : A) → Fair (f x))
      → AllFair (and_then res (λ x rest. done rest (f x)))
  mapped-AllFair f (done r x) fair = fair x
  mapped-AllFair f incomplete fair = tt
  mapped-AllFair f error fair = tt
  mapped-AllFair f failure fair = tt

  interned_field-Fair : (laws : HashSetLaws h) (kv : Str × Str) → Fair (interned_field nom h kv)
  interned_field-Fair laws (k, v) keys = (
    λ j a found. intern_key-keeps laws keys j k a found,
    ap (h.get (intern_key h keys k).1.keys) (text-intern_key laws keys k)
        ∙ get-intern_key laws keys k k
        ∙ rw (equal_refl k) refl,
  )

  abbrev mapped : {A : Type 0} → (A → Component nom h) → IResult A → IResult (Component nom h)
  mapped f res = and_then res (λ x rest. done rest (f x))

  pub component-AllFair : (laws : HashSetLaws h) (i : Bytes) → AllFair (component nom h i)
  unfolding component
  component-AllFair laws i =
      let ok_line = mapped (λ _. plain nom h end_of_response) (tag (codes "OK\n") i) in
      let list_ok_line = mapped (λ _. plain nom h end_of_frame) (tag (codes "list_OK\n") i) in
      let ack_line =
        mapped (λ e. plain nom h (error_response (into_owned_error e))) (parse_error nom i) in
      let section =
        mapped (λ bin. plain nom h (binary_field (length bin))) (parse_binary_field nom i) in
      let pair = mapped (interned_field nom h) (key_value_field nom i) in
      or_else-AllFair ok_line (or_else list_ok_line (or_else ack_line (or_else section pair)))
        (mapped-AllFair (λ _. plain nom h end_of_response) (tag (codes "OK\n") i)
          (λ x keys. (λ k a e. e, tt)))
        (or_else-AllFair list_ok_line (or_else ack_line (or_else section pair))
          (mapped-AllFair (λ _. plain nom h end_of_frame) (tag (codes "list_OK\n") i)
            (λ x keys. (λ k a e. e, tt)))
          (or_else-AllFair ack_line (or_else section pair)
            (mapped-AllFair (λ e. plain nom h (error_response (into_owned_error e)))
              (parse_error nom i) (λ x keys. (λ k a e. e, tt)))
            (or_else-AllFair section pair
              (mapped-AllFair (λ bin. plain nom h (binary_field (length bin)))
                (parse_binary_field nom i) (λ x keys. (λ k a e. e, tt)))
              (mapped-AllFair (interned_field nom h) (key_value_field nom i)
                (interned_field-Fair laws)))))

  abbrev pub ResultIn : InternedKeys h → ParseResult → Type 0
  ResultIn keys (ok (some response)) = All (FrameIn keys) response.frames
  ResultIn keys _ = Unit {0}

  pub field-StateIn :
      (keys : InternedKeys h) (k : Arc) (v : Str) (s : ResponseState)
      → KeyIn keys k
      → StateIn keys s
      → StateIn keys (on_field k v s)
  unfolding on_field
  field-StateIn keys k v initial i is = (i, tt)
  field-StateIn keys k v (in_progress f) i is = All-append (SlotIn keys) f.fields _ is (i, tt)
  field-StateIn keys k v (list_in_progress f fs) i (is, js) =
      (All-append (SlotIn keys) f.fields _ is (i, tt), js)

  pub binary-StateIn :
      (keys : InternedKeys h) (b : Bytes) (s : ResponseState)
      → StateIn keys s
      → StateIn keys (on_binary b s)
  unfolding on_binary
  binary-StateIn keys b initial is = tt
  binary-StateIn keys b (in_progress f) is = is
  binary-StateIn keys b (list_in_progress f fs) is = is

  pub frame_end-StateIn :
      (keys : InternedKeys h) (s : ResponseState) → StateIn keys s → StateIn keys (finish_frame s)
  unfolding finish_frame completed_frames
  frame_end-StateIn keys initial is = (tt, (tt, tt))
  frame_end-StateIn keys (in_progress f) is = (tt, (is, tt))
  frame_end-StateIn keys (list_in_progress f fs) (is, js) =
      (tt, All-append (FrameIn keys) fs (f ∷ []) js (is, tt))

  pub finish-In :
      (keys : InternedKeys h) (s : ResponseState)
      → StateIn keys s
      → All (FrameIn keys) (finish s).0.frames × StateIn keys (finish s).1
  unfolding finish
  finish-In keys initial is = ((tt, tt), tt)
  finish-In keys (in_progress f) is = ((is, tt), tt)
  finish-In keys (list_in_progress f fs) (is, js) = (js, tt)

  pub error-In :
      (keys : InternedKeys h) (e : Error) (s : ResponseState)
      → StateIn keys s
      → All (FrameIn keys) (finish_error e s).0.frames × StateIn keys (finish_error e s).1
  unfolding finish_error
  error-In keys e initial is = (tt, tt)
  error-In keys e (in_progress f) is = (tt, tt)
  error-In keys e (list_in_progress f fs) (is, js) = (js, tt)
