-- ===== src/Equality/Laws.antt =====
-- The derived comparisons (src/response.rs, src/response/frame.rs, src/command.rs) against equality: what
-- they compare, and what they do not see.
use mpd_protocol.Prelude.{
  ◌≡◌, ◌↔◌, refl, sym, ap, ◌∙◌, Bool, true, ◌&&◌, Option, none, some, List, [], ◌∷◌, map, arith,
  ==_iff, equal_iff, Bytes,
}
use mpd_protocol.Std.Utf8.{Str}
use mpd_protocol.Parser.{Error}
use mpd_protocol.Frame.{Slot, Frame}
use mpd_protocol.Response.{Response}
use mpd_protocol.Equality.{
  PartialEq, nat_eq, text_eq, arc_eq, option_eq, list_eq, pair_eq, slot_eq, frame_eq, error_eq,
  response_eq, command_eq, command_list_eq, command_error_eq,
}

-- The comparison is equality of what is seen.
pub record Compares {A View : Type 0} (e : PartialEq A) (view : A → View) : Type 0 where
  pub eq_iff : (a b : A) → (e.eq a b ≡ true) ↔ (view a ≡ view b)

and_iff : (a b : Bool) → ((a && b) ≡ true) ↔ ((a ≡ true) × (b ≡ true))
and_iff a b = ground arith

abbrev pub map_option : {A B : Type 0} → (A → B) → Option A → Option B
map_option f none = none
map_option f (some a) = some (f a)

nat-Compares : Compares nat_eq (λ n. n)
nat-Compares = record { eq_iff = ==_iff }

text-Compares : Compares text_eq (λ s. s)
text-Compares = record { eq_iff = equal_iff }

arc-Compares : Compares arc_eq (λ a. a.text)
arc-Compares = record { eq_iff = λ a b. equal_iff a.text b.text }

module _ {A View : Type 0} {e : PartialEq A} {view : A → View} (h : Compares e view) where
  option-Compares : Compares (option_eq e) (map_option view)
  option-Compares = record { eq_iff = by_cases }
    where
      by_cases :
          (a b : Option A) → ((option_eq e).eq a b ≡ true) ↔ (map_option view a ≡ map_option view b)
      by_cases none none = (λ _. refl, λ _. refl)
      by_cases none (some b) = (λ k. cc, λ k. cc)
      by_cases (some a) none = (λ k. cc, λ k. cc)
      by_cases (some a) (some b) = (λ k. ap some ((h.eq_iff a b).0 k), λ k. (h.eq_iff a b).1 (cc k))

  eq_lists_iff : (as_ bs : List A) → ((list_eq e).eq as_ bs ≡ true) ↔ (map view as_ ≡ map view bs)
  eq_lists_iff [] [] = (λ _. refl, λ _. refl)
  eq_lists_iff [] (b ∷ bs) = (λ k. cc, λ k. cc)
  eq_lists_iff (a ∷ as_) [] = (λ k. cc, λ k. cc)
  eq_lists_iff (a ∷ as_) (b ∷ bs) = (
    λ k.
        let (first, others) = (and_iff (e.eq a b) ((list_eq e).eq as_ bs)).0 k in
        rw ((h.eq_iff a b).0 first, (eq_lists_iff as_ bs).0 others) refl,
    λ k.
        let first : view a ≡ view b = cc k in
        let others : map view as_ ≡ map view bs = cc k in
        (and_iff (e.eq a b) ((list_eq e).eq as_ bs)).1
          ((h.eq_iff a b).1 first, (eq_lists_iff as_ bs).1 others),
  )

  list-Compares : Compares (list_eq e) (map view)
  list-Compares = record { eq_iff = eq_lists_iff }

-- Two comparisons, one after the other.
both :
    {A B : Type 0} {p q : Bool} {a b : A} {c d : B}
    → (p ≡ true) ↔ (a ≡ b)
    → (q ≡ true) ↔ (c ≡ d)
    → ((p && q) ≡ true) ↔ ◌≡◌ {A = A × B} (a, c) (b, d)
both {p = p} {q = q} h k = (
  λ e. let (hp, hq) = (and_iff p q).0 e in rw (h.0 hp, k.0 hq) refl,
  λ e. (and_iff p q).1 (h.1 (ap (λ t. t.0) e), k.1 (ap (λ t. t.1) e)),
)

pair-Compares :
    {A B V W : Type 0} {e : PartialEq A} {f : PartialEq B} {view : A → V} {view' : B → W}
    → Compares e view
    → Compares f view'
    → Compares {View = V × W} (pair_eq e f) (λ (a, b). (view a, view' b))
pair-Compares h k = record { eq_iff = λ (a, b) (c, d). both (h.eq_iff a c) (k.eq_iff b d) }

-- What a comparison of responses sees: all but the addresses of the keys. A removed field is seen.
abbrev pub SeenFrame : Type 0
SeenFrame = List (Option (Str × Str)) × Option Bytes

abbrev pub seen_slot : Slot → Option (Str × Str)
seen_slot = map_option (λ (k, v). (k.text, v))

abbrev pub seen_frame : Frame → SeenFrame
seen_frame f = (map seen_slot f.fields, f.binary)

abbrev pub SeenResponse : Type 0
SeenResponse = List SeenFrame × Option Error

abbrev pub seen_response : Response → SeenResponse
seen_response r = (map seen_frame r.frames, r.error)

slot-Compares : Compares slot_eq seen_slot
slot-Compares = option-Compares (pair-Compares arc-Compares text-Compares)

map_id : {A : Type 0} (xs : List A) → map (λ x. x) xs ≡ xs
map_id [] = refl
map_id (x ∷ xs) = ap (λ ys. x ∷ ys) (map_id xs)

map_option_id : {A : Type 0} (o : Option A) → map_option (λ x. x) o ≡ o
map_option_id none = refl
map_option_id (some a) = refl

-- The same, seen in another way.
seen_as :
    {A V W : Type 0} {e : PartialEq A} {view : A → V} {view' : A → W} (f : V → W) (g : W → V)
    → ((a : A) → f (view a) ≡ view' a)
    → ((a : A) → g (view' a) ≡ view a)
    → Compares e view
    → Compares e view'
seen_as f g there back h = record {
  eq_iff = λ a b. (
    λ k. sym (there a) ∙ ap f ((h.eq_iff a b).0 k) ∙ there b,
    λ k. (h.eq_iff a b).1 (sym (back a) ∙ ap g k ∙ back b),
  );
}

-- Where all of it is seen.
module _ {A : Type 0} {e : PartialEq A} (h : Compares e (λ a. a)) where
  option_all : Compares (option_eq e) (λ o. o)
  option_all =
      seen_as (λ o. o) (λ o. o) map_option_id (λ o. sym (map_option_id o)) (option-Compares h)

  list_all : Compares (list_eq e) (λ as_. as_)
  list_all = seen_as (λ as_. as_) (λ as_. as_) map_id (λ as_. sym (map_id as_)) (list-Compares h)

pub frame-Compares : Compares frame_eq seen_frame
frame-Compares = record {
  eq_iff = λ f g.
      both ((list-Compares slot-Compares).eq_iff f.fields g.fields)
        ((option_all text-Compares).eq_iff f.binary g.binary);
}

error-Compares : Compares error_eq (λ e. e)
error-Compares =
    seen_as
      (λ (code, (index, (command, message))). record {
        code = code;
        command_index = index;
        current_command = command;
        message = message;
      })
      (λ e. (e.code, (e.command_index, (e.current_command, e.message)))) (λ e. refl) (λ e. refl)
      record {
        eq_iff = λ e f. both (==_iff e.code f.code) (
            both (==_iff e.command_index f.command_index) (
              both ((option_all text-Compares).eq_iff e.current_command f.current_command)
                (equal_iff e.message f.message)));
      }

pub response-Compares : Compares response_eq seen_response
response-Compares = record {
  eq_iff = λ r s.
      both ((list-Compares frame-Compares).eq_iff r.frames s.frames)
        ((option_all error-Compares).eq_iff r.error s.error);
}

command-Compares : Compares command_eq (λ c. c)
command-Compares =
    seen_as (λ (base, args). record { base = base; args = args }) (λ c. (c.base, c.args))
      (λ c. refl) (λ c. refl)
      record {
        eq_iff =
            λ c d. both (equal_iff c.base d.base) ((list_all text-Compares).eq_iff c.args d.args);
      }

pub command_list-Compares : Compares command_list_eq (λ l. l)
command_list-Compares =
    seen_as (λ (head, tail). record { head = head; tail = tail }) (λ l. (l.head, l.tail))
      (λ l. refl) (λ l. refl)
      record {
        eq_iff = λ l m.
            both (command-Compares.eq_iff l.head m.head)
              ((list_all command-Compares).eq_iff l.tail m.tail);
      }
