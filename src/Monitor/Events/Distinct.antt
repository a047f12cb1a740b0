-- ===== src/Monitor/Events/Distinct.antt =====
-- The list of subjects that a choice of event types gives.

use mathlib.Core.List.{Sublist}
use mathlib.Core.List.Sublist
use mathlib.Core.Option.{some-injective}
use text.Mathlib.Text.{◌==◌ as str_eq}
use text.Mathlib.TextEquality.{eq_iff}
use nats_desktop.Base.{
  Bool, List, Option, String, [], append-nil, append_assoc, arith, false, if◌then◌else◌, none, refl,
  some, subst, sym, true, ◌++◌, ◌∙◌, ◌∷◌, ◌≡◌,
}
use nats_desktop.Monitor.Events.{
  contains, event_subjects, gather, js_prefix, next_subject, subject_of,
}

abbrev pub Distinct : List String → Type 0
Distinct [] = Unit
Distinct (s ∷ l) = (contains s l ≡ false) × Distinct l

-- Every type has a subject, which is in the list.
abbrev pub AllIn : (String → Option String) → List String → List String → Type 0
AllIn name [] out = Unit
AllIn name (t ∷ types) out =
    ((s : String) × (name t ≡ some s) × (contains s out ≡ true)) × AllIn name types out

abbrev add_known : Option String → List String → List String
add_known none l = l
add_known (some s) l = s ∷ l

-- The subjects of the types, one for each that has one.
unfoldable pub known : (String → Option String) → List String → List String
known name [] = []
known name (t ∷ types) = add_known (name t) (known name types)

contains-append :
    (s : String) (l m : List String) → contains s l ≡ true → contains s (l ++ m) ≡ true
unfolding contains
contains-append s [] m h = cc
contains-append s (t ∷ l) m h = let r = contains-append s l m in ground (arith, h, r)

contains_last : (s : String) (l : List String) → contains s (l ++ s ∷ []) ≡ true
unfolding contains
contains_last s [] = let e = (eq_iff s s).1 refl in ground (arith, e)
contains_last s (t ∷ l) = let r = contains_last s l in ground (arith, r)

contains_other :
    (x s : String) (l : List String)
    → contains x l ≡ false
    → str_eq x s ≡ false
    → contains x (l ++ s ∷ []) ≡ false
unfolding contains
contains_other x s [] h d = ground (arith, d)
contains_other x s (t ∷ l) h d = let r = contains_other x s l in ground (arith, h, d, r)

str_eq_comm : (a b : String) → str_eq a b ≡ false → str_eq b a ≡ false
str_eq_comm a b h = ground (arith, h, eq_iff a b, eq_iff b a)

Distinct-append :
    (l : List String) (s : String) → Distinct l → contains s l ≡ false → Distinct (l ++ s ∷ [])
unfolding contains
Distinct-append [] s d h = (refl, tt)
Distinct-append (x ∷ l) s (n, d) h =
    let a : str_eq s x ≡ false = ground (arith, h) in
    let b : contains s l ≡ false = ground (arith, h) in
    (contains_other x s l n (str_eq_comm s x a), Distinct-append l s d b)

-- What the loop gives, from the subjects that it has so far.
record Gathered (name : String → Option String) (types out0 out : List String) : Type 0 where
  pub fresh : List String
  pub split : out ≡ out0 ++ fresh
  pub sub : Sublist fresh (known name types)
  pub distinct : Distinct out
  pub all : AllIn name types out

module _ (name : String → Option String) (t : String) (types out : List String) where
  abbrev Rest : Type 0
  Rest =
      (out0 : List String)
      → Distinct out0
      → gather name types out0 ≡ some out
      → Gathered name types out0 out

  -- A subject that the list has already.
  again :
      (s : String) (out0 : List String)
      → name t ≡ some s
      → contains s out0 ≡ true
      → Gathered name types out0 out
      → Gathered name (t ∷ types) out0 out
  unfolding known
  again s out0 e c g = record {
    fresh = g.fresh;
    split = g.split;
    sub = rw e (Sublist.cons s g.sub);
    distinct = g.distinct;
    all = ((s, e, rw g.split (contains-append s out0 g.fresh c)), g.all);
  }

  -- A new one.
  another :
      (s : String) (out0 : List String)
      → name t ≡ some s
      → Gathered name types (out0 ++ s ∷ []) out
      → Gathered name (t ∷ types) out0 out
  unfolding known
  another s out0 e g = record {
    fresh = s ∷ g.fresh;
    split = g.split ∙ append_assoc out0 (s ∷ []) g.fresh;
    sub = rw e (Sublist.cons-cons s g.sub);
    distinct = g.distinct;
    all = (
      (s, e, rw g.split (contains-append s (out0 ++ s ∷ []) g.fresh (contains_last s out0))),
      g.all,
    );
  }

  chosen :
      (s : String) (out0 : List String) (c : Bool)
      → name t ≡ some s
      → contains s out0 ≡ c
      → Distinct out0
      → (if c then gather name types out0 else gather name types (out0 ++ s ∷ [])) ≡ some out
      → Rest
      → Gathered name (t ∷ types) out0 out
  chosen s out0 true e c d h rest = again s out0 e c (rest out0 d h)
  chosen s out0 false e c d h rest =
      another s out0 e (rest (out0 ++ s ∷ []) (Distinct-append out0 s d c) h)

  next-Gathered :
      (o : Option String) (out0 : List String)
      → name t ≡ o
      → Distinct out0
      → next_subject o out0 (gather name types) ≡ some out
      → Rest
      → Gathered name (t ∷ types) out0 out
  unfolding next_subject
  next-Gathered none out0 e d h rest = cc
  next-Gathered (some s) out0 e d h rest = chosen s out0 (contains s out0) e refl d h rest

module _ (name : String → Option String) where
  gathered :
      (types out0 out : List String)
      → Distinct out0
      → gather name types out0 ≡ some out
      → Gathered name types out0 out
  unfolding gather known
  gathered [] out0 out d h =
      let e = some-injective out0 out h in
      record {
        fresh = [];
        split = sym e ∙ sym (append-nil out0);
        sub = Sublist.refl [];
        distinct = subst Distinct e d;
        all = tt;
      }
  gathered (t ∷ types) out0 out d h =
      next-Gathered name t types out (name t) out0 refl d h (λ x y z. gathered types x out y z)

-- Every type is a known one.
abbrev pub AllKnown : (String → Option String) → List String → Type 0
AllKnown name [] = Unit
AllKnown name (t ∷ types) = ((s : String) × (name t ≡ some s)) × AllKnown name types

either :
    (c : Bool) (f : List String → Option (List String)) (x y : List String)
    → ((l : List String) → (out : List String) × (f l ≡ some out))
    → (out : List String) × ((if c then f x else f y) ≡ some out)
either true f x y h = h x
either false f x y h = h y

gathers :
    (name : String → Option String) (types : List String)
    → AllKnown name types
    → (out0 : List String) → (out : List String) × (gather name types out0 ≡ some out)
unfolding gather next_subject
gathers name [] k out0 = (out0, refl)
gathers name (t ∷ types) ((s, e), k) out0 =
    let (out, h) =
      either (contains s out0) (gather name types) out0 (out0 ++ s ∷ []) (gathers name types k) in
    (out, rw e h)

-- When every type that is asked for is a known one, `EventSubjects` gives a list of subjects: the
-- subject of every type is in it, it has no subject twice, and its subjects are some of those of the
-- types, in the order in which the types name them.
pub event_subjects-Distinct :
    (advisory metric : String → String) (types : List String) (event_prefix domain : String)
    → AllKnown (subject_of advisory metric (js_prefix event_prefix domain)) types
    → let name = subject_of advisory metric (js_prefix event_prefix domain) in
      (out : List String) × (event_subjects advisory metric types event_prefix domain ≡ some out)
      × Distinct out
      × AllIn name types out
      × Sublist out (known name types)
unfolding event_subjects
event_subjects-Distinct advisory metric types event_prefix domain k =
    let name = subject_of advisory metric (js_prefix event_prefix domain) in
    let (out, h) = gathers name types k [] in
    let g = gathered name types [] out tt h in (out, h, g.distinct, g.all, rw g.split g.sub)

forget :
    (name : String → Option String) (types out : List String)
    → AllIn name types out
    → AllKnown name types
forget name [] out a = tt
forget name (t ∷ types) out ((s, e, c), a) = ((s, e), forget name types out a)

-- `EventSubjects` gives a list only if every type that is asked for is a known one.
pub event_subjects-AllKnown :
    (advisory metric : String → String) (types out : List String) (event_prefix domain : String)
    → event_subjects advisory metric types event_prefix domain ≡ some out
    → AllKnown (subject_of advisory metric (js_prefix event_prefix domain)) types
unfolding event_subjects
event_subjects-AllKnown advisory metric types out event_prefix domain h =
    let name = subject_of advisory metric (js_prefix event_prefix domain) in
    forget name types out (gathered name types [] out tt h).all
