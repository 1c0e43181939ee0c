-- ===== src/ObjectCache/Refine.antt =====
-- The operations of the cache are those of a map from keys to objects.

use vsg.Base.{
  ℕ, ◌≡◌, refl, sym, ap, ◌∙◌, inl, inr, Bool, true, false, Option, none, some, ◌==◌, if◌then◌else◌,
  Bool-cases,
}
use vsg.ObjectCache.{
  Key, same_key, ObjectTimepoint, ObjectCache, find, clear, contains, used, get, add, remove,
  remove_object, is_some,
}
use vsg.ObjectCache.View.{
  Distinct, view, object_of, unless, find-assign, find-erase, find-without_object, key_eq,
}
use vsg.ObjectCache.Distinct.{assign-Distinct, erase-Distinct, without_object-Distinct}

-- A map without the keys of an object.
abbrev pub forget : ℕ → Option ℕ → Option ℕ
forget o none = none
forget o (some p) = if p == o then none else some p

abbrev pub or_null : Option ℕ → ℕ
or_null none = 0
or_null (some o) = o

-- Each operation on the cache `c` is one on the map that it stands for.
pub record Refines (c : ObjectCache) : Type 0 where
  pub on_get :
      (now : ℕ) (k : Key)
      → ((get now k c).0 ≡ or_null (view c k))
        × ((j : Key) → view (get now k c).1 j ≡ view c j)
        × Distinct (get now k c).1.entries
  pub on_contains : (k : Key) → contains k c ≡ is_some (view c k)
  pub on_add :
      (now o : ℕ) (k : Key)
      → ((j : Key) → view (add now o k c) j ≡ (if same_key k j then some o else view c j))
        × Distinct (add now o k c).entries
  pub on_remove :
      (k : Key)
      → ((j : Key) → view (remove k c) j ≡ (if same_key k j then none else view c j))
        × Distinct (remove k c).entries
  pub on_remove_object :
      (o : ℕ)
      → ((j : Key) → view (remove_object o c) j ≡ forget o (view c j))
        × Distinct (remove_object o c).entries
  pub on_clear : ((j : Key) → view (clear c) j ≡ none) × Distinct (clear c).entries

object_of_if :
    (b : Bool) (x y : Option ObjectTimepoint)
    → object_of (if b then x else y) ≡ (if b then object_of x else object_of y)
object_of_if true x y = refl
object_of_if false x y = refl

object_of-unless :
    (o : ℕ) (x : Option ObjectTimepoint) → object_of (unless o x) ≡ forget o (object_of x)
object_of-unless o none = refl
object_of-unless o (some ot) = object_of_if (ot.object == o) none (some ot)

is_some-object_of : (x : Option ObjectTimepoint) → is_some x ≡ is_some (object_of x)
is_some-object_of none = refl
is_some-object_of (some ot) = refl

-- A use of an entry keeps its object.
used_same :
    (now : ℕ) (k : Key) (c : ObjectCache) (x : Option ObjectTimepoint)
    → Distinct c.entries
    → find k c.entries ≡ x
    → ((used now x k c).0 ≡ or_null (object_of x))
      × ((j : Key) → view (used now x k c).1 j ≡ view c j)
      × Distinct (used now x k c).1.entries
unfolding view
used_same now k c none d e = (refl, (λ j. refl), d)
used_same now k c (some ot) d e =
    let ot' : ObjectTimepoint = record ot { last_used_timepoint = now } in
    (
      refl,
      λ j. ap object_of (find-assign k j ot' c.entries) ∙ elim (Bool-cases (same_key k j)) [
        | inl h ↦ rw h (ap object_of (sym e ∙ ap (λ i. find i c.entries) (key_eq k j h)))
        | inr h ↦ rw h refl
      ],
      assign-Distinct k ot' c.entries d,
    )

-- Of a cache in which no key stands twice: `get` and `contains` answer from the map that it stands
-- for and leave the map, `add` replaces the object of its key alone, `remove` removes that key or
-- every key of that object alone, `clear` all; and still no key stands twice.
pub operations-Refines : (c : ObjectCache) → Distinct c.entries → Refines c
unfolding get contains add remove remove_object clear view find
operations-Refines c d = record {
  on_get = λ now k. used_same now k c (find k c.entries) d refl;
  on_contains = λ k. is_some-object_of (find k c.entries);
  on_add = λ now o k. (
    λ j. ap object_of (find-assign k j _ c.entries) ∙ object_of_if (same_key k j) _ _,
    assign-Distinct k _ c.entries d,
  );
  on_remove = λ k. (
    λ j. ap object_of (find-erase k j c.entries d) ∙ object_of_if (same_key k j) _ _,
    erase-Distinct k c.entries d,
  );
  on_remove_object = λ o. (
    λ j. ap object_of (find-without_object o j c.entries d) ∙ object_of-unless o _,
    without_object-Distinct o c.entries d,
  );
  on_clear = (λ j. refl, _);
}
